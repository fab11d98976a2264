-- ===== src/Images/Built.antt =====
-- unraid-api-plugin-incus/src/incus-image-builder.service.ts, runBuild: a build ends once, and it ends.
use incus_unraid.Prelude.{
  ℕ, zero, suc, ◌+◌, Bool, true, false, ◌≡◌, refl, ◌∙◌, ap, inl, inr, Option, none, some, List, [],
  ◌∷◌, ◌++◌, Text, codes, arith,
}
use incus_unraid.Images.Build.{
  sigkill, Build, started, conclude, finish, stopped, Event, chunk, timeout_fires, kill_fires,
  hard_fires, log_fails, child_fails, child_closes, recorded, step, run,
}
use incus_unraid.Images.Standing.{
  sees, saw, timers, Stands, runs, records, over, Alike, alike, Alike-Stands, mapped, if-Stands,
  then-Stands, else-Stands, timer-Stands,
}

module _ (redact : Text → Text) (encode : Text → List ℕ) (decode : List ℕ → Text) where
  conclude-Stands :
      (seen : Bool) (now : ℕ) (code : Option ℕ) (failure : Option Text) (b : Build)
      → (code ≡ some 0 → seen ≡ true)
      → b.settled ≡ true
      → b.resolved ≡ 0
      → timers b ≡ 0
      → Stands seen (conclude now code failure b)
  unfolding conclude
  conclude-Stands seen now code (some message) b h s r t =
      over s (ap (λ n. n + 1) r) refl t (now, refl) (inl (refl, (message, refl)))
  conclude-Stands seen now none none b h s r t =
      over s (ap (λ n. n + 1) r) refl t (now, refl) (inl (refl, (_, refl)))
  conclude-Stands seen now (some zero) none b h s r t = records s refl r refl t (h refl)
  conclude-Stands seen now (some (suc n)) none b h s r t =
      over s (ap (λ n. n + 1) r) refl t (now, refl) (inl (refl, (_, refl)))

  finish-running :
      (seen : Bool) (now : ℕ) (code : Option ℕ) (error : Option Text) (b : Build)
      → (code ≡ some 0 → seen ≡ true)
      → b.settled ≡ false
      → b.resolved ≡ 0
      → Stands seen (finish redact encode decode now code error b)
  unfolding finish
  finish-running seen now code error b h s r =
      rw s (conclude-Stands seen now code _ (stopped redact encode decode b) h refl r refl)

  pub finish-settled :
      (now : ℕ) (code : Option ℕ) (error : Option Text) (b : Build)
      → b.settled ≡ true
      → finish redact encode decode now code error b ≡ b
  unfolding finish
  finish-settled now code error b s = rw s refl

  finish-Stands :
      (seen seen' : Bool) (now : ℕ) (code : Option ℕ) (error : Option Text) (b c : Build)
      → (code ≡ some 0 → seen' ≡ true)
      → (seen ≡ true → seen' ≡ true)
      → Alike b c
      → Stands seen b
      → Stands seen' (finish redact encode decode now code error c)
  finish-Stands seen seen' now code error b c h m a (runs s u r k f t) =
      finish-running seen' now code error c h (a.settled ∙ s) (a.resolved ∙ r)
  finish-Stands seen seen' now code error b c h m a (records s u r k t z) =
      rw (finish-settled now code error c (a.settled ∙ s))
        (mapped seen seen' c m (Alike-Stands seen b c a (records s u r k t z)))
  finish-Stands seen seen' now code error b c h m a (over s r k t f w) =
      rw (finish-settled now code error c (a.settled ∙ s))
        (mapped seen seen' c m (Alike-Stands seen b c a (over s r k t f w)))

  timeout-Stands :
      (seen : Bool) (b : Build)
      → Stands seen b
      → Stands seen (step redact encode decode timeout_fires b)
  unfolding step
  timeout-Stands seen b stands =
      timer-Stands seen b.timeout b _
        (λ s r stands e. elim stands [
          | runs s' u r' k f t ↦ runs s' u r' k f (ground arith)
          | records s' u r' k t z ↦ absurd (cc)
          | over s' r' k t f w ↦ absurd (cc)
        ])
        (λ t. ground arith) stands

  kill-Stands :
      (seen : Bool) (b : Build)
      → Stands seen b
      → Stands seen (step redact encode decode kill_fires b)
  unfolding step
  kill-Stands seen b stands =
      timer-Stands seen b.kill_timer b _
        (λ s r stands e. elim stands [
          | runs s' u r' k f t ↦ runs s' u r' k f (ground arith)
          | records s' u r' k t z ↦ absurd (cc)
          | over s' r' k t f w ↦ absurd (cc)
        ])
        (λ t. ground arith) stands

  recorded-Stands :
      (seen : Bool) (now : ℕ) (outcome : Option Text) (b : Build)
      → Stands seen b
      → Stands seen (step redact encode decode (recorded now outcome) b)
  unfolding step
  recorded-Stands seen now outcome b (runs s u r k f t) =
      else-Stands seen b.recording _ b k (runs s u r k f t)
  recorded-Stands seen now none b (records s u r k t z) =
      then-Stands seen b.recording _ b k
        (over s (ap (λ n. n + 1) r) refl t (now, refl) (inr (u, z)))
  recorded-Stands seen now (some message) b (records s u r k t z) =
      then-Stands seen b.recording _ b k
        (over s (ap (λ n. n + 1) r) refl t (now, refl) (inl (refl, (_, refl))))
  recorded-Stands seen now outcome b (over s r k t f w) =
      else-Stands seen b.recording _ b k (over s r k t f w)

  step-Stands :
      (e : Event) (seen : Bool) (b : Build)
      → Stands seen b
      → Stands (sees e seen) (step redact encode decode e b)
  unfolding step
  step-Stands (chunk text) seen b stands =
      if-Stands seen b.listening _ _
        (λ e. Alike-Stands seen b _ (alike b b.forced_error b.signals _) stands) stands
  step-Stands timeout_fires seen b stands = timeout-Stands seen b stands
  step-Stands kill_fires seen b stands = kill-Stands seen b stands
  step-Stands (hard_fires now) seen b stands =
      timer-Stands seen b.hard_timer b _
        (λ s r stands e.
          finish-running seen now none b.forced_error (record b { hard_timer = false })
            (λ h. absurd (cc)) s r)
        (λ t. ground arith) stands
  step-Stands (log_fails now message) seen b stands =
      (let text = codes "Unable to write image build log: " ++ message in
        finish-Stands seen seen now none (some text) b _ (λ h. absurd (cc)) (λ h. h)
          (alike b (some text) (sigkill ∷ b.signals) b.log) stands)
  step-Stands (child_fails now message) seen b stands =
      finish-Stands seen seen now none (some message) b b (λ h. absurd (cc)) (λ h. h)
        (alike b b.forced_error b.signals b.log) stands
  step-Stands (child_closes now none) seen b stands =
      finish-Stands seen seen now none none b b (λ h. absurd (cc)) (λ h. h)
        (alike b b.forced_error b.signals b.log) stands
  step-Stands (child_closes now (some zero)) seen b stands =
      finish-Stands seen true now (some zero) none b b (λ h. refl) (λ h. refl)
        (alike b b.forced_error b.signals b.log) stands
  step-Stands (child_closes now (some (suc n))) seen b stands =
      finish-Stands seen seen now (some (suc n)) none b b (λ h. absurd (cc)) (λ h. h)
        (alike b b.forced_error b.signals b.log) stands
  step-Stands (recorded now outcome) seen b stands = recorded-Stands seen now outcome b stands

  run-Stands_from :
      (es : List Event) (seen : Bool) (b : Build)
      → Stands seen b
      → Stands (saw es seen) (run redact encode decode es b)
  unfolding run
  run-Stands_from [] seen b stands = stands
  run-Stands_from (e ∷ es) seen b stands =
      run-Stands_from es (sees e seen) (step redact encode decode e b) (step-Stands e seen b stands)

  -- Whatever happens to a build, in any order: while it is not settled it runs, exactly one of its three timers is set and it is
  -- not resolved; once it is settled no timer is set, and it either waits for its record or is over, resolved exactly once with
  -- the time of its end; and it is a success only where the child has ended with code 0, else a failure with an error.
  pub run-Stands : (es : List Event) → Stands (saw es false) (run redact encode decode es started)
  run-Stands es = run-Stands_from es false started (runs refl refl refl refl refl refl)
