-- ===== src/Images/Ended.antt =====
-- unraid-api-plugin-incus/src/incus-image-builder.service.ts, runBuild: its timers end a build whose child never does.
use incus_unraid.Prelude.{
  ℕ, zero, suc, Bool, true, false, not, ◌||◌, ◌&&◌, ◌≡◌, refl, sym, ◌∙◌, ap, Option, none, some,
  List, [], ◌∷◌, ◌++◌, if◌then◌else◌, Text, codes, arith,
}
use incus_unraid.Images.Build.{
  sigkill, Build, started, conclude, finish, stopped, Event, chunk, timeout_fires, kill_fires,
  hard_fires, log_fails, child_fails, child_closes, recorded, step, run,
}
use mathlib.Core.Path.{subst}
use incus_unraid.Images.Standing.{Stands, runs, records, over, saw}
use incus_unraid.Images.Built.{finish-settled, run-Stands}

-- How far a build is at least: its first timer has fired, its second, it is settled, and nothing of it waits
data Stage : Type 0 where
  timed_out killed done closed : Stage

abbrev reached : Stage → Build → Bool
reached timed_out b = b.settled || (b.hard_timer || b.kill_timer)
reached killed b = b.settled || b.hard_timer
reached done b = b.settled
reached closed b = b.settled && not b.recording

or_true : (x y : Bool) → x ≡ true → (x || y) ≡ true
or_true x y e = ground arith

ends_if :
    (x : Bool) (b c : Build)
    → (x ≡ true → b.settled ≡ true)
    → c.settled ≡ true
    → (if x then b else c).settled ≡ true
ends_if true b c h k = h refl
ends_if false b c h k = k

if-reached :
    (stage : Stage) (x : Bool) (b c : Build)
    → reached stage b ≡ true
    → reached stage c ≡ true
    → reached stage (if x then b else c) ≡ true
if-reached stage true b c h k = h
if-reached stage false b c h k = k

choice-reached :
    (stage : Stage) (x : Bool) (b c : Build)
    → (x ≡ true → reached stage b ≡ true)
    → (x ≡ false → reached stage c ≡ true)
    → reached stage (if x then b else c) ≡ true
choice-reached stage true b c h k = h refl
choice-reached stage false b c h k = k refl

module _ (redact : Text → Text) (encode : Text → List ℕ) (decode : List ℕ → Text) where
  run-append :
      (es fs : List Event) (b : Build)
      → run redact encode decode (es ++ fs) b
        ≡ run redact encode decode fs (run redact encode decode es b)
  unfolding run
  run-append [] fs b = refl
  run-append (e ∷ es) fs b = run-append es fs (step redact encode decode e b)

  conclude-settled :
      (now : ℕ) (code : Option ℕ) (failure : Option Text) (b : Build)
      → (conclude now code failure b).settled ≡ b.settled
  unfolding conclude
  conclude-settled now code (some message) b = refl
  conclude-settled now none none b = refl
  conclude-settled now (some zero) none b = refl
  conclude-settled now (some (suc n)) none b = refl

  ends :
      (now : ℕ) (code : Option ℕ) (error : Option Text) (b : Build)
      → (finish redact encode decode now code error b).settled ≡ true
  unfolding finish
  ends now code error b =
      ends_if b.settled b _ (λ e. e) (conclude-settled now code _ (stopped redact encode decode b))

  finish-reached :
      (stage : Stage) (now : ℕ) (code : Option ℕ) (error : Option Text) (b c : Build)
      → c.settled ≡ b.settled
      → c.recording ≡ b.recording
      → reached stage b ≡ true
      → reached stage (finish redact encode decode now code error c) ≡ true
  finish-reached timed_out now code error b c s r h = or_true _ _ (ends now code error c)
  finish-reached killed now code error b c s r h = or_true _ _ (ends now code error c)
  finish-reached done now code error b c s r h = ends now code error c
  finish-reached closed now code error b c s r h =
      let still : c.settled ≡ true = ground arith in
      subst (λ (x : Build). (x.settled && not x.recording) ≡ true)
        (sym (finish-settled redact encode decode now code error c still)) (ground arith)

  step-reached :
      (stage : Stage) (e : Event) (b : Build)
      → reached stage b ≡ true
      → reached stage (step redact encode decode e b) ≡ true
  unfolding step
  step-reached timed_out (chunk text) b h = if-reached timed_out b.listening _ b h h
  step-reached killed (chunk text) b h = if-reached killed b.listening _ b h h
  step-reached done (chunk text) b h = if-reached done b.listening _ b h h
  step-reached closed (chunk text) b h = if-reached closed b.listening _ b h h
  step-reached timed_out timeout_fires b h = if-reached timed_out b.timeout _ b (ground arith) h
  step-reached killed timeout_fires b h = if-reached killed b.timeout _ b h h
  step-reached done timeout_fires b h = if-reached done b.timeout _ b h h
  step-reached closed timeout_fires b h = if-reached closed b.timeout _ b h h
  step-reached timed_out kill_fires b h = if-reached timed_out b.kill_timer _ b (ground arith) h
  step-reached killed kill_fires b h = if-reached killed b.kill_timer _ b (ground arith) h
  step-reached done kill_fires b h = if-reached done b.kill_timer _ b h h
  step-reached closed kill_fires b h = if-reached closed b.kill_timer _ b h h
  step-reached stage (hard_fires now) b h =
      if-reached stage b.hard_timer _ b
        (finish-reached stage now none b.forced_error b (record b { hard_timer = false }) refl refl
          h)
        h
  step-reached stage (log_fails now message) b h =
      finish-reached stage now none (some (codes "Unable to write image build log: " ++ message)) b
        (record b {
          forced_error = some (codes "Unable to write image build log: " ++ message);
          signals = sigkill ∷ b.signals;
        })
        refl refl h
  step-reached stage (child_fails now message) b h =
      finish-reached stage now none (some message) b b refl refl h
  step-reached stage (child_closes now code) b h =
      finish-reached stage now code none b b refl refl h
  step-reached timed_out (recorded now none) b h = if-reached timed_out b.recording _ b h h
  step-reached killed (recorded now none) b h = if-reached killed b.recording _ b h h
  step-reached done (recorded now none) b h = if-reached done b.recording _ b h h
  step-reached closed (recorded now none) b h = if-reached closed b.recording _ b (ground arith) h
  step-reached timed_out (recorded now (some message)) b h =
      if-reached timed_out b.recording _ b h h
  step-reached killed (recorded now (some message)) b h = if-reached killed b.recording _ b h h
  step-reached done (recorded now (some message)) b h = if-reached done b.recording _ b h h
  step-reached closed (recorded now (some message)) b h =
      if-reached closed b.recording _ b (ground arith) h

  run-reached :
      (stage : Stage) (es : List Event) (b : Build)
      → reached stage b ≡ true
      → reached stage (run redact encode decode es b) ≡ true
  unfolding run
  run-reached stage [] b h = h
  run-reached stage (e ∷ es) b h =
      run-reached stage es (step redact encode decode e b) (step-reached stage e b h)

  -- Each timer brings the build to the next stage.
  timeout-reached :
      (seen : Bool) (b : Build)
      → Stands seen b
      → reached timed_out (step redact encode decode timeout_fires b) ≡ true
  unfolding step
  timeout-reached seen b (runs s u r k f t) =
      choice-reached timed_out b.timeout _ b (λ e. ground arith) (λ e. ground arith)
  timeout-reached seen b (records s u r k t z) =
      step-reached timed_out timeout_fires b (or_true _ _ s)
  timeout-reached seen b (over s r k t f w) = step-reached timed_out timeout_fires b (or_true _ _ s)

  kill-reached :
      (b : Build)
      → reached timed_out b ≡ true
      → reached killed (step redact encode decode kill_fires b) ≡ true
  unfolding step
  kill-reached b h = choice-reached killed b.kill_timer _ b (λ e. ground arith) (λ e. ground arith)

  hard-reached :
      (now : ℕ) (b : Build)
      → reached killed b ≡ true
      → reached done (step redact encode decode (hard_fires now) b) ≡ true
  unfolding step
  hard-reached now b h =
      choice-reached done b.hard_timer _ b
        (λ e. ends now none b.forced_error (record b { hard_timer = false })) (λ e. ground arith)

  recorded-reached :
      (now : ℕ) (outcome : Option Text) (b : Build)
      → reached done b ≡ true
      → reached closed (step redact encode decode (recorded now outcome) b) ≡ true
  unfolding step
  recorded-reached now none b h =
      choice-reached closed b.recording _ b (λ e. ground arith) (λ e. ground arith)
  recorded-reached now (some message) b h =
      choice-reached closed b.recording _ b (λ e. ground arith) (λ e. ground arith)

  closed-resolved :
      (seen : Bool) (b : Build) → Stands seen b → reached closed b ≡ true → b.resolved ≡ 1
  closed-resolved seen b (runs s u r k f t) h = absurd (ground arith)
  closed-resolved seen b (records s u r k t z) h = absurd (ground arith)
  closed-resolved seen b (over s r k t f w) h = r

  -- Events, then one that brings the build to the next stage
  through :
      (stage next : Stage) (es : List Event) (e : Event) (rest : List Event) (b : Build)
      → ((c : Build) → reached stage c ≡ true → reached next (step redact encode decode e c) ≡ true)
      → reached stage b ≡ true
      → (c : Build) × (reached next c ≡ true)
        × (run redact encode decode (es ++ e ∷ rest) b ≡ run redact encode decode rest c)
  unfolding run
  through stage next es e rest b forward h = (
    step redact encode decode e (run redact encode decode es b),
    forward (run redact encode decode es b) (run-reached stage es b h),
    run-append es (e ∷ rest) b,
  )

  -- Where the three timers fire that are set, one behind the other, and recordImageBuilt returns or throws where it was called,
  -- with any events before, between and behind them, the build is settled and its promise is resolved, once: its slot is given
  -- back even if the child process never tells its end.
  pub run-ends :
      (before between after later rest : List Event) (now behind : ℕ) (outcome : Option Text)
      → let b =
          run redact encode decode
            (before
              ++ (timeout_fires
                  ∷ (between
                      ++ (kill_fires
                          ∷ (after
                              ++ (hard_fires now ∷ (later ++ (recorded behind outcome ∷ rest))))))))
            started in
        (b.settled ≡ true) × (b.resolved ≡ 1)
  unfolding run
  run-ends before between after later rest now behind outcome =
      let last = recorded behind outcome in
      let tail = later ++ last ∷ rest in
      let whole =
        before
        ++ (timeout_fires ∷ (between ++ (kill_fires ∷ (after ++ (hard_fires now ∷ tail))))) in
      let b0 = run redact encode decode before started in
      let b1 = step redact encode decode timeout_fires b0 in
      let first = timeout-reached (saw before false) b0 (run-Stands redact encode decode before) in
      let (b2, second, to2) =
        through timed_out killed between kill_fires (after ++ (hard_fires now ∷ tail)) b1
          kill-reached first in
      let (b3, third, to3) =
        through killed done after (hard_fires now) tail b2 (hard-reached now) second in
      let (b4, fourth, to4) =
        through done closed later last rest b3 (recorded-reached behind outcome) third in
      let same : run redact encode decode whole started ≡ run redact encode decode rest b4 =
        run-append before
          (timeout_fires ∷ (between ++ (kill_fires ∷ (after ++ (hard_fires now ∷ tail))))) started
        ∙ to2
        ∙ to3
        ∙ to4 in
      let end : reached closed (run redact encode decode whole started) ≡ true =
        ap (reached closed) same ∙ run-reached closed rest b4 fourth in
      (
        ground arith,
        closed-resolved (saw whole false) _ (run-Stands redact encode decode whole) end,
      )
