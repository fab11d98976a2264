-- ===== src/Images/Standing.antt =====
-- unraid-api-plugin-incus/src/incus-image-builder.service.ts, runBuild: where a build stands.
use incus_unraid.Prelude.{
  ℕ, zero, ◌+◌, Bool, true, false, ◌≡◌, refl, ◌∙◌, ◌⊎◌, inl, inr, Option, none, some, List, [], ◌∷◌,
  if◌then◌else◌, Text,
}
use incus_unraid.Images.Build.{Signal, running, success, failed, Build, Event, child_closes}
use incus_unraid.Images.BuildLog.{Log}

-- Whether the child has ended with code 0, by an event and what was seen before it
abbrev pub sees : Event → Bool → Bool
sees (child_closes now (some zero)) seen = true
sees _ seen = seen

abbrev pub saw : List Event → Bool → Bool
saw [] seen = seen
saw (e ∷ es) seen = saw es (sees e seen)

abbrev pub timers : Build → ℕ
timers b =
    (if b.timeout then 1 else 0)
    + ((if b.kill_timer then 1 else 0) + (if b.hard_timer then 1 else 0))

-- Where a build stands: it runs and one timer is set; or it has succeeded, no timer is set and it waits for its record; or
-- it is over and was resolved once.
pub data Stands (seen : Bool) (b : Build) : Type 0 where
  runs :
      b.settled ≡ false
      → b.status ≡ running
      → b.resolved ≡ 0
      → b.recording ≡ false
      → b.finished_at ≡ none
      → timers b ≡ 1
      → Stands seen b
  records :
      b.settled ≡ true
      → b.status ≡ success
      → b.resolved ≡ 0
      → b.recording ≡ true
      → timers b ≡ 0
      → seen ≡ true
      → Stands seen b
  over :
      b.settled ≡ true
      → b.resolved ≡ 1
      → b.recording ≡ false
      → timers b ≡ 0
      → (now : ℕ) × (b.finished_at ≡ some now)
      → ((b.status ≡ failed) × ((message : Text) × (b.error ≡ some message)))
        ⊎ ((b.status ≡ success) × (seen ≡ true))
      → Stands seen b

-- The same build but for its log, its signals and the error that waits
pub record Alike (b c : Build) : Type 0 where
  pub settled : c.settled ≡ b.settled
  pub status : c.status ≡ b.status
  pub error : c.error ≡ b.error
  pub resolved : c.resolved ≡ b.resolved
  pub recording : c.recording ≡ b.recording
  pub finished : c.finished_at ≡ b.finished_at
  pub armed : timers c ≡ timers b

pub alike :
    (b : Build) (forced_error : Option Text) (signals : List Signal) (log : Log)
    → Alike b (record b { forced_error = forced_error; signals = signals; log = log })
alike b forced_error signals log = record {
  settled = refl;
  status = refl;
  error = refl;
  resolved = refl;
  recording = refl;
  finished = refl;
  armed = refl;
}

pub Alike-Stands : (seen : Bool) (b c : Build) → Alike b c → Stands seen b → Stands seen c
Alike-Stands seen b c a (runs s u r k f t) =
    runs (a.settled ∙ s) (a.status ∙ u) (a.resolved ∙ r) (a.recording ∙ k) (a.finished ∙ f)
      (a.armed ∙ t)
Alike-Stands seen b c a (records s u r k t z) =
    records (a.settled ∙ s) (a.status ∙ u) (a.resolved ∙ r) (a.recording ∙ k) (a.armed ∙ t) z
Alike-Stands seen b c a (over s r k t (now, f) (inl (u, (message, e)))) =
    over (a.settled ∙ s) (a.resolved ∙ r) (a.recording ∙ k) (a.armed ∙ t) (now, a.finished ∙ f)
      (inl (a.status ∙ u, (message, a.error ∙ e)))
Alike-Stands seen b c a (over s r k t (now, f) (inr (u, z))) =
    over (a.settled ∙ s) (a.resolved ∙ r) (a.recording ∙ k) (a.armed ∙ t) (now, a.finished ∙ f)
      (inr (a.status ∙ u, z))

pub mapped :
    (seen seen' : Bool) (b : Build) → (seen ≡ true → seen' ≡ true) → Stands seen b → Stands seen' b
mapped seen seen' b h (runs s u r c f t) = runs s u r c f t
mapped seen seen' b h (records s u r c t z) = records s u r c t (h z)
mapped seen seen' b h (over s r c t f (inl e)) = over s r c t f (inl e)
mapped seen seen' b h (over s r c t f (inr (u, z))) = over s r c t f (inr (u, h z))

pub if-Stands :
    (seen x : Bool) (b c : Build)
    → (x ≡ true → Stands seen b)
    → Stands seen c
    → Stands seen (if x then b else c)
if-Stands seen true b c h k = h refl
if-Stands seen false b c h k = k

pub then-Stands :
    (seen x : Bool) (b c : Build) → x ≡ true → Stands seen b → Stands seen (if x then b else c)
then-Stands seen true b c e h = h
then-Stands seen false b c e h = absurd (cc)

pub else-Stands :
    (seen x : Bool) (b c : Build) → x ≡ false → Stands seen c → Stands seen (if x then b else c)
else-Stands seen true b c e h = absurd (cc)
else-Stands seen false b c e h = h

pub timer-Stands :
    (seen x : Bool) (b c : Build)
    → (b.settled ≡ false → b.resolved ≡ 0 → Stands seen b → x ≡ true → Stands seen c)
    → (timers b ≡ 0 → x ≡ false)
    → Stands seen b
    → Stands seen (if x then c else b)
timer-Stands seen true b c h z (runs s u r k f t) = h s r (runs s u r k f t) refl
timer-Stands seen true b c h z (records s u r k t w) = absurd (let no = z t in cc)
timer-Stands seen true b c h z (over s r k t f w) = absurd (let no = z t in cc)
timer-Stands seen false b c h z stands = stands
