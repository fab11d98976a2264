-- ===== src/Images/Queue.antt =====
-- unraid-api-plugin-incus/src/incus-image-builder.service.ts: builds that run and builds that wait.
use incus_unraid.Prelude.{
  ℕ, ◌+◌, ◌-◌, ◌≤◌, ◌<◌, Bool, ◌≡◌, refl, sym, ap, ◌∙◌, List, [], ◌∷◌, ◌++◌, if◌then◌else◌, ltb,
  length, Bool-cases, inl, inr, arith,
}
use mathlib.Core.List.{append_assoc, append-nil}

abbrev pub max_concurrent_builds : ℕ
max_concurrent_builds = 2

abbrev pub max_queued_builds : ℕ
max_queued_builds = 8

-- `activeBuilds` and `queue`, and the builds started so far in their order.
pub record Builds : Type 0 where
  pub active : ℕ
  pub queue : List ℕ
  pub begun : List ℕ

abbrev pub no_builds : Builds
no_builds = record { active = 0; queue = []; begun = [] }

-- `start` of one build
abbrev pub begin : ℕ → Builds → Builds
begin build b = record b { active = b.active + 1; begun = b.begun ++ build ∷ [] }

-- enqueue
unfoldable pub enqueue : ℕ → Builds → Builds
enqueue build b =
    if ltb b.active max_concurrent_builds
    then begin build b
    else record b { queue = b.queue ++ build ∷ [] }

-- The `finally` of a build: the next one starts, if one waits.
unfoldable pub finish : Builds → Builds
finish b = elim b.queue [
  | [] ↦ record b { active = b.active - 1 }
  | build ∷ rest ↦ begin build (record b { active = b.active - 1; queue = rest })
]

-- startBuild's test of the queue, before its first `await`; the build is enqueued after the last one.
unfoldable pub has_room : Builds → Bool
has_room b = ltb (length b.queue) max_queued_builds

-- What happens to the builder, with the builds that were enqueued, in their order.
pub data Run : List ℕ → Builds → Type 0 where
  nothing : Run [] no_builds
  enqueued :
      (build : ℕ) (bs : List ℕ) (b : Builds) → Run bs b → Run (bs ++ build ∷ []) (enqueue build b)
  finished : (bs : List ℕ) (b : Builds) → 0 < b.active → Run bs b → Run bs (finish b)

-- Two builds at most, none waits while fewer run, and the started ones followed by the waiting ones are those
-- that were enqueued.
pub record Fair (bs : List ℕ) (b : Builds) : Type 0 where
  pub few : b.active ≤ max_concurrent_builds
  pub busy : 0 < length b.queue → b.active ≡ max_concurrent_builds
  pub order : b.begun ++ b.queue ≡ bs

length-zero : (q : List ℕ) → length q ≡ 0 → q ≡ []
length-zero [] h = refl
length-zero (x ∷ q) h = absurd (omega arith)

enqueue-Fair :
    (build : ℕ) (bs : List ℕ) (b : Builds) → Fair bs b → Fair (bs ++ build ∷ []) (enqueue build b)
unfolding enqueue
enqueue-Fair build bs b f =
    let few = f.few in
    let busy = f.busy in
    elim (Bool-cases (ltb b.active max_concurrent_builds)) [
      | inl e ↦
          let none_waits : b.queue ≡ [] = length-zero b.queue (ground arith) in
          let all_begun : b.begun ≡ bs = sym (append-nil b.begun) ∙ (rw none_waits at f.order) in
          rw e (record {
            few = ground arith;
            busy = λ h. (let shown = rw none_waits at h in absurd (omega arith));
            order =
                rw none_waits
                  (append-nil (b.begun ++ build ∷ []) ∙ ap (λ l. l ++ build ∷ []) all_begun);
          })
      | inr e ↦ rw e (record {
        few = few;
        busy = λ _. ground arith;
        order = sym (append_assoc b.begun b.queue (build ∷ [])) ∙ ap (λ l. l ++ build ∷ []) f.order;
      })
    ]

finish-Fair : (bs : List ℕ) (b : Builds) → 0 < b.active → Fair bs b → Fair bs (finish b)
unfolding finish
finish-Fair bs b p f = of b.queue refl
  where
    of : (q : List ℕ) → b.queue ≡ q → Fair bs (finish b)
    of [] e =
        let few = f.few in
        rw (e, finish)
          (record {
            few = omega arith;
            busy = λ h. (let shown = rw e at h in absurd (omega arith));
            order = f.order;
          })
    of (build ∷ rest) e =
        let full : b.active ≡ max_concurrent_builds = f.busy (rw e (omega arith)) in
        let order : b.begun ++ (build ∷ rest) ≡ bs = rw e at f.order in
        rw (e, finish)
          (record {
            few = omega arith;
            busy = λ _. omega arith;
            order = append_assoc b.begun (build ∷ []) rest ∙ order;
          })

-- However builds are enqueued and finish: at most two run, a build waits only while two run, and the started builds
-- followed by the waiting ones are the enqueued builds in their order.
pub Run-Fair : (bs : List ℕ) (b : Builds) → Run bs b → Fair bs b
Run-Fair _ _ nothing = record { few = omega arith; busy = λ h. absurd (omega arith); order = refl }
Run-Fair _ _ (enqueued build bs b r) = enqueue-Fair build bs b (Run-Fair bs b r)
Run-Fair _ _ (finished bs b p r) = finish-Fair bs b p (Run-Fair bs b r)
