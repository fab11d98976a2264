-- ===== src/Jails/Sent.antt =====
-- unraid-api-plugin-incus/src/incus.service.ts: what one call sends, and when the list of containers is asked for
-- again.
use incus_unraid.Prelude.{
  ℕ, ◌+◌, ◌<◌, true, ◌≡◌, refl, sym, ap, ◌∙◌, inl, inr, none, some, List, [], ◌∷◌, ◌++◌, map, ltb,
  if◌then◌else◌, Text, codes, Bool-cases, Option-cases, arith,
}
use incus_unraid.UnixClient.Exchange.{Outcome, value, throws, hangs}
use incus_unraid.UnixClient.Requests.{IncusResponse, pending}
use incus_unraid.Jails.Calls.{
  Host, Service, Calls, next, Body, no_body, Sent, call, call_and_wait, wait_if_async,
  wait_for_operation, forget_snapshot, changes_instances, settle_call, summary_of, list_jails,
  fetch_jails, remember, fresh, JailSummary,
}

abbrev pub value_or : {A : Type 0} → A → Outcome A → A
value_or d (value a) = a
value_or d _ = d

pub next-value :
    {W A B : Type 0} (m : Outcome A × Service W) (f : A → Calls W B) {b : B} {s' : Service W}
    → next m f ≡ (value b, s')
    → (a : A) × (s : Service W) × (m ≡ (value a, s)) × (f a s ≡ (value b, s'))
next-value (value a, s) f h = (a, s, refl, h)
next-value (throws e, s) f h = absurd (cc)
next-value (hangs, s) f h = absurd (cc)

-- What is the same of the state behind a call and behind what follows it.
pub next-same :
    {W A B C : Type 0} (field : Service W → C) (m : Outcome A × Service W) (f : A → Calls W B)
    → ((a : A) (s : Service W) → field (f a s).1 ≡ field s)
    → field (next m f).1 ≡ field m.1
next-same field (value a, s) f h = h a s
next-same field (throws e, s) f h = refl
next-same field (hangs, s) f h = refl

module _ {W : Type 0} (h : Host W) where
  pub wait_if_async-sent :
      (r : IncusResponse) (s : Service W) → (wait_if_async h r s).1.sent ≡ s.sent
  unfolding wait_if_async wait_for_operation
  wait_if_async-sent r s = elim (Option-cases (pending h.socket r)) [
    | inl e ↦ rw (e, wait_if_async) refl
    | inr (o, e) ↦ rw (e, wait_if_async) refl
  ]

  wait_if_async-snapshot :
      (r : IncusResponse) (s : Service W) → (wait_if_async h r s).1.jail_snapshot ≡ s.jail_snapshot
  unfolding wait_if_async wait_for_operation
  wait_if_async-snapshot r s = elim (Option-cases (pending h.socket r)) [
    | inl e ↦ rw (e, wait_if_async) refl
    | inr (o, e) ↦ rw (e, wait_if_async) refl
  ]

  forget_snapshot-sent : (m p : Text) (s : Service W) → (forget_snapshot h m p s).1.sent ≡ s.sent
  unfolding forget_snapshot
  forget_snapshot-sent m p s = elim (Bool-cases (changes_instances h m p)) [
    | inl e ↦ rw e refl
    | inr e ↦ rw e refl
  ]

  abbrev pub one : Text → Text → Body → List Sent
  one method path body = record { method = method; path = path; body = body } ∷ []

  settle_call-sent :
      (m p : Text) (r : IncusResponse) (s : Service W) → (settle_call h m p r s).1.sent ≡ s.sent
  unfolding settle_call
  settle_call-sent m p r s =
      next-same (λ x. x.sent) (wait_if_async h r s)
        (λ _ s'. next (forget_snapshot h m p s') (λ _ s''. (value r, s'')))
        (λ _ s'.
          next-same (λ x. x.sent) (forget_snapshot h m p s') (λ _ s''. (value r, s''))
            (λ _ s''. refl)
          ∙ forget_snapshot-sent m p s')
      ∙ wait_if_async-sent r s

  pub call-sent :
      (m p : Text) (b : Body) (s : Service W) → (call h m p b s).1.sent ≡ s.sent ++ one m p b
  unfolding call
  call-sent m p b s = refl

  -- Whatever comes of it, one call sends one request.
  pub call_and_wait-sent :
      (m p : Text) (b : Body) (s : Service W)
      → (call_and_wait h m p b s).1.sent ≡ s.sent ++ one m p b
  unfolding call_and_wait
  call_and_wait-sent m p b s =
      next-same (λ x. x.sent) (call h m p b s) (settle_call h m p) (settle_call-sent m p)
      ∙ call-sent m p b s

  abbrev pub list_request : List Sent
  list_request = one (codes "GET") (codes "/1.0/instances?recursion=2") no_body

  fetch_jails-sent : (s : Service W) → (fetch_jails h s).1.sent ≡ s.sent ++ list_request
  unfolding fetch_jails
  fetch_jails-sent s =
      next-same (λ x. x.sent) (call h (codes "GET") (codes "/1.0/instances?recursion=2") no_body s)
        (λ r s'. next (h.instances_of r, s') (λ l s''. (value (map (summary_of h) l), s'')))
        (λ r s'.
          next-same (λ x. x.sent) (h.instances_of r, s')
            (λ l s''. (value (map (summary_of h) l), s'')) (λ _ s''. refl))
      ∙ call-sent (codes "GET") (codes "/1.0/instances?recursion=2") no_body s

  remember-sent :
      (n : ℕ) (m : Outcome (List JailSummary) × Service W) → (remember h n m).1.sent ≡ m.1.sent
  unfolding remember
  remember-sent n (value js, s) = refl
  remember-sent n (throws e, s) = refl
  remember-sent n (hangs, s) = refl

  call_and_wait-forgets :
      (m p : Text) (b : Body) (s s' : Service W) {r : IncusResponse}
      → call_and_wait h m p b s ≡ (value r, s')
      → changes_instances h m p ≡ true
      → s'.jail_snapshot ≡ none
  unfolding call_and_wait settle_call forget_snapshot
  call_and_wait-forgets m p b s s' e c =
      let (r1, s1, e1, f1) = next-value (call h m p b s) (settle_call h m p) e in
      let (_, s2, e2, f2) =
        next-value (wait_if_async h r1 s1)
          (λ _ s'. next (forget_snapshot h m p s') (λ _ s''. (value r1, s''))) f1 in
      let last : (if changes_instances h m p then record s2 { jail_snapshot = none } else s2) ≡ s' =
        ap (λ x. x.1) f2 in
      ap (λ x. x.jail_snapshot) (sym (rw c at last))

  list_jails-stale :
      (s : Service W)
      → fresh h s.jail_snapshot (h.now s.world) ≡ none
      → list_jails h s ≡ remember h (h.now s.world + 1000) (fetch_jails h s)
  unfolding list_jails
  list_jails-stale s e = rw (e, list_jails) refl

  list_jails-fresh :
      (s : Service W) {js : List JailSummary}
      → fresh h s.jail_snapshot (h.now s.world) ≡ some js
      → list_jails h s ≡ (value js, s)
  unfolding list_jails
  list_jails-fresh s e = rw (e, list_jails) refl

  -- After a call that changes instances and returns, the next list of containers asks the daemon, whatever the
  -- clock says.
  pub list_jails-after-change :
      (m p : Text) (b : Body) (s s' : Service W) {r : IncusResponse}
      → call_and_wait h m p b s ≡ (value r, s')
      → changes_instances h m p ≡ true
      → (list_jails h s').1.sent ≡ (s.sent ++ one m p b) ++ list_request
  unfolding fresh
  list_jails-after-change m p b s s' e c =
      let gone = call_and_wait-forgets m p b s s' e c in
      let grown : s'.sent ≡ s.sent ++ one m p b =
        ap (λ x. x.1.sent) (sym e) ∙ call_and_wait-sent m p b s in
      let asks = list_jails-stale s' (ap (λ x. fresh h x (h.now s'.world)) gone) in
      ap (λ x. x.1.sent) asks
      ∙ remember-sent (h.now s'.world + 1000) (fetch_jails h s')
      ∙ fetch_jails-sent s'
      ∙ ap (λ x. x ++ list_request) grown

  remember-value :
      (n : ℕ) (m : Outcome (List JailSummary) × Service W) {js : List JailSummary} {s' : Service W}
      → remember h n m ≡ (value js, s')
      → s'.jail_snapshot ≡ some (record { expires_at = n; jails = js })
  unfolding remember
  remember-value n (value js, s) e = cc
  remember-value n (throws x, s) e = absurd (cc)
  remember-value n (hangs, s) e = absurd (cc)

  -- Within a second of a list that was fetched and returned, the service gives the same list again without asking
  -- the daemon.
  pub list_jails-again :
      (s s' : Service W) {js : List JailSummary}
      → fresh h s.jail_snapshot (h.now s.world) ≡ none
      → list_jails h s ≡ (value js, s')
      → h.now s'.world < h.now s.world + 1000
      → list_jails h s' ≡ (value js, s')
  unfolding fresh
  list_jails-again s s' {js} stale e l =
      let kept =
        remember-value (h.now s.world + 1000) (fetch_jails h s)
          (sym (list_jails-stale s stale) ∙ e) in
      let early : ltb (h.now s'.world) (h.now s.world + 1000) ≡ true = ground arith in
      list_jails-fresh s' (ap (λ x. fresh h x (h.now s'.world)) kept ∙ rw early refl)
