-- ===== src/Exec/Leaks/Touched.antt =====
-- A session whose idle timer is renewed.
use incus_unraid.Prelude.{
  ℕ, ◌≡◌, refl, sym, ap, ◌∙◌, inl, inr, some, [], ◌∷◌, Assoc, lookup, insert, length, nat_beq,
  nat_beq_iff, nat_eq, lookup-insert, Bool-cases, Option-cases, arith,
}
use incus_unraid.Exec.Sessions.{ExecSession, State, touch_session}
use incus_unraid.Exec.Leaks.Owned.{
  Inv, IsBounded, OwnsSockets, OwnsTimers, lookup-insert-delete, same-key,
}

touch_session-OwnsTimers : (id : ℕ) (s : State) → OwnsTimers s → OwnsTimers (touch_session id s)
unfolding touch_session
touch_session-OwnsTimers id s own = elim (Option-cases (lookup id s.sessions)) [
  | inl e ↦ rw (e, touch_session) own
  | inr (se, e) ↦
      rw (e, touch_session)
        (λ t j h.
          let at_t = sym (lookup-insert-delete s.next se.idle_timer t id s.timers) ∙ h in
          let new : ExecSession = record se { idle_timer = s.next } in
          let at_j = lookup-insert id j new s.sessions in
          elim (Bool-cases (nat_beq s.next t)) [
            | inl n ↦
                let owner : id ≡ j = ground arith in
                (
                  new,
                  at_j ∙ rw owner (rw (same-key j) refl),
                  inl (sym ((nat_beq_iff s.next t).0 n)),
                )
            | inr n ↦ elim (Bool-cases (nat_beq se.idle_timer t)) [
              | inl i ↦ absurd (ground arith)
              | inr i ↦
                  let (e', l, o) = own t j (ground arith) in
                  elim (Bool-cases (nat_beq id j)) [
                    | inr k ↦ (e', at_j ∙ rw k l, o)
                    | inl k ↦
                        let owner : id ≡ j = (nat_beq_iff id j).0 k in
                        let session : se ≡ e' = ground arith in
                        elim o [
                          | inl x ↦ absurd (ground arith)
                          | inr x ↦ (
                            new,
                            at_j ∙ rw k refl,
                            inr (x ∙ sym (ap (λ z. z.lifetime_timer) session)),
                          )
                        ]
                  ]
            ]
          ])
]

touch_session-OwnsSockets : (id : ℕ) (s : State) → OwnsSockets s → OwnsSockets (touch_session id s)
unfolding touch_session
touch_session-OwnsSockets id s own = elim (Option-cases (lookup id s.sessions)) [
  | inl e ↦ rw (e, touch_session) own
  | inr (se, e) ↦
      rw (e, touch_session)
        (λ k r h v.
          let (j, e', l, o) = own k r h v in
          let new : ExecSession = record se { idle_timer = s.next } in
          let at_j = lookup-insert id j new s.sessions in
          elim (Bool-cases (nat_beq id j)) [
            | inr n ↦ (j, e', at_j ∙ rw n l, o)
            | inl n ↦
                let owner : id ≡ j = (nat_beq_iff id j).0 n in
                let session : e' ≡ se = ground arith in (j, new, at_j ∙ rw n refl, rw session at o)
          ])
]

length-insert-same :
    (k : ℕ) (v w : ExecSession) (m : Assoc ℕ ExecSession)
    → lookup k m ≡ some w
    → length (insert k v m) ≡ length m
unfolding lookup insert
length-insert-same k v w [] h = absurd (cc)
length-insert-same k v w ((j, u) ∷ m) h = elim (Bool-cases (nat_beq j k)) [
  | inl e ↦ rw e refl
  | inr e ↦ rw e (omega (arith, length-insert-same k v w m (rw (e, lookup) at h)))
]

touch_session-IsBounded : (id : ℕ) (s : State) → IsBounded s → IsBounded (touch_session id s)
unfolding touch_session
touch_session-IsBounded id s b = elim (Option-cases (lookup id s.sessions)) [
  | inl e ↦ rw (e, touch_session) b
  | inr (se, e) ↦
      let same = length-insert-same id (record se { idle_timer = s.next }) se s.sessions e in
      rw (e, touch_session) (omega arith)
]

pub touch_session-Inv : (id : ℕ) (s : State) → Inv s → Inv (touch_session id s)
touch_session-Inv id s i = record {
  bounded = touch_session-IsBounded id s i.bounded;
  timers = touch_session-OwnsTimers id s i.timers;
  sockets = touch_session-OwnsSockets id s i.sockets;
}
