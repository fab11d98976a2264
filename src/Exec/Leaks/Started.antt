-- ===== src/Exec/Leaks/Started.antt =====
-- A session that starts.
use mathlib.Core.Path.{subst}
use incus_unraid.Prelude.{
  ℕ, ◌+◌, ◌≤◌, ◌<◌, ◌≡◌, refl, sym, ◌∙◌, inl, inr, none, some, lookup, insert, length, leb, nat_beq,
  nat_beq_iff, nat_eq, lookup-insert, length-insert, Bool-cases, arith,
}
use incus_unraid.Exec.Sessions.{
  connecting, closing, ExecSession, State, ok, max_sessions, bad_dimensions, start, start_half,
  start_connected, close_socket,
}
use incus_unraid.Exec.Leaks.Owned.{Inv, IsLive, lookup-insert-insert, same-key}

pub start-Inv : (cols rows : ℕ) (s s' : State) → Inv s → start cols rows s ≡ ok s' → Inv s'
unfolding start
start-Inv c r s s' i h = elim (Bool-cases (bad_dimensions c r)) [
  | inl e ↦ absurd (ground arith)
  | inr e ↦ elim (Bool-cases (leb max_sessions (length s.sessions + s.pending_sessions))) [
    | inl f ↦ absurd (ground arith)
    | inr f ↦
        let grown : State = record s { pending_sessions = s.pending_sessions + 1 } in
        let same : grown ≡ s' = ground arith in
        let b : length s.sessions + (s.pending_sessions + 1) ≤ max_sessions = ground arith in
        let grown-Inv : Inv grown = record {
          bounded = b;
          timers = i.timers;
          sockets = i.sockets;
        } in
        subst Inv same grown-Inv
  ]
]

pub start_half-Inv : (s : State) → Inv s → 0 < s.pending_sessions → Inv (start_half s)
unfolding start_half close_socket
start_half-Inv s i p =
    let n = s.next in
    let b = i.bounded in
    let first : lookup n (insert n connecting s.sockets) ≡ some connecting =
      lookup-insert n n connecting s.sockets ∙ rw (same-key n) refl in
    rw (first, close_socket)
      (record {
        bounded = omega arith;
        timers = i.timers;
        sockets = λ k r h v.
            (let read = sym (lookup-insert-insert n n k closing connecting s.sockets) ∙ h in
              elim (Bool-cases (nat_beq n k)) [
                | inl x ↦ let state : r ≡ closing = ground arith in absurd (subst IsLive state v)
                | inr x ↦
                    let held : lookup k s.sockets ≡ some r = ground arith in i.sockets k r held v
              ]);
      })

module _ (id : ℕ) (s : State) (free : lookup id s.sessions ≡ none) where
  -- A session that is there stays as it is when another one is added.
  still-there :
      (j : ℕ) (new e : ExecSession)
      → lookup j s.sessions ≡ some e
      → lookup j (insert id new s.sessions) ≡ some e
  still-there j new e l =
      let at_j = lookup-insert id j new s.sessions in
      elim (Bool-cases (nat_beq id j)) [
        | inr n ↦ at_j ∙ rw n l
        | inl n ↦ let owner : id ≡ j = (nat_beq_iff id j).0 n in absurd (ground arith)
      ]

  pub start_connected-Inv : Inv s → 0 < s.pending_sessions → Inv (start_connected id s)
  unfolding start_connected
  start_connected-Inv i p =
      let n = s.next in
      let new : ExecSession = record {
        io_socket = n;
        control_socket = n + 1;
        idle_timer = n + 2;
        lifetime_timer = n + 3;
      } in
      let there : lookup id (insert id new s.sessions) ≡ some new =
        lookup-insert id id new s.sessions ∙ rw (same-key id) refl in
      let b = i.bounded in
      let grown = length-insert id new s.sessions in
      record {
        bounded = omega arith;
        timers = λ t j h.
            (let read = sym (lookup-insert-insert (n + 3) (n + 2) t id id s.timers) ∙ h in
              elim (Bool-cases (nat_beq (n + 3) t)) [
                | inl x ↦
                    let owner : id ≡ j = ground arith in
                    (
                      new,
                      subst (λ z. lookup z (insert id new s.sessions) ≡ some new) owner there,
                      inr (sym ((nat_beq_iff (n + 3) t).0 x)),
                    )
                | inr x ↦ elim (Bool-cases (nat_beq (n + 2) t)) [
                  | inl y ↦
                      let owner : id ≡ j = ground arith in
                      (
                        new,
                        subst (λ z. lookup z (insert id new s.sessions) ≡ some new) owner there,
                        inl (sym ((nat_beq_iff (n + 2) t).0 y)),
                      )
                  | inr y ↦
                      let held : lookup t s.timers ≡ some j = ground arith in
                      let (e', l, o) = i.timers t j held in (e', still-there j new e' l, o)
                ]
              ]);
        sockets = λ k r h v.
            (let read =
                sym (lookup-insert-insert (n + 1) n k connecting connecting s.sockets) ∙ h in
              elim (Bool-cases (nat_beq (n + 1) k)) [
                | inl x ↦ (id, new, there, inr (sym ((nat_beq_iff (n + 1) k).0 x)))
                | inr x ↦ elim (Bool-cases (nat_beq n k)) [
                  | inl y ↦ (id, new, there, inl (sym ((nat_beq_iff n k).0 y)))
                  | inr y ↦
                      let held : lookup k s.sockets ≡ some r = ground arith in
                      let (j, e', l, o) = i.sockets k r held v in (j, e', still-there j new e' l, o)
                ]
              ]);
      }
