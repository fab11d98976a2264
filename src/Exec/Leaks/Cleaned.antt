-- ===== src/Exec/Leaks/Cleaned.antt =====
-- A session that is removed, with its timers and sockets.
use mathlib.Core.Path.{subst}
use incus_unraid.Prelude.{
  ℕ, ◌≡◌, ◌≢◌, refl, sym, ap, ◌∙◌, inl, inr, Option, none, some, Assoc, lookup, insert, delete,
  nat_beq, nat_beq_iff, nat_eq, lookup-insert, lookup-delete, length-delete, Bool-cases,
  Option-cases, arith,
}
use incus_unraid.Exec.Sessions.{
  ReadyState, connecting, open_, closing, closed, ExecSession, State, close_socket, drop_session,
  cleanup_session,
}
use incus_unraid.Exec.Leaks.Owned.{Inv, IsLive, OwnsSockets, OwnsTimers}

not-live : (r r' : ReadyState) → ¬ IsLive r → IsLive r' → some r ≢ some r'
not-live r r' n v e = let same : r ≡ r' = ground arith in n (subst IsLive (sym same) v)

insert-live :
    (k j : ℕ) (r : ReadyState) (m : Assoc ℕ ReadyState)
    → lookup j (insert k closing m) ≡ some r
    → IsLive r
    → (k ≢ j) × (lookup j m ≡ some r)
insert-live k j r m h v =
    let read = sym (lookup-insert k j closing m) ∙ h in
    elim (Bool-cases (nat_beq k j)) [
      | inl e ↦ absurd (not-live closing r (λ x. x) v (rw e at read))
      | inr e ↦ ((λ x. absurd (ground arith)), rw e at read)
    ]

unchanged-live :
    (k j : ℕ) (r r' : ReadyState) (m : Assoc ℕ ReadyState)
    → lookup k m ≡ some r'
    → ¬ IsLive r'
    → lookup j m ≡ some r
    → IsLive r
    → (k ≢ j) × (lookup j m ≡ some r)
unchanged-live k j r r' m e n h v =
    ((λ same. not-live r' r n v (sym e ∙ (ap (λ x. lookup x m) same ∙ h))), h)

-- A socket that is live after one was closed is another one, and was live before.
close_socket-live :
    (k j : ℕ) (r : ReadyState) (m : Assoc ℕ ReadyState)
    → lookup j (close_socket k m) ≡ some r
    → IsLive r
    → (k ≢ j) × (lookup j m ≡ some r)
unfolding close_socket
close_socket-live k j r m h v = of (lookup k m) refl
  where
    of : (x : Option ReadyState) → lookup k m ≡ x → (k ≢ j) × (lookup j m ≡ some r)
    of none e = let read = rw (e, close_socket) at h in ((λ same. absurd (cc)), read)
    of (some connecting) e = insert-live k j r m (rw (e, close_socket) at h) v
    of (some open_) e = insert-live k j r m (rw (e, close_socket) at h) v
    of (some closing) e = unchanged-live k j r closing m e (λ x. x) (rw (e, close_socket) at h) v
    of (some closed) e = unchanged-live k j r closed m e (λ x. x) (rw (e, close_socket) at h) v

module _ (id : ℕ) (se : ExecSession) (s : State) (e : lookup id s.sessions ≡ some se) where
  drop_session-OwnsTimers : OwnsTimers s → OwnsTimers (drop_session id se s)
  unfolding drop_session
  drop_session-OwnsTimers own t j h =
      let first = sym (lookup-delete se.lifetime_timer t (delete se.idle_timer s.timers)) ∙ h in
      let second = lookup-delete se.idle_timer t s.timers in
      let at_j = lookup-delete id j s.sessions in
      let held : lookup t s.timers ≡ some j = ground arith in
      let (e', l, o) = own t j held in
      elim (Bool-cases (nat_beq id j)) [
        | inr n ↦ (e', at_j ∙ rw n l, o)
        | inl n ↦
            let owner : id ≡ j = (nat_beq_iff id j).0 n in
            let session : se ≡ e' = ground arith in
            absurd (elim (rw (sym session) at o) [ inl x ↦ ground arith | inr x ↦ ground arith ])
      ]

  drop_session-OwnsSockets : OwnsSockets s → OwnsSockets (drop_session id se s)
  unfolding drop_session
  drop_session-OwnsSockets own k r h v =
      let (not_control, h') =
        close_socket-live se.control_socket k r (close_socket se.io_socket s.sockets) h v in
      let (not_io, held) = close_socket-live se.io_socket k r s.sockets h' v in
      let (j, e', l, o) = own k r held v in
      let at_j = lookup-delete id j s.sessions in
      elim (Bool-cases (nat_beq id j)) [
        | inr n ↦ (j, e', at_j ∙ rw n l, o)
        | inl n ↦
            let owner : id ≡ j = (nat_beq_iff id j).0 n in
            let session : e' ≡ se = ground arith in
            absurd (elim (rw session at o) [ inl x ↦ not_io (sym x) | inr x ↦ not_control (sym x) ])
      ]

  drop_session-Inv : Inv s → Inv (drop_session id se s)
  unfolding drop_session
  drop_session-Inv i =
      let b = i.bounded in
      let fewer = length-delete id s.sessions in
      record {
        bounded = omega arith;
        timers = drop_session-OwnsTimers i.timers;
        sockets = drop_session-OwnsSockets i.sockets;
      }

pub cleanup_session-Inv : (id : ℕ) (s : State) → Inv s → Inv (cleanup_session id s)
unfolding cleanup_session
cleanup_session-Inv id s i = elim (Option-cases (lookup id s.sessions)) [
  | inl e ↦ rw (e, cleanup_session) i
  | inr (se, e) ↦ rw (e, cleanup_session) (drop_session-Inv id se s e i)
]
