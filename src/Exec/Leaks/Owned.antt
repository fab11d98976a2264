-- ===== src/Exec/Leaks/Owned.antt =====
-- unraid-api-plugin-incus/src/incus-exec.service.ts: what is to hold of sessions, timers and sockets.
use incus_unraid.Prelude.{
  ℕ, ◌+◌, ◌≤◌, true, ◌≡◌, refl, ◌∙◌, ◌⊎◌, none, some, Assoc, lookup, insert, delete, length,
  nat_beq, nat_eq, if◌then◌else◌, lookup-insert, lookup-delete, arith,
}
use incus_unraid.Exec.Sessions.{ReadyState, connecting, open_, ExecSession, State, max_sessions}

-- A socket that is not closed and that nothing has asked to close.
abbrev pub IsLive : ReadyState → Type 0
IsLive connecting = Unit
IsLive open_ = Unit
IsLive _ = ⊥

-- Every running timer is one of the two of a session that is there, which is the one it cleans up.
abbrev pub OwnsTimers : State → Type 0
OwnsTimers s =
    (t id : ℕ)
    → lookup t s.timers ≡ some id
    → (e : ExecSession) × (lookup id s.sessions ≡ some e)
      × ((t ≡ e.idle_timer) ⊎ (t ≡ e.lifetime_timer))

-- Every live socket is one of the two of a session that is there.
abbrev pub OwnsSockets : State → Type 0
OwnsSockets s =
    (k : ℕ) (r : ReadyState)
    → lookup k s.sockets ≡ some r
    → IsLive r
    → (id : ℕ) × (e : ExecSession) × (lookup id s.sessions ≡ some e)
      × ((k ≡ e.io_socket) ⊎ (k ≡ e.control_socket))

abbrev pub IsBounded : State → Type 0
IsBounded s = length s.sessions + s.pending_sessions ≤ max_sessions

pub record Inv (s : State) : Type 0 where
  pub bounded : IsBounded s
  pub timers : OwnsTimers s
  pub sockets : OwnsSockets s

pub lookup-insert-insert :
    {V : Type 0} (a b t : ℕ) (v w : V) (m : Assoc ℕ V)
    → lookup t (insert a v (insert b w m))
      ≡ (if nat_beq a t then some v else if nat_beq b t then some w else lookup t m)
lookup-insert-insert a b t v w m =
    lookup-insert a t v (insert b w m) ∙ rw (lookup-insert b t w m) refl

pub same-key : (k : ℕ) → nat_beq k k ≡ true
same-key k = ground arith

pub lookup-insert-delete :
    (a b t : ℕ) (v : ℕ) (m : Assoc ℕ ℕ)
    → lookup t (insert a v (delete b m))
      ≡ (if nat_beq a t then some v else if nat_beq b t then none else lookup t m)
lookup-insert-delete a b t v m = lookup-insert a t v (delete b m) ∙ rw (lookup-delete b t m) refl
