-- ===== src/Exec/Leaks/Steps.antt =====
-- unraid-api-plugin-incus/src/incus-exec.service.ts: the events of the service, in any order.
use mathlib.Core.Path.{subst}
use incus_unraid.Prelude.{
  ℕ, ◌≡◌, sym, ◌∙◌, inl, inr, some, List, [], ◌∷◌, map, lookup, insert, delete, length, ltb,
  nat_beq, nat_beq_iff, nat_eq, lookup-insert, lookup-delete, Bool-cases, Option-cases, arith,
}
use incus_unraid.Exec.Sessions.{
  ReadyState, connecting, open_, closing, State, bad_dimensions, is_open, max_input_bytes,
  start_failed, send_input, resize, stop, stop_all, on_module_destroy, fire, Advances, opens,
  aborts, closes, ends, Step, started, failed, half_connected, connected, message, disconnected,
  typed, resized, stopped, fired, advanced, destroyed, Reachable, start_, then_,
}
use incus_unraid.Exec.Leaks.Owned.{Inv, IsLive}
use incus_unraid.Exec.Leaks.Touched.{touch_session-Inv}
use incus_unraid.Exec.Leaks.Cleaned.{cleanup_session-Inv}
use incus_unraid.Exec.Leaks.Started.{start-Inv, start_half-Inv, start_connected-Inv}

send_input-Inv : (id : ℕ) (bytes : List ℕ) (s : State) → Inv s → Inv (send_input id bytes s).1
unfolding send_input
send_input-Inv id bytes s i = elim (Bool-cases (ltb max_input_bytes (length bytes))) [
  | inl e ↦ rw e i
  | inr e ↦ elim (Option-cases (lookup id s.sessions)) [
    | inl f ↦ rw e (rw (f, send_input) i)
    | inr (se, f) ↦ elim (Bool-cases (is_open se.io_socket s)) [
      | inr g ↦ rw e (rw (f, send_input) (rw g i))
      | inl g ↦
          let touched = touch_session-Inv id s i in
          rw e (
            rw (f, send_input)
              (rw g (record {
                bounded = touched.bounded;
                timers = touched.timers;
                sockets = touched.sockets;
              })))
    ]
  ]
]

resize-Inv : (id cols rows : ℕ) (s : State) → Inv s → Inv (resize id cols rows s).1
unfolding resize
resize-Inv id c r s i = elim (Bool-cases (bad_dimensions c r)) [
  | inl e ↦ rw e i
  | inr e ↦ elim (Option-cases (lookup id s.sessions)) [
    | inl f ↦ rw e (rw (f, resize) i)
    | inr (se, f) ↦ elim (Bool-cases (is_open se.control_socket s)) [
      | inr g ↦ rw e (rw (f, resize) (rw g i))
      | inl g ↦
          let touched = touch_session-Inv id s i in
          rw e (
            rw (f, resize)
              (rw g (record {
                bounded = touched.bounded;
                timers = touched.timers;
                sockets = touched.sockets;
              })))
    ]
  ]
]

stop-Inv : (id : ℕ) (s : State) → Inv s → Inv (stop id s).1
unfolding stop
stop-Inv id s i = elim (Option-cases (lookup id s.sessions)) [
  | inl e ↦ rw (e, stop) i
  | inr (se, e) ↦ rw (e, stop) (cleanup_session-Inv id s i)
]

stop_all-Inv : (ids : List ℕ) (s : State) → Inv s → Inv (stop_all ids s)
unfolding stop_all
stop_all-Inv [] s i = i
stop_all-Inv (id ∷ ids) s i = stop_all-Inv ids (stop id s).1 (stop-Inv id s i)

fire-Inv : (timer id : ℕ) (s : State) → Inv s → Inv (fire timer id s)
unfolding fire
fire-Inv timer id s i =
    cleanup_session-Inv id (record s { timers = delete timer s.timers })
      (record {
        bounded = i.bounded;
        timers = λ t j h.
            (let read = sym (lookup-delete timer t s.timers) ∙ h in i.timers t j (ground arith));
        sockets = i.sockets;
      })

advanced-IsLive : (r r' : ReadyState) → Advances r r' → IsLive r' → IsLive r
advanced-IsLive connecting open_ opens v = tt
advanced-IsLive connecting closing aborts v = tt
advanced-IsLive open_ closing closes v = tt
advanced-IsLive _ _ (ends r) v = absurd v

advanced-Inv :
    (k : ℕ) (r r' : ReadyState) (s : State)
    → lookup k s.sockets ≡ some r
    → Advances r r'
    → Inv s
    → Inv (record s { sockets = insert k r' s.sockets })
advanced-Inv k r r' s l a i = record {
  bounded = i.bounded;
  timers = i.timers;
  sockets = λ j x h v.
      (let read = sym (lookup-insert k j r' s.sockets) ∙ h in
        elim (Bool-cases (nat_beq k j)) [
          | inr n ↦ i.sockets j x (rw n at read) v
          | inl n ↦
              let same : k ≡ j = (nat_beq_iff k j).0 n in
              let state : x ≡ r' = ground arith in
              i.sockets j r (rw same at l) (advanced-IsLive r r' a (subst IsLive state v))
        ]);
}

-- Every event keeps the invariant.
pub Step-Inv : (s s' : State) → Step s s' → Inv s → Inv s'
unfolding start_failed on_module_destroy
Step-Inv _ _ (started cols rows s s' h) i = start-Inv cols rows s s' i h
Step-Inv _ _ (failed s p) i =
    let b = i.bounded in record { bounded = omega arith; timers = i.timers; sockets = i.sockets }
Step-Inv _ _ (half_connected s p) i = start_half-Inv s i p
Step-Inv _ _ (connected id s p free) i = start_connected-Inv id s free i p
Step-Inv _ _ (message id s) i = touch_session-Inv id s i
Step-Inv _ _ (disconnected id s) i = cleanup_session-Inv id s i
Step-Inv _ _ (typed id bytes s) i = send_input-Inv id bytes s i
Step-Inv _ _ (resized id cols rows s) i = resize-Inv id cols rows s i
Step-Inv _ _ (stopped id s) i = stop-Inv id s i
Step-Inv _ _ (fired timer id s h) i = fire-Inv timer id s i
Step-Inv _ _ (advanced k r r' s h a) i = advanced-Inv k r r' s h a i
Step-Inv _ _ (destroyed s) i = stop_all-Inv (map (λ e. e.0) s.sessions) s i

-- Whatever sequence of events leads to a state of the service: at most eight terminal sessions are there or being
-- started, every running timer is the idle timer or the lifetime timer of a session that is there, and
-- every socket that is neither closed nor closing is one of the two of a session that is there.
pub Reachable-Inv : (s : State) → Reachable s → Inv s
unfolding lookup
Reachable-Inv _ start_ = record {
  bounded = omega arith;
  timers = λ t j h. absurd (cc);
  sockets = λ k r h v. absurd (cc);
}
Reachable-Inv _ (then_ s' s r h) = Step-Inv s' s h (Reachable-Inv s' r)
