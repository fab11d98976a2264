-- ===== src/Exec/Sessions.antt =====
-- unraid-api-plugin-incus/src/incus-exec.service.ts: terminal sessions, their two sockets and two
-- timers. Sockets and timers are objects outside the service; the state numbers them and keeps
-- what they are, so that one that nothing will close can be told.
use incus_unraid.Prelude.{
  nat_eq, ℕ, ◌+◌, ◌-◌, ◌*◌, ◌<◌, Bool, true, false, ◌||◌, ◌≡◌, none, some, List, [], ◌∷◌, map,
  Assoc, lookup, insert, delete, length, leb, ltb, if◌then◌else◌,
}

abbrev pub max_sessions : ℕ
max_sessions = 8

abbrev pub max_input_bytes : ℕ
max_input_bytes = 64 * 1024

pub data ReadyState : Type 0 where
  connecting open_ closing closed : ReadyState

pub record ExecSession : Type 0 where
  pub io_socket : ℕ
  pub control_socket : ℕ
  pub idle_timer : ℕ
  pub lifetime_timer : ℕ

pub data Frame : Type 0 where
  input : List ℕ → Frame
  window_resize : ℕ → ℕ → Frame

-- `timers` holds the running timers with the session each one cleans up; `sent` the frames sent,
-- the last one first; `next` is a number no socket and no timer has.
pub record State : Type 0 where
  pub sessions : Assoc ℕ ExecSession
  pub pending_sessions : ℕ
  pub sockets : Assoc ℕ ReadyState
  pub timers : Assoc ℕ ℕ
  pub sent : List (ℕ × Frame)
  pub next : ℕ

pub data Error : Type 0 where
  out_of_range too_many_sessions input_too_large unknown_session : Error

pub data Result {ℓ} (A : Type ℓ) : Type ℓ where
  ok : A → Result A
  throws : Error → Result A

abbrev pub initial : State
initial = record {
  sessions = [];
  pending_sessions = 0;
  sockets = [];
  timers = [];
  sent = [];
  next = 0;
}

abbrev pub bad_dimensions : ℕ → ℕ → Bool
bad_dimensions cols rows = ltb cols 20 || ltb 500 cols || ltb rows 5 || ltb 300 rows

-- closeSocket, on the sockets: `terminate` and `close` both leave the socket closing
unfoldable pub close_socket : ℕ → Assoc ℕ ReadyState → Assoc ℕ ReadyState
close_socket k sockets = elim (lookup k sockets) [
  | some connecting ↦ insert k closing sockets
  | some open_ ↦ insert k closing sockets
  | _ ↦ sockets
]

-- touchSession: the new idle timer takes the next number
unfoldable pub touch_session : ℕ → State → State
touch_session id st = elim (lookup id st.sessions) [
  | none ↦ st
  | some session ↦ record st {
    timers = insert st.next id (delete session.idle_timer st.timers);
    sessions = insert id (record session { idle_timer = st.next }) st.sessions;
    next = st.next + 1;
  }
]

unfoldable pub drop_session : ℕ → ExecSession → State → State
drop_session id session st = record st {
  sessions = delete id st.sessions;
  timers = delete session.lifetime_timer (delete session.idle_timer st.timers);
  sockets = close_socket session.control_socket (close_socket session.io_socket st.sockets);
}

-- cleanupSession
unfoldable pub cleanup_session : ℕ → State → State
cleanup_session id st = elim (lookup id st.sessions) [
  | none ↦ st
  | some session ↦ drop_session id session st
]

-- start, up to the `await` of the daemon's answer
unfoldable pub start : ℕ → ℕ → State → Result State
start cols rows st =
    if bad_dimensions cols rows
    then throws out_of_range
    else if leb max_sessions (length st.sessions + st.pending_sessions)
    then throws too_many_sessions
    else ok (record st { pending_sessions = st.pending_sessions + 1 })

-- start, where the request failed or the answer has no secrets
unfoldable pub start_failed : State → State
start_failed st = record st { pending_sessions = st.pending_sessions - 1 }

-- start, where the second socket cannot be made: the `catch` closes the first one
unfoldable pub start_half : State → State
unfolding close_socket
start_half st = record st {
  sockets = close_socket st.next (insert st.next connecting st.sockets);
  pending_sessions = st.pending_sessions - 1;
  next = st.next + 1;
}

-- start, where the answer has both secrets: two sockets, two timers, the session
unfoldable pub start_connected : ℕ → State → State
start_connected id st =
    let n = st.next in
    let session : ExecSession = record {
      io_socket = n;
      control_socket = n + 1;
      idle_timer = n + 2;
      lifetime_timer = n + 3;
    } in
    record st {
      sockets = insert (n + 1) connecting (insert n connecting st.sockets);
      sessions = insert id session st.sessions;
      timers = insert (n + 3) id (insert (n + 2) id st.timers);
      pending_sessions = st.pending_sessions - 1;
      next = n + 4;
    }

-- readyState === OPEN
unfoldable pub is_open : ℕ → State → Bool
is_open k st = elim (lookup k st.sockets) [ some open_ ↦ true | _ ↦ false ]

abbrev pub send : ℕ → Frame → State → State
send k frame st = record st { sent = (k, frame) ∷ st.sent }

-- sendInput, on the UTF-8 bytes of `data`
unfoldable pub send_input : ℕ → List ℕ → State → Result Bool × State
send_input id bytes st =
    if ltb max_input_bytes (length bytes)
    then (throws input_too_large, st)
    else elim (lookup id st.sessions) [
      | none ↦ (throws unknown_session, st)
      | some session ↦
          if is_open session.io_socket st
          then (ok true, send session.io_socket (input bytes) (touch_session id st))
          else (ok false, st)
    ]

unfoldable pub resize : ℕ → ℕ → ℕ → State → Result Bool × State
resize id cols rows st =
    if bad_dimensions cols rows then (throws out_of_range, st) else elim (lookup id st.sessions) [
      | none ↦ (throws unknown_session, st)
      | some session ↦
          if is_open session.control_socket st
          then (
            ok true,
            send session.control_socket (window_resize cols rows) (touch_session id st),
          )
          else (ok false, st)
    ]

unfoldable pub stop : ℕ → State → Bool × State
stop id st = elim (lookup id st.sessions) [
  | none ↦ (false, st)
  | some session ↦ (true, cleanup_session id st)
]

-- onModuleDestroy
unfoldable pub stop_all : List ℕ → State → State
stop_all [] st = st
stop_all (id ∷ ids) st = stop_all ids (stop id st).1

unfoldable pub on_module_destroy : State → State
on_module_destroy st = stop_all (map (λ e. e.0) st.sessions) st

-- A timer that runs out stops running and calls its function.
unfoldable pub fire : ℕ → ℕ → State → State
fire timer id st = cleanup_session id (record st { timers = delete timer st.timers })

-- What the network does to a socket that is there.
pub data Advances : ReadyState → ReadyState → Type 0 where
  opens : Advances connecting open_
  aborts : Advances connecting closing
  closes : Advances open_ closing
  ends : (r : ReadyState) → Advances r closed

-- One event of the service. A new session's identifier is one that no session has.
pub data Step : State → State → Type 0 where
  started : (cols rows : ℕ) (s s' : State) → start cols rows s ≡ ok s' → Step s s'
  failed : (s : State) → 0 < s.pending_sessions → Step s (start_failed s)
  half_connected : (s : State) → 0 < s.pending_sessions → Step s (start_half s)
  connected :
      (id : ℕ) (s : State)
      → 0 < s.pending_sessions
      → lookup id s.sessions ≡ none
      → Step s (start_connected id s)
  message : (id : ℕ) (s : State) → Step s (touch_session id s)
  disconnected : (id : ℕ) (s : State) → Step s (cleanup_session id s)
  typed : (id : ℕ) (bytes : List ℕ) (s : State) → Step s (send_input id bytes s).1
  resized : (id cols rows : ℕ) (s : State) → Step s (resize id cols rows s).1
  stopped : (id : ℕ) (s : State) → Step s (stop id s).1
  fired : (timer id : ℕ) (s : State) → lookup timer s.timers ≡ some id → Step s (fire timer id s)
  advanced :
      (k : ℕ) (r r' : ReadyState) (s : State)
      → lookup k s.sockets ≡ some r
      → Advances r r'
      → Step s (record s { sockets = insert k r' s.sockets })
  destroyed : (s : State) → Step s (on_module_destroy s)

pub data Reachable : State → Type 0 where
  start_ : Reachable initial
  then_ : (s s' : State) → Reachable s → Step s s' → Reachable s'
