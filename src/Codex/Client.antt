-- ===== src/Codex/Client.antt =====
-- unraid-codex/web-src/src/protocol.ts: the hook useCodexAppServer as a state, with rpc, notify and handleMessage. A promise that waits for
-- a reply is the call that waits; what stands behind its `await` runs when the reply comes.
use incus_unraid.Prelude.{
  decimal, ℕ, ◌+◌, ◌/◌, Bool, true, false, ◌||◌, Option, none, some, List, [], ◌∷◌, ◌++◌,
  if◌then◌else◌, Text, codes, eq_text,
}
use incus_unraid.Json.{
  pos, Json, null, number, string, array, cons, nil, Fields, empty, field, find, get, get?, text_of,
}
use incus_unraid.Codex.Values.{
  present, string_or_empty, fields_of, list_of, list_or, truthy, spread,
}
use incus_unraid.Codex.State.{RequestId, ServerRequest, working, error, initial_state}
use incus_unraid.Codex.Timeline.{flat_map, build, string_of_id, id_of, text_from_error}
use incus_unraid.Codex.Notifications.{
  Env, View, Method, oauth_completed, skills_changed, method_of, add_notice, param,
}
use incus_unraid.Codex.Dispatch.{handle_notification}

-- What waits for the reply to a call: a function of the hook, or the caller of one.
pub data Call : Type 0 where
  list_skills list_mcp_servers start_turn start_login : Call
  login_mcp_server : Text → Call
  update_settings : Fields → Call
  call_tool : Text → Call
  caller : Call

pub data Frame : Type 0 where
  request : ℕ → Text → Fields → Frame
  notification : Text → Fields → Frame
  result : RequestId → Fields → Frame
  refusal : RequestId → Text → Frame

pub data Reply : Type 0 where
  fulfilled : Option Json → Reply
  rejected : Text → Reply

pub data Socket : Type 0 where
  opening open_ closed : Socket

abbrev pub is_open : Socket → Bool
is_open open_ = true
is_open _ = false

-- `pending` is pendingRef, `settled` what has become of the calls that were sent, `local` the keys of localRequestRef, `answered`
-- what its promises got, `opened` the addresses that window.open was given, `sent` what went over the socket; the last
-- comes first.
pub record Client : Type 0 where
  pub view : View
  pub socket : Socket
  pub disposed : Bool
  pub next_id : ℕ
  pub pending : List (ℕ × Call)
  pub settled : List (ℕ × Reply)
  pub local : List Text
  pub answered : List (Text × Reply)
  pub opened : List Text
  pub sent : List Frame

abbrev pub initial : Option Text → Client
initial stored = record {
  view = record { state = initial_state stored; thread = stored; active_turn = none };
  socket = closed;
  disposed = false;
  next_id = 1;
  pending = [];
  settled = [];
  local = [];
  answered = [];
  opened = [];
  sent = [];
}

abbrev pub show : (View → View) → Client → Client
show f c = record c { view = f c.view }

abbrev skills_of : Option Json → List Json
skills_of reply =
    flat_map (λ entry. list_of (get (codes "skills") entry)) (list_of (get? (codes "data") reply))

abbrev pub working_on : Option Text → View → View
working_on turn v = record v {
  active_turn = turn;
  state = record v.state {
    status = working;
    status_text = codes "Codex is working";
    active_turn_id = turn;
  };
}

-- Whether a value is `undefined` or `null`
abbrev is_missing : Option Json → Bool
is_missing value = elim (present value) [ none ↦ true | some v ↦ false ]

-- What stands behind the `await` of a call, when it is fulfilled
unfoldable pub fulfil : Call → Option Json → Client → Client
fulfil list_skills reply c =
    show (λ v. record v { state = record v.state { skills = skills_of reply } }) c
fulfil list_mcp_servers reply c =
    show
      (λ v. record v {
        state = record v.state {
          mcp_servers = list_or (get? (codes "data") reply) v.state.mcp_servers;
        };
      })
      c
fulfil start_turn reply c =
    show (working_on (text_of (get? (codes "id") (get? (codes "turn") reply)))) c
fulfil start_login reply c =
    let url = string_or_empty (get? (codes "verificationUrl") reply) in
    record (show
      (λ v. record v {
        state = record v.state {
          device_login = some (record {
            verification_url = url;
            user_code = string_or_empty (get? (codes "userCode") reply);
          });
        };
      })
      c) { opened = url ∷ c.opened }
fulfil (login_mcp_server name) reply c = record c {
  opened = string_or_empty (get? (codes "authorizationUrl") reply) ∷ c.opened;
}
fulfil (update_settings updates) reply c =
    show
      (λ v. record v {
        state = record v.state {
          settings =
              some (spread (elim v.state.settings [ none ↦ empty | some old ↦ old ]) updates);
        };
      })
      c
fulfil (call_tool id) reply c = record c { answered = (id, fulfilled reply) ∷ c.answered }
fulfil caller reply c = c

-- ... and when it is rejected
unfoldable pub reject : Env → Call → Text → Client → Client
reject env start_turn message c =
    show (add_notice env error (codes "Message failed") (some message)) c
reject env start_login message c =
    show (add_notice env error (codes "Could not start sign-in") (some message)) c
reject env (login_mcp_server name) message c =
    show (add_notice env error (codes "Could not sign in to " ++ name) (some message)) c
reject env (update_settings updates) message c =
    show (add_notice env error (codes "Could not update session") (some message)) c
reject env (call_tool id) message c = record c { answered = (id, rejected message) ∷ c.answered }
reject env _ message c = c

-- A reply in which what stands behind the `await` reads a property of `undefined` or `null`, which throws
unfoldable pub is_unreadable : Call → Option Json → Bool
is_unreadable start_turn reply = is_missing (get? (codes "turn") reply)
is_unreadable list_skills reply = is_missing reply
is_unreadable list_mcp_servers reply = is_missing reply
is_unreadable start_login reply = is_missing reply
is_unreadable (login_mcp_server name) reply = is_missing reply
is_unreadable _ reply = false

unfoldable pub resume : Env → Call → Reply → Client → Client
unfolding fulfil reject is_unreadable
resume env call (fulfilled reply) c =
    if is_unreadable call reply then reject env call env.type_error c else fulfil call reply c
resume env call (rejected message) c = reject env call message c

-- rpc
unfoldable pub rpc : Env → Text → Fields → Call → Client → Client
rpc env method params call c =
    if is_open c.socket
    then record c {
      next_id = c.next_id + 1;
      sent = request c.next_id method params ∷ c.sent;
      pending = c.pending ++ (c.next_id, call) ∷ [];
    }
    else resume env call (rejected (codes "Codex app-server is disconnected.")) c

unfoldable pub notify : Text → Fields → Client → Client
notify method params c =
    if is_open c.socket then record c { sent = notification method params ∷ c.sent } else c

-- socketRef.current?.send: a closed socket drops the frame (one that is opening throws, see Actions)
unfoldable pub post : Frame → Client → Client
post frame c = if is_open c.socket then record c { sent = frame ∷ c.sent } else c

-- pendingRef.current.get and delete
unfoldable pub take_pending : Text → List (ℕ × Call) → Option (ℕ × Call × List (ℕ × Call))
take_pending key [] = none
take_pending key ((id, call) ∷ rest) =
    let later = take_pending key rest in
    if eq_text (decimal id) key
    then some (id, call, rest)
    else elim later [ none ↦ none | some (i, k, others) ↦ some (i, k, (id, call) ∷ others) ]

-- A response
unfoldable pub settle : Env → RequestId → Reply → Client → Client
unfolding take_pending resume
settle env id reply c = elim (take_pending (string_of_id id) c.pending) [
  | none ↦ c
  | some (i, call, rest) ↦
      resume env call reply (record c { pending = rest; settled = (i, reply) ∷ c.settled })
]

-- A request of the server
unfoldable pub receive_request : Env → ServerRequest → Client → Client
unfolding post
receive_request env req c =
    if eq_text req.method (codes "currentTime/read")
    then post (result req.id (field (codes "currentTimeAt") (number (pos (env.now / 1000))) empty))
        c
    else if eq_text req.method (codes "account/chatgptAuthTokens/refresh")
        || eq_text req.method (codes "attestation/generate")
    then post (refusal req.id (req.method ++ codes " is not available in the browser client.")) c
    else show (λ v. record v { state = record v.state { requests = v.state.requests ++ req ∷ [] } })
        c

-- The calls of `rpc` in handleNotification
unfoldable pub follow_up : Env → Method → Fields → Client → Client
unfolding rpc
follow_up env oauth_completed params c =
    if truthy (param (codes "success") params)
    then rpc env (codes "mcpServerStatus/list")
        (build (
          (codes "detail", some (string (codes "full")))
          ∷ (codes "threadId", elim c.view.thread [ none ↦ some null | some t ↦ some (string t) ])
          ∷ (codes "limit", some (number (pos 100)))
          ∷ []))
        list_mcp_servers c
    else c
follow_up env skills_changed params c =
    rpc env (codes "skills/list")
      (field (codes "cwds") (array (cons (string (codes "/workspace")) nil)) empty) list_skills c
follow_up env _ params c = c

-- handleMessage, of the JSON object that the socket brought; one without an id and a method throws
unfoldable pub handle_message : Env → Fields → Client → Client
unfolding settle receive_request follow_up
handle_message env message c =
    let method = string_or_empty (find (codes "method") message) in
    let params = fields_of (find (codes "params") message) in
    let failure = find (codes "error") message in
    let reply =
      if truthy failure
      then rejected (text_from_error failure)
      else fulfilled (find (codes "result") message) in
    elim (find (codes "id") message) [
      | none ↦ elim (text_of (find (codes "method") message)) [
        | none ↦ c
        | some name ↦
            follow_up env (method_of name) params (show (handle_notification env name params) c)
      ]
      | some value ↦ elim (id_of (some value)) [
        | none ↦ c
        | some id ↦
            if eq_text method []
            then settle env id reply c
            else receive_request env (record { id = id; method = method; params = params }) c
      ]
    ]
