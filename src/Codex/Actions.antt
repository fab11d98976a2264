-- ===== src/Codex/Actions.antt =====
-- unraid-codex/web-src/src/protocol.ts: the events of the socket, and what the page calls: send, interrupt, the logins,
-- updateThreadSettings and dismissNotice.
use incus_unraid.Prelude.{
  ℕ, Bool, true, false, ◌&&◌, not, Option, none, some, List, [], ◌∷◌, ◌++◌, if◌then◌else◌, Text,
  codes, eq_text, trim,
}
use incus_unraid.Json.{pos, Json, null, string, array, object, cons, nil, Fields, empty, field}
use incus_unraid.Codex.Values.{spread, items_of_list}
use incus_unraid.Codex.State.{connecting, disconnected, failed}
use incus_unraid.Codex.Timeline.{build}
use incus_unraid.Codex.Notifications.{Env, drop_if}
use incus_unraid.Codex.Client.{
  Call, start_turn, start_login, login_mcp_server, update_settings, caller, Reply, rejected, Client,
  opening, closed, show, reject, rpc,
}

-- The state while a connection is made
abbrev pub begin_connect : Client → Client
begin_connect c = record c {
  socket = opening;
  view = record c.view {
    state = record c.view.state {
      status = connecting;
      status_text = codes "Connecting to Codex";
      initialized = false;
    };
  };
}

unfoldable pub connect : Client → Client
connect c = if c.disposed then c else begin_connect c

unfoldable pub reject_all : Env → Text → List (ℕ × Call) → Client → Client
unfolding reject
reject_all env message [] c = c
reject_all env message ((id, call) ∷ rest) c =
    reject_all env message rest (reject env call message c)

abbrev pub lost : Text
lost = codes "Codex app-server disconnected."

abbrev pub settle_all : List (ℕ × Call) → List (ℕ × Reply) → List (ℕ × Reply)
settle_all [] log = log
settle_all ((id, call) ∷ rest) log = settle_all rest ((id, rejected lost) ∷ log)

-- What is left of the calls and the state when the connection is lost
abbrev pub lose : Client → Client
lose c = record c {
  socket = closed;
  pending = [];
  settled = settle_all c.pending c.settled;
  view = record c.view {
    active_turn = none;
    state = record c.view.state {
      status = disconnected;
      status_text = codes "Disconnected. Retrying.";
      initialized = false;
      active_turn_id = none;
    };
  };
}

-- The socket's `close` event: the rejected promises run behind the handler.
unfoldable pub close : Env → Client → Client
unfolding reject_all
close env c =
    if c.disposed then record c { socket = closed } else reject_all env lost c.pending (lose c)

-- The socket's `error` event
unfoldable pub socket_error : Client → Client
socket_error c =
    show
      (λ v. record v {
        state = record v.state { status = failed; status_text = codes "Could not reach Codex." };
      })
      c

abbrev pub thread_param : Client → Option Json
thread_param c = elim c.view.thread [ none ↦ some null | some t ↦ some (string t) ]

abbrev pub is_some {ℓ} : {A : Type ℓ} → Option A → Bool
is_some none = false
is_some (some a) = true

-- { type: "text", text, text_elements: [] }
abbrev text_part : Text → Json
text_part text = object (
    field (codes "type") (string (codes "text"))
      (field (codes "text") (string text) (field (codes "text_elements") (array nil) empty)))

-- Whether `send` goes on, by its first line
unfoldable pub may_send : Text → Client → Bool
may_send text c =
    is_some c.view.thread && not (eq_text (trim text) []) && not (is_some c.view.active_turn)

-- `send` up to its `await` for the attachments
unfoldable pub send : Env → Text → Client → Client
unfolding may_send
send env text c =
    let id = codes "local-" ++ env.uuid in
    if may_send text c
    then show
        (λ v. record v {
          state = record v.state {
            items =
                v.state.items
                ++ record {
                  id = id;
                  turn_id = codes "pending";
                  item = field (codes "id") (string id) (
                      field (codes "type") (string (codes "userMessage"))
                        (field (codes "content") (array (cons (text_part text) nil)) empty));
                  started_at_ms = some (pos env.now);
                  completed_at_ms = some (pos env.now);
                  progress = none;
                }
                  ∷ [];
          };
        })
        c
    else c

-- ... and behind it, with the thread that it read and the inputs of the images
unfoldable pub send_inputs : Env → Text → Text → List Json → Client → Client
send_inputs env thread text images c =
    rpc env (codes "turn/start")
      (field (codes "threadId") (string thread)
        (field (codes "input") (array (items_of_list (text_part text ∷ images))) empty))
      start_turn c

unfoldable pub interrupt : Env → Client → Client
interrupt env c = elim c.view.thread [
  | none ↦ c
  | some thread ↦ elim c.view.active_turn [
    | none ↦ c
    | some turn ↦
        rpc env (codes "turn/interrupt")
          (field (codes "threadId") (string thread) (field (codes "turnId") (string turn) empty))
          caller c
  ]
]

unfoldable pub login : Env → Client → Client
login env c =
    rpc env (codes "account/login/start")
      (field (codes "type") (string (codes "chatgptDeviceCode")) empty) start_login c

unfoldable pub login_mcp : Env → Text → Client → Client
login_mcp env name c =
    rpc env (codes "mcpServer/oauth/login")
      (build ((codes "name", some (string name)) ∷ (codes "threadId", thread_param c) ∷ []))
      (login_mcp_server name) c

unfoldable pub update_thread_settings : Env → Fields → Client → Client
update_thread_settings env updates c = elim c.view.thread [
  | none ↦ c
  | some thread ↦
      rpc env (codes "thread/settings/update")
        (spread (field (codes "threadId") (string thread) empty) updates) (update_settings updates)
        c
]

unfoldable pub dismiss_notice : Text → Client → Client
dismiss_notice id c =
    show
      (λ v. record v {
        state = record v.state { notices = drop_if (λ n. eq_text n.id id) v.state.notices };
      })
      c
