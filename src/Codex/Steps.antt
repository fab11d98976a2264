-- ===== src/Codex/Steps.antt =====
-- unraid-codex/web-src/src/protocol.ts: the events of the hook in any order.
use incus_unraid.Prelude.{true, Option, some, if◌then◌else◌, List, [], ◌∷◌, Text}
use incus_unraid.Json.{Json, Fields}
use incus_unraid.Codex.State.{ServerRequest, Tone, failed}
use incus_unraid.Codex.Notifications.{Env, add_notice}
use incus_unraid.Codex.Client.{
  start_turn, caller, Client, open_, closed, show, reject, rpc, handle_message,
}
use incus_unraid.Codex.Actions.{
  connect, close, socket_error, send, send_inputs, interrupt, login, login_mcp,
  update_thread_settings, dismiss_notice,
}
use incus_unraid.Codex.Requests.{answer_request, reject_request, queue_app_request}
use incus_unraid.Codex.Session.{Replies, established, refreshed}

-- What happens to the hook. `called` is any other call of `rpc`, whose reply goes to its caller: also those of
-- establishSession, which ends in the events `thread_chosen` and `establishes` or in `session_fails`. `inputs_fail` is an
-- attachment of `send` that cannot be read, `tells` the notice at the end of saveMcpServer, removeMcpServer, installPlugin and
-- uninstallPlugin.
pub data Event : Type 0 where
  received : Env → Fields → Event
  connects opened errs disposes : Event
  closes : Env → Event
  sends : Env → Text → Event
  inputs_ready : Env → Text → Text → List Json → Event
  interrupts : Env → Event
  answers : Env → ServerRequest → Fields → Event
  rejects : ServerRequest → Text → Event
  queues : Env → Text → Fields → Event
  logs_in : Env → Event
  logs_in_mcp : Env → Text → Event
  updates : Env → Fields → Event
  dismisses : Text → Event
  called : Env → Text → Fields → Event
  inputs_fail : Env → Text → Event
  tells : Env → Tone → Text → Option Text → Event
  thread_chosen : Text → Event
  establishes : Replies → Text → Option Fields → Event
  session_fails : Text → Event
  refreshes : Json → Option Json → Option Json → Option Json → Event

-- establishSession behind its choice of the thread, and behind its replies; a hook that is disposed of goes no further
unfoldable pub choose : Text → Client → Client
choose id c = if c.disposed then c else record c { view = record c.view { thread = some id } }

unfoldable pub establish : Replies → Text → Option Fields → Client → Client
unfolding established
establish replies id thread c =
    if c.disposed
    then c
    else show (λ v. record v { state = established replies id thread v.state }) c

module _ (parse_url : Text → Option (Text × Text)) where
  unfoldable pub step : Event → Client → Client
  unfolding choose establish add_notice reject refreshed close connect socket_error send send_inputs
      interrupt answer_request reject_request queue_app_request login login_mcp
      update_thread_settings dismiss_notice rpc handle_message
  step (received env message) c = handle_message env message c
  step connects c = connect c
  step opened c = record c { socket = open_ }
  step errs c = socket_error c
  step disposes c = record c { disposed = true; socket = closed }
  step (closes env) c = close env c
  step (sends env text) c = send env text c
  step (inputs_ready env thread text images) c = send_inputs env thread text images c
  step (interrupts env) c = interrupt env c
  step (answers env req answer) c = answer_request parse_url env req answer c
  step (rejects req message) c = reject_request req message c
  step (queues env method params) c = queue_app_request env method params c
  step (logs_in env) c = login env c
  step (logs_in_mcp env name) c = login_mcp env name c
  step (updates env changes) c = update_thread_settings env changes c
  step (dismisses id) c = dismiss_notice id c
  step (called env method params) c = rpc env method params caller c
  step (inputs_fail env message) c = reject env start_turn message c
  step (tells env tone title description) c = show (add_notice env tone title description) c
  step (thread_chosen id) c = choose id c
  step (establishes replies id thread) c = establish replies id thread c
  step (session_fails message) c =
      show (λ v. record v { state = record v.state { status = failed; status_text = message } }) c
  step (refreshes config mcp_servers plugins apps) c =
      show (λ v. record v { state = refreshed config mcp_servers plugins apps v.state }) c

  unfoldable pub run : List Event → Client → Client
  unfolding step
  run [] c = c
  run (e ∷ es) c = run es (step e c)
