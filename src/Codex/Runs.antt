-- ===== src/Codex/Runs.antt =====
-- unraid-codex/web-src/src/protocol.ts: the invariant through every event of the hook.
use incus_unraid.Prelude.{
  not, refl, inl, inr, Option, List, [], ◌∷◌, Text, eq_text, codes, starts_with, Bool-cases,
  Option-cases, arith,
}
use incus_unraid.Json.{Fields}
use incus_unraid.Codex.State.{ServerRequest}
use incus_unraid.Codex.Timeline.{string_of_id}
use incus_unraid.Codex.Notifications.{Env, drop_if}
use incus_unraid.Codex.Client.{start_turn, result, Client, post, initial}
use incus_unraid.Codex.Actions.{socket_error, send_inputs, login, login_mcp}
use incus_unraid.Codex.Requests.{
  is_accepted, is_web, open_link, answer_app, answer_request, queue_app_request, has_local,
  drop_request,
}
use incus_unraid.Codex.Session.{established, refreshed}
use incus_unraid.Codex.Steps.{
  Event, received, connects, opened, errs, disposes, closes, sends, inputs_ready, interrupts,
  answers, rejects, queues, logs_in, logs_in_mcp, updates, dismisses, called, inputs_fail, tells,
  thread_chosen, establishes, session_fails, refreshes, choose, establish, step, run,
}
use incus_unraid.Codex.Once.{Inv, Calm-Inv, rpc-Inv, post-Calm, reject-Calm, notice-Calm}
use incus_unraid.Codex.Handled.{same_calls, same_view, handle_message-Inv}
use incus_unraid.Codex.Acted.{
  if-Inv, alike-Inv, close-Inv, connect-Inv, send-Inv, interrupt-Inv, update_thread_settings-Inv,
  dismiss_notice-Inv, reject_request-Inv, unless_opening-Inv,
}

module _ (parse_url : Text → Option (Text × Text)) where
  open_link-Inv : (id url : Text) (c : Client) → Inv c → Inv (open_link parse_url id url c)
  unfolding open_link
  open_link-Inv id url c i = elim (Option-cases (parse_url url)) [
    | inl e ↦ rw (e, open_link) i
    | inr ((href, protocol), e) ↦
        rw (e, open_link)
          (if-Inv (is_web protocol) _ _ (alike-Inv c _ (same_calls c) (same_view c.view) i)
            (alike-Inv c _ (same_calls c) (same_view c.view) i))
  ]

  answer_app-Inv :
      (env : Env) (req : ServerRequest) (answer : Fields) (c : Client)
      → Inv c
      → Inv (answer_app parse_url env req answer c)
  unfolding answer_app
  answer_app-Inv env req answer c i = elim (Bool-cases (not (is_accepted answer))) [
    | inl e ↦ rw e (alike-Inv c _ (same_calls c) (same_view c.view) i)
    | inr e ↦ elim (Bool-cases (eq_text req.method (codes "mcpApp/tool/requestApproval"))) [
      | inl f ↦ rw e (rw f (rpc-Inv env _ _ _ c i))
      | inr f ↦ elim (Bool-cases (eq_text req.method (codes "mcpApp/openLink/requestApproval"))) [
        | inl g ↦ rw e (rw f (rw g (open_link-Inv _ _ c i)))
        | inr g ↦ rw e (rw f (rw g i))
      ]
    ]
  ]

  answer_request-Inv :
      (env : Env) (req : ServerRequest) (answer : Fields) (c : Client)
      → Inv c
      → Inv (answer_request parse_url env req answer c)
  unfolding answer_request
  answer_request-Inv env req answer c i =
      let dropped : Client = record c {
        local = drop_if (λ t. eq_text t (string_of_id req.id)) c.local;
        view = drop_request req.id c.view;
      } in
      let calm : Inv dropped = alike-Inv c dropped (same_calls c) (same_view c.view) i in
      let sent : Inv (post (result req.id answer) c) = Calm-Inv c _ (post-Calm _ c) i in
      elim (Bool-cases (starts_with req.method (codes "mcpApp/"))) [
        | inl e ↦ elim (Bool-cases (has_local (string_of_id req.id) c.local)) [
          | inl f ↦ rw e (rw f (answer_app-Inv env req answer dropped calm))
          | inr f ↦ rw e (rw f calm)
        ]
        | inr e ↦ rw e (
            unless_opening-Inv c.socket c _ i (
              alike-Inv (post (result req.id answer) c) _
                (same_calls (post (result req.id answer) c))
                (same_view (post (result req.id answer) c).view) sent))
      ]

  step-Inv : (e : Event) (c : Client) → Inv c → Inv (step parse_url e c)
  unfolding choose establish established refreshed step login login_mcp send_inputs socket_error
      queue_app_request
  step-Inv (received env message) c i = handle_message-Inv env message c i
  step-Inv connects c i = connect-Inv c i
  step-Inv opened c i = alike-Inv c _ (same_calls c) (same_view c.view) i
  step-Inv errs c i = alike-Inv c _ (same_calls c) (same_view c.view) i
  step-Inv disposes c i = alike-Inv c _ (same_calls c) (same_view c.view) i
  step-Inv (closes env) c i = close-Inv env c i
  step-Inv (sends env text) c i = send-Inv env text c i
  step-Inv (inputs_ready env thread text images) c i = rpc-Inv env _ _ _ c i
  step-Inv (interrupts env) c i = interrupt-Inv env c i
  step-Inv (answers env req answer) c i = answer_request-Inv env req answer c i
  step-Inv (rejects req message) c i = reject_request-Inv req message c i
  step-Inv (queues env method params) c i = alike-Inv c _ (same_calls c) (same_view c.view) i
  step-Inv (logs_in env) c i = rpc-Inv env _ _ _ c i
  step-Inv (logs_in_mcp env name) c i = rpc-Inv env _ _ _ c i
  step-Inv (updates env changes) c i = update_thread_settings-Inv env changes c i
  step-Inv (dismisses id) c i = dismiss_notice-Inv id c i
  step-Inv (called env method params) c i = rpc-Inv env _ _ _ c i
  step-Inv (inputs_fail env message) c i = Calm-Inv c _ (reject-Calm env start_turn message c) i
  step-Inv (tells env tone title description) c i =
      Calm-Inv c _ (notice-Calm env tone title description c) i
  step-Inv (thread_chosen id) c i =
      if-Inv c.disposed c _ i (alike-Inv c _ (same_calls c) (same_view c.view) i)
  step-Inv (establishes replies id thread) c i =
      if-Inv c.disposed c _ i (alike-Inv c _ (same_calls c) (same_view c.view) i)
  step-Inv (session_fails message) c i = alike-Inv c _ (same_calls c) (same_view c.view) i
  step-Inv (refreshes config mcp_servers plugins apps) c i =
      alike-Inv c _ (same_calls c) (same_view c.view) i

  run-Inv_from : (es : List Event) (c : Client) → Inv c → Inv (run parse_url es c)
  unfolding run
  run-Inv_from [] c i = i
  run-Inv_from (e ∷ es) c i = run-Inv_from es (step parse_url e c) (step-Inv e c i)

  initial-Inv : (stored : Option Text) → Inv (initial stored)
  initial-Inv stored = record {
    kept = record { turn = refl; notices = omega arith; events = omega arith };
    first = omega arith;
    once = λ id. ground arith;
  }

  -- Whatever happens to the hook, in any order: of the ids that calls were sent with, each is either waiting once or has been
  -- settled once, by one response or by one loss of the connection, and no other id is; the turn by which `send` and
  -- `interrupt` decide is the one that the state shows; and there are at most six notices and fifty events.
  pub run-Inv : (stored : Option Text) (es : List Event) → Inv (run parse_url es (initial stored))
  run-Inv stored es = run-Inv_from es (initial stored) (initial-Inv stored)
