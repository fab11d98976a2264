-- ===== src/Codex/Requests.antt =====
-- unraid-codex/web-src/src/protocol.ts: answerRequest, rejectRequest and queueMcpAppRequest.
use incus_unraid.Prelude.{
  Bool, true, false, ◌||◌, not, Option, none, some, List, [], ◌∷◌, ◌++◌, if◌then◌else◌, Text, codes,
  eq_text, starts_with, nat_beq,
}
use incus_unraid.Json.{
  ℤ, pos, negsuc, Json, boolean, string, array, object, cons, nil, Fields, empty, field, find,
}
use incus_unraid.Codex.Values.{string_or_empty, fields_of}
use incus_unraid.Codex.State.{RequestId, numeric, textual, ServerRequest}
use incus_unraid.Codex.Timeline.{build, string_of_id, add_approval_resolution}
use incus_unraid.Codex.Notifications.{Env, View, param, drop_if}
use incus_unraid.Codex.Client.{
  call_tool, result, refusal, Reply, fulfilled, Client, Socket, opening, open_, closed, show, rpc,
  post,
}
use incus_unraid.Codex.Actions.{thread_param}

abbrev same_int : ℤ → ℤ → Bool
same_int (pos m) (pos n) = nat_beq m n
same_int (negsuc m) (negsuc n) = nat_beq m n
same_int _ _ = false

-- a === b
abbrev pub same_id : RequestId → RequestId → Bool
same_id (numeric m) (numeric n) = same_int m n
same_id (textual s) (textual t) = eq_text s t
same_id _ _ = false

abbrev pub drop_request : RequestId → View → View
drop_request id v = record v {
  state = record v.state { requests = drop_if (λ r. same_id r.id id) v.state.requests };
}

-- socketRef.current?.send throws while the socket opens: nothing behind it runs.
abbrev pub unless_opening : Socket → Client → Client → Client
unless_opening opening stays goes = stays
unless_opening open_ stays goes = goes
unless_opening closed stays goes = goes

abbrev pub has_local : Text → List Text → Bool
has_local id [] = false
has_local id (i ∷ ids) = eq_text i id || has_local id ids

abbrev pub answer_local : Text → Reply → Client → Client
answer_local id reply c = record c { answered = (id, reply) ∷ c.answered }

abbrev pub declined : Option Json
declined = some (
    object (
      field (codes "content")
        (array (
          cons
            (object (
              field (codes "type") (string (codes "text")) (
                field (codes "text") (string (codes "The user declined this MCP App action."))
                  empty)))
            nil))
        (field (codes "isError") (boolean true) empty)))

abbrev pub is_error : Option Json
is_error = some (object (field (codes "isError") (boolean true) empty))

abbrev pub is_web : Text → Bool
is_web protocol = eq_text protocol (codes "http:") || eq_text protocol (codes "https:")

-- result.decision === "accept"
abbrev pub is_accepted : Fields → Bool
is_accepted answer = eq_text (string_or_empty (find (codes "decision") answer)) (codes "accept")

module _ (parse_url : Text → Option (Text × Text)) where
  -- new URL(url), by its href and its protocol; `none` where it throws
  unfoldable pub open_link : Text → Text → Client → Client
  open_link id url c = elim (parse_url url) [
    | none ↦ c
    | some (href, protocol) ↦
        if is_web protocol
        then answer_local id (fulfilled (some (object empty)))
            (record c { opened = href ∷ c.opened })
        else answer_local id (fulfilled is_error) c
  ]

  -- answerRequest for an action of an MCP app that still waits
  unfoldable pub answer_app : Env → ServerRequest → Fields → Client → Client
  unfolding open_link
  answer_app env req answer c =
      let id = string_of_id req.id in
      if not (is_accepted answer)
      then answer_local id (fulfilled declined) c
      else if eq_text req.method (codes "mcpApp/tool/requestApproval")
      then rpc env (codes "mcpServer/tool/call")
          (build (
            (codes "threadId", thread_param c)
            ∷ (codes "server", param (codes "server") req.params)
            ∷ (codes "tool", param (codes "tool") req.params)
            ∷ (codes "arguments", some (object (fields_of (param (codes "arguments") req.params))))
            ∷ (codes "_meta", param (codes "_meta") req.params)
            ∷ []))
          (call_tool id) c
      else if eq_text req.method (codes "mcpApp/openLink/requestApproval")
      then open_link id (string_or_empty (param (codes "url") req.params)) c
      else c

  unfoldable pub answer_request : Env → ServerRequest → Fields → Client → Client
  unfolding answer_app
  answer_request env req answer c =
      let id = string_of_id req.id in
      let waits = has_local id c.local in
      let dropped = record c {
        local = drop_if (λ i. eq_text i id) c.local;
        view = drop_request req.id c.view;
      } in
      let replied = post (result req.id answer) c in
      let added = add_approval_resolution env.now c.view.state.items req answer in
      if starts_with req.method (codes "mcpApp/")
      then (if waits then answer_app env req answer dropped else dropped)
      else unless_opening c.socket c (
          show (λ v. drop_request req.id (record v { state = record v.state { items = added } }))
            replied)

unfoldable pub reject_request : ServerRequest → Text → Client → Client
reject_request req message c =
    unless_opening c.socket c (show (drop_request req.id) (post (refusal req.id message) c))

-- queueMcpAppRequest
unfoldable pub queue_app_request : Env → Text → Fields → Client → Client
queue_app_request env method params c =
    let id = codes "mcp-app-" ++ env.uuid in
    record c {
      local = id ∷ c.local;
      view = record c.view {
        state = record c.view.state {
          requests =
              c.view.state.requests
              ++ record { id = textual id; method = method; params = params } ∷ [];
        };
      };
    }
