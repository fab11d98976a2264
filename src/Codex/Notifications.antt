-- ===== src/Codex/Notifications.antt =====
-- unraid-codex/web-src/src/protocol.ts: addNotice and handleNotification, without the calls of `rpc` that it makes (see Client).
use incus_unraid.Prelude.{
  last_of, ends_with_text, ℕ, Bool, true, false, ◌||◌, ◌&&◌, Option, none, some, List, [], ◌∷◌,
  ◌++◌, map, if◌then◌else◌, Text, codes, eq_text, text_eq, lookup, starts_with, Assoc,
}
use incus_unraid.Json.{Json, string, array, object, Fields, find, get, get?, text_of, int_of}
use incus_unraid.Codex.Values.{
  put, put?, or_else, string_or_empty, fields_of, list_of, items_of_list,
}
use incus_unraid.Codex.State.{TimelineItem, Tone, connected, CodexState}
use incus_unraid.Codex.Timeline.{update_timeline, upsert_timeline, content_text}

-- What a call asks of its surroundings: Date.now(), crypto.randomUUID(), JSON.stringify and the message of
-- the error that reading a property of `undefined` throws.
pub record Env : Type 0 where
  pub now : ℕ
  pub uuid : Text
  pub stringify : Fields → Text
  pub type_error : Text

-- The state of the hook that React shows, and its refs but those of the connection.
pub record View : Type 0 where
  pub state : CodexState
  pub thread : Option Text
  pub active_turn : Option Text

-- The methods of notifications that are handled.
pub data Method : Type 0 where
  item_started item_completed text_delta summary_text_delta : Method
  summary_part_added reasoning_text_delta output_delta patch_updated : Method
  tool_progress plan_updated diff_updated token_usage_updated : Method
  settings_updated goal_updated goal_cleared rate_limits_updated : Method
  turn_started turn_completed status_changed login_completed : Method
  errored warned deprecated compacted : Method
  rerouted startup_status_updated oauth_completed skills_changed : Method
  app_list_updated account_updated request_resolved name_updated : Method
  hook_started hook_completed realtime_error unknown : Method

abbrev methods : Assoc Text Method
methods =
    (codes "item/started", item_started)
    ∷ (codes "item/completed", item_completed)
    ∷ (codes "item/agentMessage/delta", text_delta)
    ∷ (codes "item/plan/delta", text_delta)
    ∷ (codes "item/reasoning/summaryTextDelta", summary_text_delta)
    ∷ (codes "item/reasoning/summaryPartAdded", summary_part_added)
    ∷ (codes "item/reasoning/textDelta", reasoning_text_delta)
    ∷ (codes "item/commandExecution/outputDelta", output_delta)
    ∷ (codes "command/exec/outputDelta", output_delta)
    ∷ (codes "process/outputDelta", output_delta)
    ∷ (codes "item/fileChange/patchUpdated", patch_updated)
    ∷ (codes "item/mcpToolCall/progress", tool_progress)
    ∷ (codes "turn/plan/updated", plan_updated)
    ∷ (codes "turn/diff/updated", diff_updated)
    ∷ (codes "thread/tokenUsage/updated", token_usage_updated)
    ∷ (codes "thread/settings/updated", settings_updated)
    ∷ (codes "thread/goal/updated", goal_updated)
    ∷ (codes "thread/goal/cleared", goal_cleared)
    ∷ (codes "account/rateLimits/updated", rate_limits_updated)
    ∷ (codes "turn/started", turn_started)
    ∷ (codes "turn/completed", turn_completed)
    ∷ (codes "thread/status/changed", status_changed)
    ∷ (codes "account/login/completed", login_completed)
    ∷ (codes "error", errored)
    ∷ (codes "warning", warned)
    ∷ (codes "guardianWarning", warned)
    ∷ (codes "configWarning", warned)
    ∷ (codes "deprecationNotice", deprecated)
    ∷ (codes "thread/compacted", compacted)
    ∷ (codes "model/rerouted", rerouted)
    ∷ (codes "mcpServer/startupStatus/updated", startup_status_updated)
    ∷ (codes "mcpServer/oauthLogin/completed", oauth_completed)
    ∷ (codes "skills/changed", skills_changed)
    ∷ (codes "app/list/updated", app_list_updated)
    ∷ (codes "account/updated", account_updated)
    ∷ (codes "serverRequest/resolved", request_resolved)
    ∷ (codes "thread/name/updated", name_updated)
    ∷ (codes "hook/started", hook_started)
    ∷ (codes "hook/completed", hook_completed)
    ∷ (codes "thread/realtime/error", realtime_error)
    ∷ []

unfoldable pub method_of : Text → Method
method_of name = elim (lookup name methods) [ none ↦ unknown | some m ↦ m ]

unfoldable pub add_notice : Env → Tone → Text → Option Text → View → View
add_notice env tone title description v = record v {
  state = record v.state {
    notices =
        last_of 5 v.state.notices
        ++ record { id = env.uuid; tone = tone; title = title; description = description } ∷ [];
  };
}

abbrev pub param : Text → Fields → Option Json
param name params = find name params

-- A delta is kept out of the list of events.
unfoldable pub is_delta : Text → Bool
is_delta method =
    ends_with_text method (codes "/delta")
    || ends_with_text method (codes "/outputDelta")
    || ends_with_text method (codes "/progress")

unfoldable pub log_event : Env → Text → Fields → View → View
unfolding is_delta
log_event env method params v = if is_delta method then v else record v {
  state = record v.state {
    events =
        last_of 49 v.state.events ++ record { method = method; params = params; at = env.now } ∷ [];
  };
}

-- The items after a change of the one that `itemId` names.
abbrev pub on_item : Option Json → (TimelineItem → TimelineItem) → View → View
on_item id f v = elim (text_of id) [
  | none ↦ v
  | some t ↦ record v { state = record v.state { items = update_timeline v.state.items t f } }
]

-- `${item[name] ?? ""}${delta ?? ""}`
unfoldable pub append_text : Text → Option Json → TimelineItem → TimelineItem
append_text name delta entry = record entry {
  item =
      put name (string (string_or_empty (find name entry.item) ++ string_or_empty delta))
        entry.item;
}

-- The last part of a list of texts with the delta behind it; an empty list gets a part.
abbrev pub extend_last : Text → List Json → List Json
extend_last delta [] = string delta ∷ []
extend_last delta (part ∷ []) = string (string_or_empty (some part) ++ delta) ∷ []
extend_last delta (part ∷ next ∷ parts) = part ∷ extend_last delta (next ∷ parts)

unfoldable pub append_part : Text → Option Json → TimelineItem → TimelineItem
append_part name delta entry = record entry {
  item =
      put name
        (array
          (items_of_list (extend_last (string_or_empty delta) (list_of (find name entry.item)))))
        entry.item;
}

unfoldable pub add_part : TimelineItem → TimelineItem
add_part entry = record entry {
  item =
      put (codes "summary")
        (array
          (items_of_list (list_of (find (codes "summary") entry.item) ++ string (codes "") ∷ [])))
        entry.item;
}

-- The optimistic entry of `send` for the message that has come back.
unfoldable pub is_echo : Fields → TimelineItem → Bool
is_echo item entry =
    starts_with entry.id (codes "local-")
    && eq_text entry.turn_id (codes "pending")
    && eq_text (content_text (find (codes "content") entry.item))
        (content_text (find (codes "content") item))

abbrev pub drop_if : {A : Type 0} → (A → Bool) → List A → List A
drop_if p [] = []
drop_if p (x ∷ xs) = let rest = drop_if p xs in if p x then rest else x ∷ rest

unfoldable pub start_item : Fields → Fields → List TimelineItem → List TimelineItem
unfolding is_echo
start_item params item items =
    upsert_timeline
      (if eq_text (string_or_empty (find (codes "type") item)) (codes "userMessage")
        then drop_if (is_echo item) items
        else items)
      (string_or_empty (find (codes "id") item))
      (record {
        turn_id = some (string_or_empty (param (codes "turnId") params));
        item = some item;
        started_at_ms = some (int_of (param (codes "startedAtMs") params));
        completed_at_ms = none;
      })

-- Whether an entry is the resolution of an approval of the item.
unfoldable pub resolves : Text → TimelineItem → Bool
resolves id entry =
    eq_text (string_or_empty (find (codes "type") entry.item)) (codes "approvalResolution")
    && eq_text (string_or_empty (find (codes "approvalItemId") entry.item)) id

unfoldable pub note_outcome : Fields → TimelineItem → TimelineItem
unfolding resolves
note_outcome item entry =
    if resolves (string_or_empty (find (codes "id") item)) entry
    then record entry {
      item =
          put? (codes "exitCode") (find (codes "exitCode") item)
            (put? (codes "commandStatus") (find (codes "status") item) entry.item);
    }
    else entry

unfoldable pub complete_item : Fields → Fields → List TimelineItem → List TimelineItem
unfolding note_outcome
complete_item params item items = map (note_outcome item) (
    upsert_timeline items (string_or_empty (find (codes "id") item)) (record {
      turn_id = none;
      item = some item;
      started_at_ms = none;
      completed_at_ms = some (int_of (param (codes "completedAtMs") params));
    }))

abbrev pub name_of_server : Fields → Option Json
name_of_server params = or_else (param (codes "server") params) (param (codes "name") params)

abbrev same_text : Option Text → Option Text → Bool
same_text none none = true
same_text (some s) (some t) = eq_text s t
same_text _ _ = false

unfoldable pub note_startup : Fields → Json → Json
note_startup params server =
    if same_text (text_of (get (codes "name") server)) (text_of (name_of_server params))
    then object (
        put? (codes "startupError") (param (codes "error") params)
          (put? (codes "startupStatus") (param (codes "status") params) (fields_of (some server))))
    else server

abbrev pub connected_state : View → View
connected_state v = record v {
  state = record v.state {
    status = connected;
    status_text = codes "Connected";
    active_turn_id = none;
  };
  active_turn = none;
}

abbrev pub is_string : Option Json → Text → Bool
is_string value s = eq_text (string_or_empty value) s

unfoldable pub hook_run : Fields → Text → Option Json
hook_run params name = get? name (param (codes "run") params)
