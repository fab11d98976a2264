-- ===== src/Codex/Dispatch.antt =====
-- unraid-codex/web-src/src/protocol.ts: the switch of handleNotification. A notification without the item that it is about,
-- at which the code throws, changes nothing here.
use incus_unraid.Prelude.{
  Bool, true, false, ◌||◌, Option, none, some, ◌++◌, map, if◌then◌else◌, Text, codes, eq_text,
}
use incus_unraid.Json.{Json, object, Fields, get?, text_of}
use incus_unraid.Codex.Values.{put?, or_else, present, string_or_empty, list_of, truthy}
use incus_unraid.Codex.State.{ServerRequest, info, warn, error, success, connected, working}
use incus_unraid.Codex.Timeline.{text_from_error, string_of_id, id_of}
use incus_unraid.Codex.Notifications.{
  Env, View, Method, item_started, item_completed, text_delta, summary_text_delta,
  summary_part_added, reasoning_text_delta, output_delta, patch_updated, tool_progress,
  plan_updated, diff_updated, token_usage_updated, settings_updated, goal_updated, goal_cleared,
  rate_limits_updated, turn_started, turn_completed, status_changed, login_completed, errored,
  warned, deprecated, compacted, rerouted, startup_status_updated, oauth_completed,
  app_list_updated, account_updated, request_resolved, name_updated, hook_started, hook_completed,
  realtime_error, method_of, add_notice, log_event, param, on_item, append_text, append_part,
  add_part, start_item, complete_item, name_of_server, note_startup, connected_state, is_string,
  hook_run, drop_if,
}

-- value ?? old, for an object that may be missing
abbrev pub object_of : Option Json → Option Fields
object_of (some (object fields)) = some fields
object_of _ = none

-- { ...settings, name: value } where there are settings
abbrev put_in : Text → Option Json → Option Fields → Option Fields
put_in name value none = none
put_in name value (some fields) = some (put? name value fields)

abbrev pub fallback : Option Json → Text → Text
fallback value other = elim (text_of value) [ none ↦ other | some s ↦ s ]

-- params.message ?? params.summary ?? JSON.stringify(params)
abbrev describe : Env → Option Json → Option Json → Fields → Option Text
describe env first second params = some (fallback (or_else first second) (env.stringify params))

-- The id of the turn that a message names: params.turn?.id ?? params.turnId
unfoldable pub turn_id_of : Fields → Option Text
turn_id_of params =
    text_of
      (or_else (get? (codes "id") (param (codes "turn") params)) (param (codes "turnId") params))

abbrev pub is_resolved : Fields → ServerRequest → Bool
is_resolved params request = elim (id_of (param (codes "requestId") params)) [
  | none ↦ false
  | some id ↦ eq_text (string_of_id request.id) (string_of_id id)
]

-- The notices that a notification adds, behind its other effects.
unfoldable pub noticed : Env → Method → Fields → View → View
noticed env login_completed params v =
    if truthy (param (codes "success") params)
    then v
    else add_notice env error (codes "Sign-in failed") (text_of (param (codes "error") params)) v
noticed env errored params v =
    add_notice env error
      (if truthy (param (codes "willRetry") params)
        then codes "Codex will retry"
        else codes "Codex error")
      (some (text_from_error (param (codes "error") params))) v
noticed env warned params v =
    add_notice env warn (codes "Codex warning")
      (describe env (param (codes "message") params) (param (codes "summary") params) params) v
noticed env deprecated params v =
    add_notice env warn (codes "Deprecation notice")
      (describe env (param (codes "message") params) (param (codes "summary") params) params) v
noticed env compacted params v = add_notice env info (codes "Context compacted") none v
noticed env rerouted params v =
    add_notice env info (codes "Model rerouted")
      (describe env (param (codes "reason") params) none params) v
noticed env startup_status_updated params v =
    if is_string (param (codes "status") params) (codes "failed")
      || truthy (param (codes "error") params)
    then add_notice env warn
        (fallback (name_of_server params) (codes "MCP server") ++ codes " unavailable")
        (text_of (param (codes "error") params)) v
    else v
noticed env oauth_completed params v =
    let name = string_or_empty (param (codes "name") params) in
    let done = truthy (param (codes "success") params) in
    add_notice env (if done then success else error)
      (name ++ (if done then codes " connected" else codes " sign-in failed"))
      (text_of (param (codes "error") params)) v
noticed env hook_started params v =
    add_notice env info
      (codes "Hook started · " ++ fallback (hook_run params (codes "eventName")) (codes "event"))
      (text_of (hook_run params (codes "statusMessage"))) v
noticed env hook_completed params v =
    let bad = is_string (hook_run params (codes "status")) (codes "failed") in
    add_notice env (if bad then warn else success)
      (codes "Hook " ++ (if bad then codes "failed" else codes "completed"))
      (text_of (hook_run params (codes "statusMessage"))) v
noticed env realtime_error params v =
    add_notice env error (codes "Realtime session error")
      (some (text_from_error (some (object params)))) v
noticed env _ params v = v

-- What a notification changes of the state but the notices.
unfoldable pub changed : Method → Fields → View → View
unfolding turn_id_of
changed item_started params v = elim (object_of (param (codes "item") params)) [
  | none ↦ v
  | some item ↦ record v { state = record v.state { items = start_item params item v.state.items } }
]
changed item_completed params v = elim (object_of (param (codes "item") params)) [
  | none ↦ v
  | some item ↦ record v {
    state = record v.state { items = complete_item params item v.state.items };
  }
]
changed text_delta params v =
    on_item (param (codes "itemId") params)
      (append_text (codes "text") (param (codes "delta") params)) v
changed summary_text_delta params v =
    on_item (param (codes "itemId") params)
      (append_part (codes "summary") (param (codes "delta") params)) v
changed summary_part_added params v = on_item (param (codes "itemId") params) add_part v
changed reasoning_text_delta params v =
    on_item (param (codes "itemId") params)
      (append_part (codes "content") (param (codes "delta") params)) v
changed output_delta params v =
    on_item (or_else (param (codes "itemId") params) (param (codes "processId") params))
      (append_text (codes "aggregatedOutput") (param (codes "delta") params)) v
changed patch_updated params v =
    on_item (param (codes "itemId") params)
      (λ entry. record entry {
        item = put? (codes "changes") (param (codes "changes") params) entry.item;
      })
      v
changed tool_progress params v =
    on_item (param (codes "itemId") params)
      (λ entry. record entry { progress = text_of (param (codes "message") params) }) v
changed plan_updated params v = record v { state = record v.state { plan = some (object params) } }
changed diff_updated params v = record v {
  state = record v.state { diff = string_or_empty (param (codes "diff") params) };
}
changed token_usage_updated params v = record v {
  state = record v.state { token_usage = present (param (codes "tokenUsage") params) };
}
changed settings_updated params v = record v {
  state = record v.state {
    settings =
        object_of
          (or_else (param (codes "threadSettings") params) (param (codes "settings") params));
  };
}
changed goal_updated params v = record v {
  state = record v.state { goal = present (param (codes "goal") params) };
}
changed goal_cleared params v = record v { state = record v.state { goal = none } }
changed rate_limits_updated params v = record v {
  state = record v.state {
    rate_limits =
        or_else (or_else (param (codes "rateLimits") params) (param (codes "snapshot") params))
          v.state.rate_limits;
  };
}
changed turn_started params v = record v {
  active_turn = turn_id_of params;
  state = record v.state {
    status = working;
    status_text = codes "Codex is working";
    active_turn_id = turn_id_of params;
  };
}
changed turn_completed params v = connected_state v
changed status_changed params v =
    if is_string (get? (codes "type") (param (codes "status") params)) (codes "idle")
    then connected_state v
    else v
changed login_completed params v =
    if truthy (param (codes "success") params)
    then record v {
      state = record v.state {
        authenticated = true;
        device_login = none;
        status = connected;
        status_text = codes "Connected";
      };
    }
    else v
changed rerouted params v = record v {
  state = record v.state {
    settings = put_in (codes "model") (param (codes "toModel") params) v.state.settings;
  };
}
changed startup_status_updated params v = record v {
  state = record v.state { mcp_servers = map (note_startup params) v.state.mcp_servers };
}
changed app_list_updated params v = record v {
  state = record v.state { apps = list_of (param (codes "data") params) };
}
changed account_updated params v =
    let signed_in = truthy (param (codes "authMode") params) in
    record v {
      state = record v.state {
        authenticated = signed_in;
        status_text = if signed_in then codes "Connected" else codes "Connected. Sign-in required.";
      };
    }
changed request_resolved params v = record v {
  state = record v.state { requests = drop_if (is_resolved params) v.state.requests };
}
changed name_updated params v = record v {
  state = record v.state {
    thread = put_in (codes "name") (param (codes "threadName") params) v.state.thread;
  };
}
changed _ params v = v

-- handleNotification, without its calls of `rpc`
unfoldable pub handle_notification : Env → Text → Fields → View → View
unfolding method_of changed noticed log_event
handle_notification env name params v =
    noticed env (method_of name) params
      (changed (method_of name) params (log_event env name params v))
