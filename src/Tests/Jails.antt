-- ===== src/Tests/Jails.antt =====
-- The theorems on incus.service.ts at concrete inputs: a daemon that answers every request at once, and a file
-- system in which every path is its own real path.
use incus_unraid.Prelude.{
  ◌≡◌, refl, true, none, some, List, [], ◌∷◌, ◌++◌, codes, eq_text, text_eq, starts_with,
}
use incus_unraid.Json.{Json, pos, object, field, empty, string, find, get}
use incus_unraid.UnixClient.Exchange.{value, data_, ended, run_events, on_event, on_data}
use incus_unraid.UnixClient.Requests.{
  request, request_raw, read_response, read_json, check, is_error, pending,
}
use incus_unraid.Jails.Calls.{
  Host, Service, IncusInstance, JailSummary, no_body, call, call_and_wait, settle_call,
  wait_if_async, forget_snapshot, changes_instances, fetch_jails, list_jails, remember, fresh,
  summary_of,
}
use incus_unraid.Jails.Operations.{
  is_stopped, stopped_names, attempted, delete_one, delete_each, delete_stopped_jails,
}
use incus_unraid.Jails.Workspace.{launch_jail, set_workspace, set_jail_limits}
use incus_unraid.Jails.Sent.{one, list_request, list_jails-after-change}
use incus_unraid.Jails.Deleted.{Sublist, deletions, delete_stopped_jails_lem}

abbrev answer : Json
answer = object (field (codes "type") (string (codes "sync")) empty)

abbrev instance_a : IncusInstance
instance_a = record {
  name = codes "a";
  status = codes "stopped";
  profiles = none;
  state = none;
  config = some ((codes "user.note", codes "x") ∷ []);
  expanded_config = none;
  devices = none;
  expanded_devices = none;
}

abbrev host : Host (Unit {0})
host = record {
  socket = record {
    send = λ r w. (data_ (codes "{}") ∷ ended (some 200) ∷ [], w);
    decode = λ bytes. bytes;
    json_parse = λ text. some answer;
    wait_path = λ operation seconds. operation;
  };
  json_of = λ body. none;
  instances_of = λ r.
      value (instance_a ∷ record instance_a { name = codes "b"; status = codes "running" } ∷ []);
  instance_of = λ r. value instance_a;
  target_of = λ r. value (codes "f");
  is_ok_status = λ r. true;
  encode_uri_component = λ t. t;
  to_lower_case = λ t. t;
  parse_int = λ t. some (pos 1000);
  join = λ a b. a ++ (47 ∷ b);
  resolve = λ t. t;
  relative = λ a b. codes "dev";
  realpath = λ t w. (value t, w);
  mkdir = λ t w. (value tt, w);
  chown = λ t u g w. (value tt, w);
  chmod = λ t w. (value tt, w);
  is_directory = λ t w. (value true, w);
  now = λ w. 5;
  setting = λ key default. default;
}

abbrev idle_service : Service (Unit {0})
idle_service = record { world = tt; jail_snapshot = none; sent = [] }

abbrev deleted : Service (Unit {0})
deleted = (call_and_wait host (codes "DELETE") (codes "/1.0/instances/a") no_body idle_service).1

list_jails-after-change_example :
    (list_jails host deleted).1.sent
    ≡ ([] ++ one host (codes "DELETE") (codes "/1.0/instances/a") no_body) ++ list_request host
unfolding call_and_wait settle_call call wait_if_async forget_snapshot changes_instances request
    request_raw run_events on_event on_data read_response read_json check is_error pending find get
    eq_text starts_with
list_jails-after-change_example =
    list_jails-after-change host (codes "DELETE") (codes "/1.0/instances/a") no_body idle_service
      deleted refl refl

abbrev listed : Service (Unit {0})
listed = (list_jails host idle_service).1

abbrev summaries : List JailSummary
summaries =
    summary_of host instance_a
    ∷ summary_of host (record instance_a { name = codes "b"; status = codes "running" })
    ∷ []

abbrev cleaned : Service (Unit {0})
cleaned = (delete_stopped_jails host idle_service).1

delete_stopped_jails_lem_example :
    (jails : List JailSummary) × (s1 : Service (Unit {0})) × (list_jails host idle_service
      ≡ (value jails, s1))
    × (cleaned.sent ≡ s1.sent ++ deletions host (stopped_names host jails))
    × Sublist (codes "a" ∷ []) (stopped_names host jails)
unfolding delete_stopped_jails delete_each delete_one attempted stopped_names is_stopped summary_of
    list_jails fresh remember fetch_jails call_and_wait settle_call call wait_if_async
    forget_snapshot changes_instances request request_raw run_events on_event on_data read_response
    read_json check is_error pending find get eq_text starts_with
delete_stopped_jails_lem_example = delete_stopped_jails_lem host idle_service cleaned refl

abbrev launched : Service (Unit {0})
launched = (launch_jail host (codes "dev") none none idle_service).1

abbrev moved : Service (Unit {0})
moved = (set_workspace host (codes "a") (codes "/srv/agent-jails/dev") idle_service).1

abbrev shrunk : Service (Unit {0})
shrunk = (set_jail_limits host (codes "a") (some (codes "2")) none idle_service).1
