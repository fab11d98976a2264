-- ===== src/Codex/State.antt =====
-- unraid-codex/web-src/src/protocol.ts: CodexState and what it holds.
use incus_unraid.Prelude.{ℕ, Bool, false, Option, none, List, [], Text, codes}
use incus_unraid.Json.{ℤ, Json, Fields}

pub record TimelineItem : Type 0 where
  pub id : Text
  pub turn_id : Text
  pub item : Fields
  pub started_at_ms : Option ℤ
  pub completed_at_ms : Option ℤ
  pub progress : Option Text

pub data Tone : Type 0 where
  info warn error success : Tone

pub record Notice : Type 0 where
  pub id : Text
  pub tone : Tone
  pub title : Text
  pub description : Option Text

-- `string | number`; a number that is no natural one is the id of no call
pub data RequestId : Type 0 where
  numeric : ℤ → RequestId
  textual : Text → RequestId

pub record ServerRequest : Type 0 where
  pub id : RequestId
  pub method : Text
  pub params : Fields

pub record DeviceLogin : Type 0 where
  pub verification_url : Text
  pub user_code : Text

pub data Status : Type 0 where
  connecting connected working disconnected failed : Status

pub record Event : Type 0 where
  pub method : Text
  pub params : Fields
  pub at : ℕ

pub record CodexState : Type 0 where
  pub status : Status
  pub status_text : Text
  pub initialized : Bool
  pub authenticated : Bool
  pub thread_id : Option Text
  pub active_turn_id : Option Text
  pub items : List TimelineItem
  pub requests : List ServerRequest
  pub notices : List Notice
  pub plan : Option Json
  pub diff : Text
  pub token_usage : Option Json
  pub device_login : Option DeviceLogin
  pub thread : Option Fields
  pub settings : Option Fields
  pub config : Option Json
  pub models : List Json
  pub skills : List Json
  pub mcp_servers : List Json
  pub goal : Option Json
  pub rate_limits : Option Json
  pub permission_profiles : List Json
  pub hooks : List Json
  pub apps : List Json
  pub plugins : List Json
  pub marketplace_errors : List Json
  pub events : List Event

-- INITIAL_STATE; the thread is the one that localStorage holds
abbrev pub initial_state : Option Text → CodexState
initial_state stored = record {
  status = connecting;
  status_text = codes "Connecting to Codex";
  initialized = false;
  authenticated = false;
  thread_id = stored;
  active_turn_id = none;
  items = [];
  requests = [];
  notices = [];
  plan = none;
  diff = [];
  token_usage = none;
  device_login = none;
  thread = none;
  settings = none;
  config = none;
  models = [];
  skills = [];
  mcp_servers = [];
  goal = none;
  rate_limits = none;
  permission_profiles = [];
  hooks = [];
  apps = [];
  plugins = [];
  marketplace_errors = [];
  events = [];
}
