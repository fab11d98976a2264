-- ===== src/Jails/Calls.antt =====
-- unraid-api-plugin-incus/src/incus.service.ts: the calls of the daemon and the snapshot of the list of
-- containers. Calls of the service follow one another here: an `await` is not interleaved with another call.
use incus_unraid.Prelude.{
  ℕ, ◌+◌, Bool, false, ◌&&◌, not, Option, none, some, List, [], ◌∷◌, ◌++◌, map, ltb, if◌then◌else◌,
  Text, codes, eq_text, starts_with, Assoc, lookup, text_eq,
}
use incus_unraid.Json.{Json, ℤ}
use incus_unraid.UnixClient.Exchange.{Outcome, value, throws, hangs, said}
use incus_unraid.UnixClient.Requests.{Request, IncusResponse, Socket, request, wait, pending}

pub record IncusNetworkAddress : Type 0 where
  pub family : Option Text
  pub address : Option Text

abbrev pub IncusDevice : Type 0
IncusDevice = Assoc Text Text

-- `state`, its numbers as `String` prints them
pub record InstanceState : Type 0 where
  pub network : Assoc Text (List IncusNetworkAddress)
  pub cpu_usage : Option Text
  pub memory_usage : Option Text
  pub memory_total : Option Text

pub record IncusInstance : Type 0 where
  pub name : Text
  pub status : Text
  pub profiles : Option (List Text)
  pub state : Option InstanceState
  pub config : Option (Assoc Text Text)
  pub expanded_config : Option (Assoc Text Text)
  pub devices : Option (Assoc Text IncusDevice)
  pub expanded_devices : Option (Assoc Text IncusDevice)

pub record JailSummary : Type 0 where
  pub name : Text
  pub status : Text
  pub ipv4 : Option Text
  pub cpu_usage_ns : Option Text
  pub memory_usage_bytes : Option Text
  pub memory_total_bytes : Option Text

-- `source` of a launch
pub data Source : Type 0 where
  simplestreams : Text → Text → Source
  local_alias : Text → Source

pub data Body : Type 0 where
  no_body : Body
  change_state : Text → ℕ → Option Bool → Body
  create : Text → List Text → Source → Assoc Text IncusDevice → Body
  set_devices : Assoc Text IncusDevice → Body
  set_config : Assoc Text Text → Body

-- One request of this service, for what the theorems say.
pub record Sent : Type 0 where
  pub method : Text
  pub path : Text
  pub body : Body

-- What the service uses and does not implement: the daemon, the shapes that it reads replies as, node:path, the
-- calls of node:fs, the clock and the settings.
pub record Host (W : Type 0) : Type 0 where
  pub socket : Socket W
  pub json_of : Body → Option Json
  pub instances_of : IncusResponse → Outcome (List IncusInstance)
  pub instance_of : IncusResponse → Outcome IncusInstance
  pub target_of : IncusResponse → Outcome Text
  pub is_ok_status : IncusResponse → Bool
  pub encode_uri_component : Text → Text
  pub to_lower_case : Text → Text
  pub parse_int : Text → Option ℤ
  pub join : Text → Text → Text
  pub resolve : Text → Text
  pub relative : Text → Text → Text
  pub realpath : Text → W → Outcome Text × W
  pub mkdir : Text → W → Outcome (Unit {0}) × W
  pub chown : Text → ℕ → ℕ → W → Outcome (Unit {0}) × W
  pub chmod : Text → W → Outcome (Unit {0}) × W
  pub is_directory : Text → W → Outcome Bool × W
  pub now : W → ℕ
  -- config.get(key, default)
  pub setting : Text → Text → Text

pub record Snapshot : Type 0 where
  pub expires_at : ℕ
  pub jails : List JailSummary

pub record Service (W : Type 0) : Type 0 where
  pub world : W
  pub jail_snapshot : Option Snapshot
  pub sent : List Sent

-- A call of the service.
abbrev pub Calls : Type 0 → Type 0 → Type 0
Calls W A = Service W → Outcome A × Service W

abbrev pub next : {W A B : Type 0} → Outcome A × Service W → (A → Calls W B) → Outcome B × Service W
next (value a, s) f = f a s
next (throws e, s) f = (throws e, s)
next (hangs, s) f = (hangs, s)

infixl 5 ◌>>=◌ ◌>>◌
abbrev pub ◌>>=◌ : {W A B : Type 0} → Calls W A → (A → Calls W B) → Calls W B
◌>>=◌ m f s = next (m s) f

abbrev pub ◌>>◌ : {W B : Type 0} → Calls W (Unit {0}) → Calls W B → Calls W B
◌>>◌ m k s = next (m s) (λ _. k)

abbrev pub return : {W A : Type 0} → A → Calls W A
return a s = (value a, s)

abbrev pub fail : {W A : Type 0} → Text → Calls W A
fail message s = (throws (said message), s)

abbrev pub pure_outcome : {W A : Type 0} → Outcome A → Calls W A
pure_outcome o s = (o, s)

-- A call of something outside the service.
unfoldable pub outside : {W A : Type 0} → (W → Outcome A × W) → Calls W A
outside f s = let (o, w) = f s.world in (o, record s { world = w })

module _ {W : Type 0} (h : Host W) where
  unfoldable pub call : Text → Text → Body → Calls W IncusResponse
  call method path body s =
      let r : Request = record {
        method = method;
        path = path;
        body = h.json_of body;
        timeout_ms = 30000;
      } in
      let (o, w) = request h.socket r s.world in
      (
        o,
        record s {
          world = w;
          sent = s.sent ++ record { method = method; path = path; body = body } ∷ [];
        },
      )

  unfoldable pub wait_for_operation : Text → ℕ → Calls W (Unit {0})
  wait_for_operation operation_url timeout_sec s =
      let (o, w) = wait h.socket operation_url timeout_sec s.world in
      (elim o [ value r ↦ value tt | throws e ↦ throws e | hangs ↦ hangs ], record s { world = w })

  -- `if (resp.type === "async" && resp.operation)`
  unfoldable pub wait_if_async : IncusResponse → Calls W (Unit {0})
  wait_if_async resp s = elim (pending h.socket resp) [
    | none ↦ (value tt, s)
    | some operation ↦ wait_for_operation operation 60 s
  ]

  -- method !== "GET" && path.startsWith("/1.0/instances")
  unfoldable pub changes_instances : Text → Text → Bool
  changes_instances method path =
      not (eq_text method (codes "GET")) && starts_with path (codes "/1.0/instances")

  unfoldable pub forget_snapshot : Text → Text → Calls W (Unit {0})
  forget_snapshot method path s =
      (value tt, if changes_instances method path then record s { jail_snapshot = none } else s)

  -- callAndWait, from the reply on
  unfoldable pub settle_call : Text → Text → IncusResponse → Calls W IncusResponse
  settle_call method path resp = do wait_if_async resp; forget_snapshot method path; return resp

  unfoldable pub call_and_wait : Text → Text → Body → Calls W IncusResponse
  unfolding settle_call
  call_and_wait method path body = do resp ← call method path body; settle_call method path resp

  unfoldable pub ping : Calls W Bool
  ping s =
      let (o, s') = call (codes "GET") (codes "/1.0") no_body s in
      (
        elim o [
          | value resp ↦ value (h.is_ok_status resp)
          | throws e ↦ value false
          | hangs ↦ hangs
        ],
        s',
      )

  -- addresses.find((address) => address.family === "inet")?.address
  unfoldable pub find_inet : List IncusNetworkAddress → Option Text
  unfolding eq_text
  find_inet [] = none
  find_inet (a ∷ addresses) =
      let rest = find_inet addresses in
      elim a.family [ none ↦ rest | some f ↦ if eq_text f (codes "inet") then a.address else rest ]

  unfoldable pub ipv4_of : InstanceState → Option Text
  unfolding find_inet
  ipv4_of st = elim (lookup (codes "eth0") st.network) [ none ↦ none | some l ↦ find_inet l ]

  unfoldable pub summary_of : IncusInstance → JailSummary
  unfolding ipv4_of
  summary_of i = elim i.state [
    | none ↦ record {
      name = i.name;
      status = i.status;
      ipv4 = none;
      cpu_usage_ns = none;
      memory_usage_bytes = none;
      memory_total_bytes = none;
    }
    | some st ↦ record {
      name = i.name;
      status = i.status;
      ipv4 = ipv4_of st;
      cpu_usage_ns = st.cpu_usage;
      memory_usage_bytes = st.memory_usage;
      memory_total_bytes = st.memory_total;
    }
  ]

  unfoldable pub fetch_jails : Calls W (List JailSummary)
  fetch_jails = do
    resp ← call (codes "GET") (codes "/1.0/instances?recursion=2") no_body
    instances ← pure_outcome (h.instances_of resp)
    return (map summary_of instances)

  -- The outcome of the fetch in the snapshot: kept where it is a value, dropped where it threw.
  unfoldable pub remember :
      ℕ → Outcome (List JailSummary) × Service W → Outcome (List JailSummary) × Service W
  remember expires_at (value jails, s) = (
    value jails,
    record s { jail_snapshot = some (record { expires_at = expires_at; jails = jails }) },
  )
  remember expires_at (throws e, s) = (throws e, record s { jail_snapshot = none })
  remember expires_at (hangs, s) = (hangs, s)

  -- The list of a snapshot that has not expired.
  unfoldable pub fresh : Option Snapshot → ℕ → Option (List JailSummary)
  fresh none now = none
  fresh (some snapshot) now = if ltb now snapshot.expires_at then some snapshot.jails else none

  unfoldable pub list_jails : Calls W (List JailSummary)
  list_jails s = elim (fresh s.jail_snapshot (h.now s.world)) [
    | some jails ↦ (value jails, s)
    | none ↦ remember (h.now s.world + 1000) (fetch_jails s)
  ]
