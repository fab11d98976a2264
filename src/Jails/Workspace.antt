-- ===== src/Jails/Workspace.antt =====
-- unraid-api-plugin-incus/src/incus.service.ts: the workspace of a container, its limits and its details.
use incus_unraid.Prelude.{
  ℕ, Bool, true, false, ◌&&◌, ◌||◌, not, Option, none, some, List, [], if◌then◌else◌, leb, Text,
  codes, eq_text, text_eq, starts_with, Assoc, lookup, insert, delete,
}
use incus_unraid.Json.{ℤ, pos, negsuc}
use incus_unraid.Jails.Calls.{
  Host, Calls, ◌>>=◌, ◌>>◌, return, fail, pure_outcome, outside, call, call_and_wait, no_body,
  set_devices, set_config, IncusInstance, IncusDevice,
}
use incus_unraid.Jails.Operations.{
  assert_jail_name, resolve_source, launch_in, instance_path, workspace_device,
}

-- A number that parseInt gave and that is a safe integer not below 0.
unfoldable pub safe_id : Option ℤ → Option ℕ
safe_id none = none
safe_id (some (negsuc n)) = none
safe_id (some (pos n)) = if leb n 9007199254740991 then some n else none

unfoldable pub id_or_fail : {W : Type 0} → Option ℕ → Option ℕ → Calls W (ℕ × ℕ)
id_or_fail (some uid) (some gid) = return (uid, gid)
id_or_fail _ _ = fail (codes "Configured agent UID/GID is invalid")

unfoldable pub ensure : {W : Type 0} → Bool → Text → Calls W (Unit {0})
ensure true message = return tt
ensure false message = fail message

-- x ?? y
abbrev pub or_else : Option Text → Text → Text
or_else none y = y
or_else (some x) y = x

-- x ?? {}
abbrev pub or_empty : {V : Type 0} → Option (Assoc Text V) → Assoc Text V
or_empty none = []
or_empty (some m) = m

-- if (value !== undefined) config[key] = value
unfoldable pub set_if_defined : Text → Option Text → Assoc Text Text → Assoc Text Text
set_if_defined key none m = m
set_if_defined key (some v) m = insert key v m

pub record JailDetail : Type 0 where
  pub name : Text
  pub profiles : List Text
  pub image_os : Option Text
  pub image_release : Option Text
  pub image_description : Option Text
  pub storage_pool : Option Text
  pub network_bridge : Option Text
  pub cpu_limit : Option Text
  pub cpu_limit_is_override : Bool
  pub memory_limit : Option Text
  pub memory_limit_is_override : Bool
  pub workspace_host_path : Option Text
  pub workspace_is_override : Bool

-- m[key] !== undefined
unfoldable pub is_present : {V : Type 0} → Text → Assoc Text V → Bool
is_present key m = elim (lookup key m) [ none ↦ false | some v ↦ true ]

-- devices[name]?.[key]
unfoldable pub device_field : Text → Text → Assoc Text IncusDevice → Option Text
device_field name key devices = elim (lookup name devices) [ none ↦ none | some d ↦ lookup key d ]

unfoldable pub detail_of : IncusInstance → JailDetail
unfolding is_present device_field
detail_of inst =
    let expanded_config = or_empty inst.expanded_config in
    let expanded_devices = or_empty inst.expanded_devices in
    let own_config = or_empty inst.config in
    let own_devices = or_empty inst.devices in
    record {
      name = inst.name;
      profiles = elim inst.profiles [ none ↦ [] | some l ↦ l ];
      image_os = lookup (codes "image.os") expanded_config;
      image_release = lookup (codes "image.release") expanded_config;
      image_description = lookup (codes "image.description") expanded_config;
      storage_pool = device_field (codes "root") (codes "pool") expanded_devices;
      network_bridge = device_field (codes "eth0") (codes "network") expanded_devices;
      cpu_limit = lookup (codes "limits.cpu") expanded_config;
      cpu_limit_is_override = is_present (codes "limits.cpu") own_config;
      memory_limit = lookup (codes "limits.memory") expanded_config;
      memory_limit_is_override = is_present (codes "limits.memory") own_config;
      workspace_host_path = device_field (codes "workspace") (codes "source") expanded_devices;
      workspace_is_override = is_present (codes "workspace") own_devices;
    }

module _ {W : Type 0} (h : Host W) where
  unfoldable pub is_contained : Text → Text → Bool
  is_contained root candidate =
      let rel = h.relative root candidate in
      eq_text rel [] || (not (starts_with rel (codes "..")) && not (starts_with rel (codes "/")))

  unfoldable pub canonical_workspace_root : Calls W Text
  canonical_workspace_root = do
    let configured =
        h.resolve (h.setting (codes "incus.jailWorkspaceRoot") (codes "/srv/agent-jails"))
    outside (h.mkdir configured)
    outside (h.realpath configured)

  unfoldable pub ensure_instance_workspace_dir : Text → Calls W Text
  ensure_instance_workspace_dir name = do
    assert_jail_name name
    workspace_root ← canonical_workspace_root
    let instance_workspace = h.resolve (h.join workspace_root name)
    ensure (is_contained workspace_root instance_workspace) (codes "invalid workspace path")
    outside (h.mkdir instance_workspace)
    ids ←
        id_or_fail (safe_id (h.parse_int (h.setting (codes "incus.jailAgentUid") (codes "1000"))))
          (safe_id (h.parse_int (h.setting (codes "incus.jailAgentGid") (codes "1000"))))
    outside (h.chown instance_workspace ids.0 ids.1)
    outside (h.chmod instance_workspace)
    outside (h.realpath instance_workspace)

  -- launchJail with the options' image and profile, or the configured ones
  unfoldable pub launch_jail : Text → Option Text → Option Text → Calls W (Unit {0})
  launch_jail name image profile = do
    assert_jail_name name
    let image =
        or_else image (h.setting (codes "incus.jailImage") (codes "images:debian/trixie/cloud"))
    let profile = or_else profile (h.setting (codes "incus.jailProfile") (codes "agent-jail"))
    source ← resolve_source image
    workspace ← ensure_instance_workspace_dir name
    launch_in h name source profile workspace

  unfoldable pub get_instance : Text → Calls W IncusInstance
  get_instance name = do
    resp ← call h (codes "GET") (instance_path h name) no_body
    pure_outcome (h.instance_of resp)

  -- setWorkspace, from the reply on: the path is resolved again
  unfoldable pub repoint : Text → Text → Text → IncusInstance → Calls W (Unit {0})
  repoint name workspace_root canonical inst = do
    verified ← outside (h.realpath canonical)
    ensure (eq_text verified canonical && is_contained workspace_root verified)
        (codes "Workspace path changed during validation")
    resp ← call_and_wait h (codes "PATCH") (instance_path h name) (
        set_devices
          (insert (codes "workspace") (workspace_device verified) (or_empty inst.devices)))
    return tt

  unfoldable pub set_workspace : Text → Text → Calls W (Unit {0})
  set_workspace name host_path = do
    workspace_root ← canonical_workspace_root
    canonical ← outside (h.realpath host_path)
    ensure (is_contained workspace_root canonical)
        (codes "Workspace must be beneath the workspace root")
    directory ← outside (h.is_directory canonical)
    ensure directory (codes "Workspace source must be a directory")
    inst ← get_instance name
    repoint name workspace_root canonical inst

  unfoldable pub migrate_to_own_workspace : Text → Calls W Text
  migrate_to_own_workspace name = do
    instance_workspace ← ensure_instance_workspace_dir name
    set_workspace name instance_workspace
    return instance_workspace

  unfoldable pub clear_workspace_override : Text → Calls W (Unit {0})
  clear_workspace_override name = do
    inst ← get_instance name
    resp ←
        call_and_wait h (codes "PATCH") (instance_path h name)
          (set_devices (delete (codes "workspace") (or_empty inst.devices)))
    return tt

  unfoldable pub set_jail_limits : Text → Option Text → Option Text → Calls W (Unit {0})
  set_jail_limits name cpu memory = do
    inst ← get_instance name
    resp ← call_and_wait h (codes "PATCH") (instance_path h name) (
        set_config (
          set_if_defined (codes "limits.memory") memory
            (set_if_defined (codes "limits.cpu") cpu (or_empty inst.config))))
    return tt

  unfoldable pub get_jail_detail : Text → Calls W JailDetail
  unfolding detail_of
  get_jail_detail name = do inst ← get_instance name; return (detail_of inst)
