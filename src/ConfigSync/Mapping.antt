-- ===== src/ConfigSync/Mapping.antt =====
-- unraid-api-plugin-incus/src/config-sync.service.ts: the correspondence of shell keys and
-- configuration keys, `mapShellToTS`, `formatShellValue` and `isConfigDifferent`.
use incus_unraid.Prelude.{
  Text, codes, Bool, true, false, Option, none, some, List, [], ◌∷◌, ltb, length, ◌==◌, text_eq,
  Assoc, lookup, insert, if◌then◌else◌, ◌&&◌, ◌||◌, not,
}
use incus_unraid.Config.{
  ConfigKey, key_eq, Value, undef, bool, text, Object, get, truthy, enabled, state_dir,
  storage_driver, storage_source, storage_pool_name, jail_bridge, jail_subnet, jail_nat, jail_ipv6,
  acl_name, acl_block, acl_allow, acl_default_egress, acl_default_ingress, jail_profile, jail_image,
  jail_nesting, jail_cpu, jail_memory, jail_workspace_root, jail_agent_uid, jail_agent_gid,
  jail_bind_mounts, ts_auth_key, ts_auth_key_configured, dashboard_widget_enable,
}

-- `keyMap` of updateShellConfig, in its order
abbrev pub key_map : List (ConfigKey × Text)
key_map =
    (enabled, codes "SERVICE")
    ∷ (state_dir, codes "INCUS_DIR")
    ∷ (storage_driver, codes "STORAGE_DRIVER")
    ∷ (storage_source, codes "STORAGE_SOURCE")
    ∷ (storage_pool_name, codes "STORAGE_POOL_NAME")
    ∷ (jail_bridge, codes "JAIL_BRIDGE")
    ∷ (jail_subnet, codes "JAIL_SUBNET")
    ∷ (jail_nat, codes "JAIL_NAT")
    ∷ (jail_ipv6, codes "JAIL_IPV6")
    ∷ (acl_name, codes "ACL_NAME")
    ∷ (acl_block, codes "ACL_BLOCK")
    ∷ (acl_allow, codes "ACL_ALLOW")
    ∷ (acl_default_egress, codes "ACL_DEFAULT_EGRESS")
    ∷ (acl_default_ingress, codes "ACL_DEFAULT_INGRESS")
    ∷ (jail_profile, codes "JAIL_PROFILE")
    ∷ (jail_image, codes "JAIL_IMAGE")
    ∷ (jail_nesting, codes "JAIL_NESTING")
    ∷ (jail_cpu, codes "JAIL_CPU")
    ∷ (jail_memory, codes "JAIL_MEMORY")
    ∷ (jail_workspace_root, codes "JAIL_WORKSPACE_ROOT")
    ∷ (jail_agent_uid, codes "JAIL_AGENT_UID")
    ∷ (jail_agent_gid, codes "JAIL_AGENT_GID")
    ∷ (jail_bind_mounts, codes "JAIL_BIND_MOUNTS")
    ∷ (ts_auth_key, codes "TS_AUTHKEY")
    ∷ (dashboard_widget_enable, codes "DASHBOARD_WIDGET_ENABLE")
    ∷ []

-- The conversion of `mapShellToTS` for each shell key, in the order of its statements; TS_AUTHKEY
-- sets two fields.
pub data Reader : Type 0 where
  as_is is_enabled is_true is_nonempty : Reader

unfoldable pub read : Reader → Text → Value
read as_is v = text v
read is_enabled v = bool (v == codes "enabled")
read is_true v = bool (v == codes "true")
read is_nonempty v = bool (ltb 0 (length v))

abbrev pub rules : List (Text × ConfigKey × Reader)
rules =
    (codes "SERVICE", enabled, is_enabled)
    ∷ (codes "INCUS_DIR", state_dir, as_is)
    ∷ (codes "STORAGE_DRIVER", storage_driver, as_is)
    ∷ (codes "STORAGE_SOURCE", storage_source, as_is)
    ∷ (codes "STORAGE_POOL_NAME", storage_pool_name, as_is)
    ∷ (codes "JAIL_BRIDGE", jail_bridge, as_is)
    ∷ (codes "JAIL_SUBNET", jail_subnet, as_is)
    ∷ (codes "JAIL_NAT", jail_nat, is_true)
    ∷ (codes "JAIL_IPV6", jail_ipv6, as_is)
    ∷ (codes "ACL_NAME", acl_name, as_is)
    ∷ (codes "ACL_BLOCK", acl_block, as_is)
    ∷ (codes "ACL_ALLOW", acl_allow, as_is)
    ∷ (codes "ACL_DEFAULT_EGRESS", acl_default_egress, as_is)
    ∷ (codes "ACL_DEFAULT_INGRESS", acl_default_ingress, as_is)
    ∷ (codes "JAIL_PROFILE", jail_profile, as_is)
    ∷ (codes "JAIL_IMAGE", jail_image, as_is)
    ∷ (codes "JAIL_NESTING", jail_nesting, is_true)
    ∷ (codes "JAIL_CPU", jail_cpu, as_is)
    ∷ (codes "JAIL_MEMORY", jail_memory, as_is)
    ∷ (codes "JAIL_WORKSPACE_ROOT", jail_workspace_root, as_is)
    ∷ (codes "JAIL_AGENT_UID", jail_agent_uid, as_is)
    ∷ (codes "JAIL_AGENT_GID", jail_agent_gid, as_is)
    ∷ (codes "JAIL_BIND_MOUNTS", jail_bind_mounts, as_is)
    ∷ (codes "TS_AUTHKEY", ts_auth_key, as_is)
    ∷ (codes "TS_AUTHKEY", ts_auth_key_configured, is_nonempty)
    ∷ (codes "DASHBOARD_WIDGET_ENABLE", dashboard_widget_enable, is_true)
    ∷ []

-- `if (shell.NAME !== undefined) config.key = …`
abbrev pub assign : ConfigKey → Reader → Option Text → Object → Object
assign k r none o = o
assign k r (some v) o = insert k (read r v) o

abbrev pub apply_rules : List (Text × ConfigKey × Reader) → Assoc Text Text → Object → Object
apply_rules [] shell o = o
apply_rules ((name, k, r) ∷ rs) shell o = apply_rules rs shell (assign k r (lookup name shell) o)

unfoldable pub map_shell_to_ts : Assoc Text Text → Object
unfolding read
map_shell_to_ts shell = apply_rules rules shell []

-- formatShellValue, with its two sets of keys
unfoldable pub format_shell_value : ConfigKey → Value → Text
unfolding truthy
format_shell_value enabled v = if truthy v then codes "enabled" else codes "disabled"
format_shell_value jail_nat v = if truthy v then codes "true" else codes "false"
format_shell_value jail_nesting v = if truthy v then codes "true" else codes "false"
format_shell_value dashboard_widget_enable v = if truthy v then codes "true" else codes "false"
format_shell_value k undef = codes "undefined"
format_shell_value k (bool b) = if b then codes "true" else codes "false"
format_shell_value k (text t) = t

-- a === b
unfoldable pub same : Value → Value → Bool
same undef undef = true
same (bool true) (bool b) = b
same (bool false) (bool b) = not b
same (text s) (text t) = s == t
same _ _ = false

-- `keys` of isConfigDifferent
abbrev pub compared_keys : List ConfigKey
compared_keys =
    enabled ∷ state_dir ∷ storage_driver ∷ storage_source ∷ storage_pool_name ∷ jail_bridge
    ∷ jail_subnet ∷ jail_nat ∷ jail_ipv6 ∷ acl_name ∷ acl_block ∷ acl_allow ∷ acl_default_egress
    ∷ acl_default_ingress ∷ jail_profile ∷ jail_image ∷ jail_nesting ∷ jail_cpu ∷ jail_memory
    ∷ jail_workspace_root ∷ jail_agent_uid ∷ jail_agent_gid ∷ jail_bind_mounts ∷ ts_auth_key
    ∷ dashboard_widget_enable ∷ []

unfoldable pub differs_on : List ConfigKey → Object → Object → Bool
differs_on [] a b = false
differs_on (k ∷ ks) a b =
    (not (same (get k a) (get k b)) && not (same (get k b) undef)) || differs_on ks a b

unfoldable pub is_config_different : Object → Object → Bool
unfolding differs_on
is_config_different = differs_on compared_keys
