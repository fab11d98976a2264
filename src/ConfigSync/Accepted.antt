-- ===== src/ConfigSync/Accepted.antt =====
-- unraid-api-plugin-incus/src/config.entity.ts and config-sync.service.ts: what the settings form accepts is written to
-- incus.cfg so that it reads back.
use incus_unraid.Prelude.{Bool, true, false, ◌≡◌, refl, [], ◌∷◌, All, codes, has_char, arith}
use incus_unraid.Config
use incus_unraid.Config.{ConfigKey, Value, undef, bool, text, Object, truthy}
use incus_unraid.ConfigSync.Quoting.{IsInert}
use incus_unraid.ConfigSync.Mapping.{as_is, is_enabled, is_true}
use incus_unraid.ConfigSync.Update.{IsInertUpdate}
use incus_unraid.ConfigSync.Agreement.{
  reader, IsTyped, IsTypedUpdate, format_by, format_shell_value-format_by,
}
use incus_unraid.Entity.{is_path_char}
use incus_unraid.Entity.Clean.{
  IsClean, literal-IsClean, ifname-IsClean, shell_safe_token-IsClean, uid_gid-IsClean,
  absolute_path-IsClean, dir_or_zfs-IsClean, allow_drop-IsClean, cidr_list-IsClean, cpu_cap-IsClean,
  ts_key-IsClean, memory_cap-IsClean,
}
use incus_unraid.Entity.Inert.{root-Lacks, mounts-Lacks}
use incus_unraid.Entity.Inputs.{
  ifname, cidr_list, allow_drop, shell_safe_token, cpu_cap, memory_cap, absolute_path, uid_gid,
  ts_key, dir_or_zfs, validator, passes, accepts, pattern_of,
}
use incus_unraid.Entity.Regex.{Regex, literal, matches-avoid}

-- The fields whose text is checked, which are all but two.
abbrev pub is_checked : ConfigKey → Bool
is_checked Config.storage_source = false
is_checked Config.storage_pool_name = false
is_checked _ = true

abbrev pub IsChecked : Object → Type 0
IsChecked = All (λ e. is_checked e.0 ≡ true)

pattern-IsInert :
    (r : Regex) (v : Value)
    → IsClean r
    → passes (pattern_of r) v ≡ true
    → IsInert (format_by as_is v)
unfolding passes has_char
pattern-IsInert r undef c h = (refl, refl)
pattern-IsInert r (bool b) c h = absurd (cc)
pattern-IsInert r (text t) c h =
    (matches-avoid 39 r t c.quote h, matches-avoid 10 r t c.line_break h)

root-IsInert :
    (v : Value)
    → passes (validator Config.jail_workspace_root) v ≡ true
    → IsInert (format_by as_is v)
unfolding passes has_char is_path_char
root-IsInert undef h = (refl, refl)
root-IsInert (bool b) h = absurd (cc)
root-IsInert (text t) h =
    (root-Lacks 39 refl refl refl refl refl t h, root-Lacks 10 refl refl refl refl refl t h)

mounts-IsInert :
    (v : Value) → passes (validator Config.jail_bind_mounts) v ≡ true → IsInert (format_by as_is v)
unfolding passes has_char is_path_char
mounts-IsInert undef h = (refl, refl)
mounts-IsInert (bool b) h = absurd (cc)
mounts-IsInert (text t) h =
    (mounts-Lacks 39 refl refl refl refl refl t h, mounts-Lacks 10 refl refl refl refl refl t h)

enabled-IsInert : (v : Value) → IsInert (format_by is_enabled v)
unfolding truthy has_char
enabled-IsInert v = ground arith

true-IsInert : (v : Value) → IsInert (format_by is_true v)
unfolding truthy has_char
true-IsInert v = ground arith

value-IsInert :
    (k : ConfigKey) (v : Value)
    → is_checked k ≡ true
    → passes (validator k) v ≡ true
    → IsInert (format_by (reader k) v)
unfolding has_char passes
value-IsInert Config.enabled v c h = enabled-IsInert v
value-IsInert Config.state_dir v c h = pattern-IsInert absolute_path v absolute_path-IsClean h
value-IsInert Config.storage_driver v c h = pattern-IsInert dir_or_zfs v dir_or_zfs-IsClean h
value-IsInert Config.storage_source v c h = absurd (cc)
value-IsInert Config.storage_pool_name v c h = absurd (cc)
value-IsInert Config.jail_bridge v c h = pattern-IsInert ifname v ifname-IsClean h
value-IsInert Config.jail_subnet v c h = pattern-IsInert cidr_list v cidr_list-IsClean h
value-IsInert Config.jail_nat v c h = true-IsInert v
value-IsInert Config.jail_ipv6 v c h =
    pattern-IsInert (literal (codes "none")) v (literal-IsClean (codes "none") refl refl) h
value-IsInert Config.acl_name v c h = pattern-IsInert shell_safe_token v shell_safe_token-IsClean h
value-IsInert Config.acl_block v c h = pattern-IsInert cidr_list v cidr_list-IsClean h
value-IsInert Config.acl_allow v c h = pattern-IsInert cidr_list v cidr_list-IsClean h
value-IsInert Config.acl_default_egress v c h = pattern-IsInert allow_drop v allow_drop-IsClean h
value-IsInert Config.acl_default_ingress v c h = pattern-IsInert allow_drop v allow_drop-IsClean h
value-IsInert Config.jail_profile v c h =
    pattern-IsInert shell_safe_token v shell_safe_token-IsClean h
value-IsInert Config.jail_image v c h =
    pattern-IsInert shell_safe_token v shell_safe_token-IsClean h
value-IsInert Config.jail_nesting v c h = true-IsInert v
value-IsInert Config.jail_cpu v c h = pattern-IsInert cpu_cap v cpu_cap-IsClean h
value-IsInert Config.jail_memory v c h = pattern-IsInert memory_cap v memory_cap-IsClean h
value-IsInert Config.jail_workspace_root v c h = root-IsInert v h
value-IsInert Config.jail_agent_uid v c h = pattern-IsInert uid_gid v uid_gid-IsClean h
value-IsInert Config.jail_agent_gid v c h = pattern-IsInert uid_gid v uid_gid-IsClean h
value-IsInert Config.jail_bind_mounts v c h = mounts-IsInert v h
value-IsInert Config.ts_auth_key v c h = pattern-IsInert ts_key v ts_key-IsClean h
value-IsInert Config.ts_auth_key_configured v c h = absurd (cc)
value-IsInert Config.dashboard_widget_enable v c h = true-IsInert v

value-IsTyped : (k : ConfigKey) (v : Value) → passes (validator k) v ≡ true → IsTyped (reader k) v
unfolding passes
value-IsTyped k undef h = tt
value-IsTyped Config.enabled (bool b) h = tt
value-IsTyped Config.jail_nat (bool b) h = tt
value-IsTyped Config.jail_nesting (bool b) h = tt
value-IsTyped Config.dashboard_widget_enable (bool b) h = tt
value-IsTyped k (bool b) h = absurd (cc)
value-IsTyped Config.enabled (text t) h = absurd (cc)
value-IsTyped Config.jail_nat (text t) h = absurd (cc)
value-IsTyped Config.jail_nesting (text t) h = absurd (cc)
value-IsTyped Config.dashboard_widget_enable (text t) h = absurd (cc)
value-IsTyped k (text t) h = tt

pub accepted-IsTypedUpdate : (u : Object) → accepts u ≡ true → IsTypedUpdate u
unfolding accepts
accepted-IsTypedUpdate [] h = tt
accepted-IsTypedUpdate ((k, v) ∷ u) h =
    (value-IsTyped k v (ground arith), accepted-IsTypedUpdate u (ground arith))

pub accepted-IsInertUpdate : (u : Object) → accepts u ≡ true → IsChecked u → IsInertUpdate u
unfolding accepts
accepted-IsInertUpdate [] h c = tt
accepted-IsInertUpdate ((k, v) ∷ u) h (c, cs) =
    let inert : IsInert (format_by (reader k) v) = value-IsInert k v c (ground arith) in
    let same = format_shell_value-format_by k v in
    (rw same inert, accepted-IsInertUpdate u (ground arith) cs)
