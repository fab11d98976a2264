-- ===== src/ConfigSync/Compared.antt =====
-- unraid-api-plugin-incus/src/config-sync.service.ts, isConfigDifferent: what it tells of two configurations.
use incus_unraid.Prelude.{
  Bool, true, false, ◌||◌, not, ◌≡◌, ◌≢◌, refl, ap, ◌⊎◌, inl, inr, List, [], ◌∷◌, Text, eq_text_iff,
  text_eq, Assoc, Bool-cases, arith,
}
use incus_unraid.Config.{
  ConfigKey, enabled, state_dir, storage_driver, storage_source, storage_pool_name, jail_bridge,
  jail_subnet, jail_nat, jail_ipv6, acl_name, acl_block, acl_allow, acl_default_egress,
  acl_default_ingress, jail_profile, jail_image, jail_nesting, jail_cpu, jail_memory,
  jail_workspace_root, jail_agent_uid, jail_agent_gid, jail_bind_mounts, ts_auth_key,
  ts_auth_key_configured, dashboard_widget_enable, eq_key, eq_key_iff, Object, Value, undef, bool,
  text, get, spread,
}
use incus_unraid.ConfigSync.Mapping.{
  map_shell_to_ts, same, differs_on, compared_keys, is_config_different,
}
use incus_unraid.ConfigSync.Shell.{is_defined}
use incus_unraid.ConfigSync.Merged.{is_config_different-spread}

-- Whether the second configuration has a value somewhere that the first one does not have there. The key that tells whether
-- there is a tsAuthKey is left out: it is set anew from that key.
abbrev pub Differs : Object → Object → Type 0
Differs o p =
    (k : ConfigKey) × (k ≢ ts_auth_key_configured)
    × (is_defined (get k p) ≡ true)
    × (get k o ≢ get k p)

abbrev pub Agrees : Object → Object → Type 0
Agrees o p =
    (k : ConfigKey)
    → (k ≡ ts_auth_key_configured) ⊎ ((is_defined (get k p) ≡ false) ⊎ (get k o ≡ get k p))

same-value : (v w : Value) → same v w ≡ true → v ≡ w
unfolding same
same-value undef undef h = refl
same-value (bool true) (bool true) h = refl
same-value (bool false) (bool false) h = refl
same-value (text s) (text t) h = ap text ((eq_text_iff s t).0 h)
same-value _ _ h = absurd (cc)

value-same : (v : Value) → same v v ≡ true
unfolding same
value-same undef = refl
value-same (bool true) = refl
value-same (bool false) = refl
value-same (text t) = (eq_text_iff t t).1 refl

same-undef : (v : Value) → same v undef ≡ not (is_defined v)
unfolding same
same-undef undef = refl
same-undef (bool true) = refl
same-undef (bool false) = refl
same-undef (text t) = refl

has_key : ConfigKey → List ConfigKey → Bool
has_key k [] = false
has_key k (j ∷ ks) = eq_key j k || has_key k ks

-- Every key but one is compared.
compared : (k : ConfigKey) → (k ≡ ts_auth_key_configured) ⊎ (has_key k compared_keys ≡ true)
unfolding has_key eq_key
compared enabled = inr refl
compared state_dir = inr refl
compared storage_driver = inr refl
compared storage_source = inr refl
compared storage_pool_name = inr refl
compared jail_bridge = inr refl
compared jail_subnet = inr refl
compared jail_nat = inr refl
compared jail_ipv6 = inr refl
compared acl_name = inr refl
compared acl_block = inr refl
compared acl_allow = inr refl
compared acl_default_egress = inr refl
compared acl_default_ingress = inr refl
compared jail_profile = inr refl
compared jail_image = inr refl
compared jail_nesting = inr refl
compared jail_cpu = inr refl
compared jail_memory = inr refl
compared jail_workspace_root = inr refl
compared jail_agent_uid = inr refl
compared jail_agent_gid = inr refl
compared jail_bind_mounts = inr refl
compared ts_auth_key = inr refl
compared ts_auth_key_configured = inl refl
compared dashboard_widget_enable = inr refl

left_out : has_key ts_auth_key_configured compared_keys ≡ false
unfolding has_key eq_key
left_out = refl

differs_on-Agrees :
    (ks : List ConfigKey) (o p : Object) (k : ConfigKey)
    → differs_on ks o p ≡ false
    → has_key k ks ≡ true
    → (is_defined (get k p) ≡ false) ⊎ (get k o ≡ get k p)
unfolding differs_on has_key
differs_on-Agrees [] o p k h there = absurd (cc)
differs_on-Agrees (j ∷ ks) o p k h there = elim (Bool-cases (eq_key j k)) [
  | inr n ↦ differs_on-Agrees ks o p k (ground arith) (ground (arith, n))
  | inl y ↦
      let key : j ≡ k = (eq_key_iff j k).0 y in
      elim (Bool-cases (same (get k o) (get k p))) [
        | inl e ↦ inr (same-value (get k o) (get k p) e)
        | inr e ↦ elim (Bool-cases (is_defined (get k p))) [
          | inr d ↦ inl d
          | inl d ↦
              let u = same-undef (get k p) in
              let here = rw key at h in absurd (ground (arith, here, e, u, d))
        ]
      ]
]

differs_on-Differs :
    (ks : List ConfigKey) (o p : Object)
    → differs_on ks o p ≡ true
    → has_key ts_auth_key_configured ks ≡ false
    → Differs o p
unfolding differs_on has_key
differs_on-Differs [] o p h out = absurd (cc)
differs_on-Differs (j ∷ ks) o p h out = elim (Bool-cases (same (get j o) (get j p))) [
  | inl e ↦ differs_on-Differs ks o p (ground (arith, e)) (ground arith)
  | inr e ↦ elim (Bool-cases (is_defined (get j p))) [
    | inr d ↦
        let u = same-undef (get j p) in
        differs_on-Differs ks o p (ground (arith, u, d)) (ground arith)
    | inl d ↦ (
      j,
      λ key. absurd (
          let other : eq_key j ts_auth_key_configured ≡ false = ground arith in
          let equal = (eq_key_iff j ts_auth_key_configured).1 key in cc),
      d,
      λ equal. absurd (let v = value-same (get j p) in let w = rw equal at e in cc),
    )
  ]
]

-- isConfigDifferent tells a difference just where the second configuration has a value at some key, tsAuthKeyConfigured left
-- out, that the first one does not have there; and between a configuration into which the values read of a shell file are
-- merged, and those values, it tells none.
pub is_config_different_lem :
    (o p : Object) (shell : Assoc Text Text)
    → (((is_config_different o p ≡ true) × Differs o p)
        ⊎ ((is_config_different o p ≡ false) × Agrees o p))
      × (is_config_different (spread o (map_shell_to_ts shell)) (map_shell_to_ts shell) ≡ false)
unfolding is_config_different
is_config_different_lem o p shell = (
  elim (Bool-cases (differs_on compared_keys o p)) [
    | inl e ↦ inl (e, differs_on-Differs compared_keys o p e left_out)
    | inr e ↦ inr (
      e,
      λ k. elim (compared k) [
        | inl only ↦ inl only
        | inr there ↦ inr (differs_on-Agrees compared_keys o p k e there)
      ],
    )
  ],
  is_config_different-spread shell o,
)
