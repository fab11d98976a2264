-- ===== src/Config.antt =====
-- unraid-api-plugin-incus/src/config.entity.ts: the configuration `IncusConfig`, its keys and its
-- defaults. A `Partial<IncusConfig>` is an insertion-ordered object; a key that is absent and a key
-- that holds `undefined` both read as `undef`, and differ in a spread.
use incus_unraid.Prelude.{
  ℕ, Text, codes, Bool, true, false, ◌≡◌, refl, ◌↔◌, ap, ◌∙◌, sym, Option, none, some, [], ◌∷◌,
  nat_beq, nat_beq_iff, Eq, ◌==◌, Assoc, lookup, insert, lookup-insert, if◌then◌else◌, arith,
}

-- `keyof IncusConfig`
pub data ConfigKey : Type 0 where
  enabled state_dir storage_driver storage_source : ConfigKey
  storage_pool_name jail_bridge jail_subnet jail_nat : ConfigKey
  jail_ipv6 acl_name acl_block acl_allow : ConfigKey
  acl_default_egress acl_default_ingress jail_profile jail_image : ConfigKey
  jail_nesting jail_cpu jail_memory jail_workspace_root : ConfigKey
  jail_agent_uid jail_agent_gid jail_bind_mounts ts_auth_key : ConfigKey
  ts_auth_key_configured dashboard_widget_enable : ConfigKey

-- A number for each key, by which keys are compared.
number : ConfigKey → ℕ
number enabled = 0
number state_dir = 1
number storage_driver = 2
number storage_source = 3
number storage_pool_name = 4
number jail_bridge = 5
number jail_subnet = 6
number jail_nat = 7
number jail_ipv6 = 8
number acl_name = 9
number acl_block = 10
number acl_allow = 11
number acl_default_egress = 12
number acl_default_ingress = 13
number jail_profile = 14
number jail_image = 15
number jail_nesting = 16
number jail_cpu = 17
number jail_memory = 18
number jail_workspace_root = 19
number jail_agent_uid = 20
number jail_agent_gid = 21
number jail_bind_mounts = 22
number ts_auth_key = 23
number ts_auth_key_configured = 24
number dashboard_widget_enable = 25

of_number : ℕ → ConfigKey
of_number n =
    if nat_beq n 0
    then enabled
    else if nat_beq n 1
    then state_dir
    else if nat_beq n 2
    then storage_driver
    else if nat_beq n 3
    then storage_source
    else if nat_beq n 4
    then storage_pool_name
    else if nat_beq n 5
    then jail_bridge
    else if nat_beq n 6
    then jail_subnet
    else if nat_beq n 7
    then jail_nat
    else if nat_beq n 8
    then jail_ipv6
    else if nat_beq n 9
    then acl_name
    else if nat_beq n 10
    then acl_block
    else if nat_beq n 11
    then acl_allow
    else if nat_beq n 12
    then acl_default_egress
    else if nat_beq n 13
    then acl_default_ingress
    else if nat_beq n 14
    then jail_profile
    else if nat_beq n 15
    then jail_image
    else if nat_beq n 16
    then jail_nesting
    else if nat_beq n 17
    then jail_cpu
    else if nat_beq n 18
    then jail_memory
    else if nat_beq n 19
    then jail_workspace_root
    else if nat_beq n 20
    then jail_agent_uid
    else if nat_beq n 21
    then jail_agent_gid
    else if nat_beq n 22
    then jail_bind_mounts
    else if nat_beq n 23
    then ts_auth_key
    else if nat_beq n 24
    then ts_auth_key_configured
    else dashboard_widget_enable

of_number-number : (k : ConfigKey) → of_number (number k) ≡ k
unfolding of_number number
of_number-number enabled = refl
of_number-number state_dir = refl
of_number-number storage_driver = refl
of_number-number storage_source = refl
of_number-number storage_pool_name = refl
of_number-number jail_bridge = refl
of_number-number jail_subnet = refl
of_number-number jail_nat = refl
of_number-number jail_ipv6 = refl
of_number-number acl_name = refl
of_number-number acl_block = refl
of_number-number acl_allow = refl
of_number-number acl_default_egress = refl
of_number-number acl_default_ingress = refl
of_number-number jail_profile = refl
of_number-number jail_image = refl
of_number-number jail_nesting = refl
of_number-number jail_cpu = refl
of_number-number jail_memory = refl
of_number-number jail_workspace_root = refl
of_number-number jail_agent_uid = refl
of_number-number jail_agent_gid = refl
of_number-number jail_bind_mounts = refl
of_number-number ts_auth_key = refl
of_number-number ts_auth_key_configured = refl
of_number-number dashboard_widget_enable = refl

unfoldable pub eq_key : ConfigKey → ConfigKey → Bool
unfolding number
eq_key j k = nat_beq (number j) (number k)

pub eq_key_iff : (j k : ConfigKey) → (eq_key j k ≡ true) ↔ (j ≡ k)
unfolding eq_key
eq_key_iff j k = (
  λ h. sym (of_number-number j) ∙ ap of_number ((nat_beq_iff _ _).0 h) ∙ of_number-number k,
  λ e. (nat_beq_iff _ _).1 (ap number e),
)

instance abbrev pub key_eq : Eq ConfigKey
key_eq = record { beq = eq_key; beq_iff = eq_key_iff }

-- A JavaScript value of a field.
pub data Value : Type 0 where
  undef : Value
  bool : Bool → Value
  text : Text → Value

-- `Partial<IncusConfig>`
abbrev pub Object : Type 0
Object = Assoc ConfigKey Value

abbrev pub or_undef : Option Value → Value
or_undef none = undef
or_undef (some v) = v

-- `config[key]`
unfoldable pub get : ConfigKey → Object → Value
get k o = or_undef (lookup k o)

-- `{ ...o, ...p }`
unfoldable pub spread : Object → Object → Object
spread o [] = o
spread o ((k, v) ∷ p) = spread (insert k v o) p

-- `Boolean(v)`
unfoldable pub truthy : Value → Bool
truthy undef = false
truthy (bool b) = b
truthy (text []) = false
truthy (text (c ∷ cs)) = true

pub get-insert :
    (k j : ConfigKey) (v : Value) (o : Object)
    → get j (insert k v o) ≡ (if k == j then v else get j o)
unfolding get
get-insert k j v o = simp lookup-insert (ground arith)

-- `configFeature()`: the defaults.
abbrev pub default_config : Object
default_config =
    (enabled, bool false)
    ∷ (state_dir, text (codes "/mnt/user/appdata/incus"))
    ∷ (storage_driver, text (codes "dir"))
    ∷ (storage_source, text (codes "nvme/incus"))
    ∷ (storage_pool_name, text (codes "default"))
    ∷ (jail_bridge, text (codes "agentbr0"))
    ∷ (jail_subnet, text (codes "198.18.0.1/24"))
    ∷ (jail_nat, bool true)
    ∷ (jail_ipv6, text (codes "none"))
    ∷ (acl_name, text (codes "agent-block-lan"))
    ∷ (
      acl_block,
      text (codes "10.0.0.0/8,172.16.0.0/12,192.168.0.0/16,169.254.0.0/16,100.64.0.0/10"),
    )
    ∷ (acl_allow, text (codes ""))
    ∷ (acl_default_egress, text (codes "allow"))
    ∷ (acl_default_ingress, text (codes "drop"))
    ∷ (jail_profile, text (codes "agent-jail"))
    ∷ (jail_image, text (codes "images:debian/trixie/cloud"))
    ∷ (jail_nesting, bool false)
    ∷ (jail_cpu, text (codes "2"))
    ∷ (jail_memory, text (codes "4GiB"))
    ∷ (jail_workspace_root, text (codes "/srv/agent-jails"))
    ∷ (jail_agent_uid, text (codes "1000"))
    ∷ (jail_agent_gid, text (codes "1000"))
    ∷ (jail_bind_mounts, text (codes ""))
    ∷ (ts_auth_key, text (codes ""))
    ∷ (ts_auth_key_configured, bool false)
    ∷ (dashboard_widget_enable, bool true)
    ∷ []
