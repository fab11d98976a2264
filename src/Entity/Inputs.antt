-- ===== src/Entity/Inputs.antt =====
-- unraid-api-plugin-incus/src/config.entity.ts: PATTERNS and the validators of IncusConfigInput. The validators of
-- class-validator are what their documentation says: @Matches takes a string that matches, @IsString and @IsBoolean the
-- type, @IsOptional lets `undefined` by (an explicit `null` is left out, as in Config).
use incus_unraid.Prelude.{ℕ, Bool, true, false, ◌&&◌, ◌||◌, [], ◌∷◌, leb, nat_beq, Text, codes}
use incus_unraid.Config
use incus_unraid.Config.{ConfigKey, Value, undef, bool, text, Object}
use incus_unraid.Entity.{is_safe_workspace_root_syntax, is_safe_bind_mounts_syntax}
use incus_unraid.Entity.Regex.{Regex, empty, one, seq, alt, star, matches, times, up_to, literal}

abbrev pub alnum : ℕ → Bool
alnum c = (leb 65 c && leb c 90) || (leb 97 c && leb c 122) || (leb 48 c && leb c 57)

abbrev pub digit : Regex
digit = one (λ c. leb 48 c && leb c 57)

-- r{1,n+1}
abbrev pub one_to : ℕ → Regex → Regex
one_to n r = seq r (up_to n r)

abbrev pub ifname : Regex
ifname = one_to 14 (one (λ c. alnum c || nat_beq c 95 || nat_beq c 45))

abbrev pub cidr : Regex
cidr = seq (one_to 2 digit) (
    seq (times 3 (seq (one (nat_beq 46)) (one_to 2 digit)))
      (seq (one (nat_beq 47)) (one_to 1 digit)))

abbrev pub cidr_list : Regex
cidr_list = alt empty (seq cidr (star (seq (one (nat_beq 44)) cidr)))

abbrev pub allow_drop : Regex
allow_drop = alt (literal (codes "allow")) (literal (codes "drop"))

-- [A-Za-z0-9:/_.-]
abbrev pub shell_safe_token : Regex
shell_safe_token = one_to 254 (
    one (λ c.
      alnum c || nat_beq c 58 || nat_beq c 47 || nat_beq c 95 || nat_beq c 46 || nat_beq c 45))

abbrev pub cpu_cap : Regex
cpu_cap = alt empty (one_to 3 digit)

abbrev pub memory_unit : Regex
memory_unit = alt (literal (codes "B")) (
    alt (literal (codes "KiB"))
      (alt (literal (codes "MiB")) (alt (literal (codes "GiB")) (literal (codes "TiB")))))

abbrev pub digits : Regex
digits = seq digit (star digit)

abbrev pub memory_cap : Regex
memory_cap = alt empty (seq digits (seq (alt empty (seq (one (nat_beq 46)) digits)) memory_unit))

-- /[A-Za-z0-9_./-]*
abbrev pub absolute_path : Regex
absolute_path =
    seq (one (nat_beq 47))
      (star (one (λ c. alnum c || nat_beq c 95 || nat_beq c 46 || nat_beq c 47 || nat_beq c 45)))

abbrev pub uid_gid : Regex
uid_gid = one_to 9 digit

abbrev pub ts_key : Regex
ts_key = alt empty (one_to 254 (one (λ c. alnum c || nat_beq c 95 || nat_beq c 45)))

abbrev pub dir_or_zfs : Regex
dir_or_zfs = alt (literal (codes "dir")) (literal (codes "zfs"))

-- The validator of a field.
pub data Validator : Type 0 where
  is_boolean is_string unlisted : Validator
  pattern_of : Regex → Validator
  constraint : (Text → Bool) → Validator

abbrev pub validator : ConfigKey → Validator
validator Config.enabled = is_boolean
validator Config.state_dir = pattern_of absolute_path
validator Config.storage_driver = pattern_of dir_or_zfs
validator Config.storage_source = is_string
validator Config.storage_pool_name = is_string
validator Config.jail_bridge = pattern_of ifname
validator Config.jail_subnet = pattern_of cidr_list
validator Config.jail_nat = is_boolean
validator Config.jail_ipv6 = pattern_of (literal (codes "none"))
validator Config.acl_name = pattern_of shell_safe_token
validator Config.acl_block = pattern_of cidr_list
validator Config.acl_allow = pattern_of cidr_list
validator Config.acl_default_egress = pattern_of allow_drop
validator Config.acl_default_ingress = pattern_of allow_drop
validator Config.jail_profile = pattern_of shell_safe_token
validator Config.jail_image = pattern_of shell_safe_token
validator Config.jail_nesting = is_boolean
validator Config.jail_cpu = pattern_of cpu_cap
validator Config.jail_memory = pattern_of memory_cap
validator Config.jail_workspace_root = constraint is_safe_workspace_root_syntax
validator Config.jail_agent_uid = pattern_of uid_gid
validator Config.jail_agent_gid = pattern_of uid_gid
validator Config.jail_bind_mounts = constraint is_safe_bind_mounts_syntax
validator Config.ts_auth_key = pattern_of ts_key
validator Config.ts_auth_key_configured = unlisted
validator Config.dashboard_widget_enable = is_boolean

-- Whether a validator passes a value; a field that the class does not list is refused.
unfoldable pub passes : Validator → Value → Bool
unfolding matches
passes unlisted v = false
passes is_boolean (bool b) = true
passes is_string (text t) = true
passes (pattern_of r) (text t) = matches r t
passes (constraint f) (text t) = f t
passes _ undef = true
passes _ _ = false

-- IncusConfigInput as a whole
unfoldable pub accepts : Object → Bool
unfolding passes
accepts [] = true
accepts ((k, v) ∷ o) = passes (validator k) v && accepts o
