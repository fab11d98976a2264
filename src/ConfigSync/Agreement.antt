-- ===== src/ConfigSync/Agreement.antt =====
-- mapShellToTS over the rewritten file: the two stores of the configuration agree.
use mathlib.Core.Path.{subst}
use incus_unraid.Prelude.{
  Text, codes, true, false, ◌≡◌, refl, sym, ap, ◌∙◌, some, none, Option, Bool-cases, inl, inr, List,
  [], ◌∷◌, arith, All, if◌then◌else◌, lookup, text_eq, Assoc, eq_text,
}
use incus_unraid.Config.{
  ConfigKey, eq_key, eq_key_iff, key_eq, Value, undef, bool, text, Object, get, truthy, get-insert,
  enabled, jail_nat, jail_nesting, dashboard_widget_enable, ts_auth_key_configured,
}
use incus_unraid.ConfigSync.Mapping.{
  key_map, format_shell_value, Reader, as_is, is_enabled, is_true, is_nonempty, read, rules, assign,
  apply_rules, map_shell_to_ts,
}
use incus_unraid.ConfigSync.Shell.{
  find_key, is_defined, shell_key, target, parse_shell_config, update_shell_config,
}
use incus_unraid.ConfigSync.Written.{find_key-shell_key}
use incus_unraid.ConfigSync.Update.{IsInertUpdate, Targets-target}
use incus_unraid.ConfigSync.Reads.{update-reads}

-- a field that a rule sets from a shell value, or leaves
abbrev field : Reader → Option Text → Value → Value
field r none d = d
field r (some v) d = read r v

abbrev rules_value : ConfigKey → List (Text × ConfigKey × Reader) → Assoc Text Text → Value → Value
rules_value k [] shell d = d
rules_value k ((name, j, r) ∷ rs) shell d =
    rules_value k rs shell (if eq_key j k then field r (lookup name shell) d else d)

get-assign :
    (k j : ConfigKey) (r : Reader) (v : Option Text) (o : Object)
    → get k (assign j r v o) ≡ (if eq_key j k then field r v (get k o) else get k o)
get-assign k j r none o = ground arith
get-assign k j r (some v) o = get-insert j k (read r v) o

get-apply_rules :
    (k : ConfigKey) (rs : List (Text × ConfigKey × Reader)) (shell : Assoc Text Text) (o : Object)
    → get k (apply_rules rs shell o) ≡ rules_value k rs shell (get k o)
get-apply_rules k [] shell o = refl
get-apply_rules k ((name, j, r) ∷ rs) shell o =
    get-apply_rules k rs shell (assign j r (lookup name shell) o)
    ∙ ap (rules_value k rs shell) (get-assign k j r (lookup name shell) o)

abbrev pub reader : ConfigKey → Reader
reader enabled = is_enabled
reader jail_nat = is_true
reader jail_nesting = is_true
reader dashboard_widget_enable = is_true
reader _ = as_is

abbrev Reads : ConfigKey → Option Text → Assoc Text Text → Type 0
Reads k none shell = Unit
Reads k (some name) shell =
    get k (map_shell_to_ts shell) ≡ field (reader k) (lookup name shell) undef

map_shell_to_ts-Reads :
    (k : ConfigKey) (shell : Assoc Text Text) → Reads k (shell_key k key_map) shell
unfolding map_shell_to_ts shell_key eq_key get lookup
map_shell_to_ts-Reads enabled shell = get-apply_rules enabled rules shell []
map_shell_to_ts-Reads ts_auth_key_configured shell = tt
map_shell_to_ts-Reads k shell = get-apply_rules k rules shell []

-- A Boolean for the Boolean fields, a text for the others, or `undefined`.
abbrev pub IsTyped : Reader → Value → Type 0
IsTyped r undef = Unit
IsTyped as_is (text t) = Unit
IsTyped is_enabled (bool b) = Unit
IsTyped is_true (bool b) = Unit
IsTyped _ _ = ⊥

abbrev pub IsTypedUpdate : Object → Type 0
IsTypedUpdate = All (λ e. IsTyped (reader e.0) e.1)

IsTyped-get : (u : Object) (k : ConfigKey) → IsTypedUpdate u → IsTyped (reader k) (get k u)
unfolding get lookup
IsTyped-get [] k t = tt
IsTyped-get ((j, v) ∷ u) k t = elim (Bool-cases (eq_key j k)) [
  | inl e ↦ rw e (subst (λ m. IsTyped (reader m) v) ((eq_key_iff j k).0 e) t.0)
  | inr e ↦ rw e (IsTyped-get u k t.1)
]

-- how formatShellValue writes the fields of one kind
abbrev pub format_by : Reader → Value → Text
format_by is_enabled v = if truthy v then codes "enabled" else codes "disabled"
format_by is_true v = if truthy v then codes "true" else codes "false"
format_by _ undef = codes "undefined"
format_by _ (bool b) = if b then codes "true" else codes "false"
format_by _ (text t) = t

pub format_shell_value-format_by :
    (k : ConfigKey) (v : Value) → format_shell_value k v ≡ format_by (reader k) v
unfolding format_shell_value
format_shell_value-format_by enabled undef = refl
format_shell_value-format_by k undef = refl
format_shell_value-format_by enabled (bool b) = refl
format_shell_value-format_by k (bool b) = refl
format_shell_value-format_by enabled (text t) = refl
format_shell_value-format_by k (text t) = refl

read-format_by :
    (r : Reader) (v : Value) → IsTyped r v → is_defined v ≡ true → read r (format_by r v) ≡ v
unfolding read eq_text truthy
read-format_by r undef t d = absurd (cc)
read-format_by as_is (text s) t d = refl
read-format_by as_is (bool b) t d = absurd t
read-format_by is_enabled (bool true) t d = refl
read-format_by is_enabled (bool false) t d = refl
read-format_by is_enabled (text s) t d = absurd t
read-format_by is_true (bool true) t d = refl
read-format_by is_true (bool false) t d = refl
read-format_by is_true (text s) t d = absurd t
read-format_by is_nonempty (bool b) t d = absurd t
read-format_by is_nonempty (text s) t d = absurd t

target-undefined :
    (u : Object) (n : Text) {k : ConfigKey}
    → find_key n key_map ≡ some k
    → is_defined (get k u) ≡ false
    → target u n ≡ none
unfolding target
target-undefined u n e d = rw (e, target) (rw d)

-- After an update whose values hold no single quote and no line break and have the types of their
-- fields, the configuration read back from the shell file has, at every key that has a shell key,
-- the value of the update where that is defined and else the value read before.
pub update-agrees :
    (content : Text) (u : Object) (k : ConfigKey) (name : Text)
    → IsInertUpdate u
    → IsTypedUpdate u
    → shell_key k key_map ≡ some name
    → get k (map_shell_to_ts (parse_shell_config (update_shell_config content u))) ≡ (
        if is_defined (get k u)
        then get k u
        else get k (map_shell_to_ts (parse_shell_config content)))
update-agrees content u k name i t e =
    let old = parse_shell_config content in
    let new = parse_shell_config (update_shell_config content u) in
    let found = (find_key-shell_key k e).0 in
    subst (λ o. Reads k o new) e (map_shell_to_ts-Reads k new)
    ∙ ap (λ o. field (reader k) o undef) (update-reads content u name i)
    ∙ elim (Bool-cases (is_defined (get k u))) [
      | inl d ↦ rw d (
          rw (Targets-target u name (found, d)) (
            ap (read (reader k)) (format_shell_value-format_by k (get k u))
            ∙ read-format_by (reader k) (get k u) (IsTyped-get u k t) d))
      | inr d ↦ rw d (
          rw (target-undefined u name found d)
            (sym (subst (λ o. Reads k o old) e (map_shell_to_ts-Reads k old))))
    ]
