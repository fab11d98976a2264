-- ===== src/ConfigSync/Merged.antt =====
-- unraid-api-plugin-incus/src/config-sync.service.ts: what a spread of two configurations holds.
use incus_unraid.Prelude.{
  true, false, ◌≡◌, refl, ap, ◌∙◌, inl, inr, Option, none, some, List, [], ◌∷◌, if◌then◌else◌, Text,
  eq_text_iff, text_eq, lookup, insert, lookup-insert, Assoc, Bool-cases, arith,
}
use incus_unraid.Config.{
  ConfigKey, key_eq, eq_key, eq_key_iff, Object, Value, undef, bool, text, get, spread, get-insert,
}
use incus_unraid.ConfigSync.Mapping.{
  Reader, as_is, is_enabled, is_true, is_nonempty, read, rules, assign, apply_rules,
  map_shell_to_ts, same, differs_on, compared_keys, is_config_different,
}
use incus_unraid.ConfigSync.Shell.{is_defined}

-- An object that has no key twice and holds no `undefined`.
abbrev pub IsFull : Object → Type 0
IsFull [] = Unit
IsFull ((k, v) ∷ o) = (lookup k o ≡ none) × (is_defined v ≡ true) × IsFull o

-- What a spread reads: the second object's value where it has one, else the first one's.
pub get-spread :
    (k : ConfigKey) (o p : Object)
    → IsFull p
    → get k (spread o p) ≡ (if is_defined (get k p) then get k p else get k o)
unfolding spread get lookup
get-spread k o [] h = refl
get-spread k o ((j, v) ∷ p) (once, here, full) = elim (Bool-cases (eq_key j k)) [
  | inl e ↦
      let same_key : j ≡ k = (eq_key_iff j k).0 e in
      let gone : lookup k p ≡ none = rw same_key at once in
      get-spread k (insert j v o) p full ∙ rw gone (get-insert j k v o ∙ rw e (rw here refl))
  | inr e ↦
      let older : get k (insert j v o) ≡ get k o = get-insert j k v o ∙ rw e refl in
      rw e (
        get-spread k (insert j v o) p full
        ∙ ap (λ x. if is_defined (get k p) then get k p else x) older)
]

insert-IsFull :
    (k : ConfigKey) (v : Value) (o : Object)
    → is_defined v ≡ true
    → IsFull o
    → IsFull (insert k v o)
unfolding insert lookup
insert-IsFull k v [] h f = (refl, h, tt)
insert-IsFull k v ((j, w) ∷ o) h (once, here, full) = elim (Bool-cases (eq_key j k)) [
  | inl e ↦ rw e (once, h, full)
  | inr e ↦
      let other : eq_key k j ≡ false = ground (arith, eq_key_iff j k, eq_key_iff k j) in
      rw e (lookup-insert k j v o ∙ rw other once, here, insert-IsFull k v o h full)
]

read-is_defined : (r : Reader) (t : Text) → is_defined (read r t) ≡ true
unfolding read
read-is_defined as_is t = refl
read-is_defined is_enabled t = refl
read-is_defined is_true t = refl
read-is_defined is_nonempty t = refl

assign-IsFull :
    (k : ConfigKey) (r : Reader) (v : Option Text) (o : Object) → IsFull o → IsFull (assign k r v o)
assign-IsFull k r none o f = f
assign-IsFull k r (some t) o f = insert-IsFull k (read r t) o (read-is_defined r t) f

apply_rules-IsFull :
    (rs : List (Text × ConfigKey × Reader)) (shell : Assoc Text Text) (o : Object)
    → IsFull o
    → IsFull (apply_rules rs shell o)
apply_rules-IsFull [] shell o f = f
apply_rules-IsFull ((name, k, r) ∷ rs) shell o f =
    apply_rules-IsFull rs shell (assign k r (lookup name shell) o)
      (assign-IsFull k r (lookup name shell) o f)

pub map_shell_to_ts-IsFull : (shell : Assoc Text Text) → IsFull (map_shell_to_ts shell)
unfolding map_shell_to_ts
map_shell_to_ts-IsFull shell = apply_rules-IsFull rules shell [] tt

same_self : (v : Value) → same v v ≡ true
unfolding same
same_self undef = refl
same_self (bool true) = refl
same_self (bool false) = refl
same_self (text t) = (eq_text_iff t t).1 refl

same-undef : (v : Value) → is_defined v ≡ false → same v undef ≡ true
unfolding same
same-undef undef h = refl
same-undef (bool b) h = absurd (cc)
same-undef (text t) h = absurd (cc)

differs_on-spread :
    (ks : List ConfigKey) (o p : Object) → IsFull p → differs_on ks (spread o p) p ≡ false
unfolding differs_on
differs_on-spread [] o p f = refl
differs_on-spread (k ∷ ks) o p f = elim (Bool-cases (is_defined (get k p))) [
  | inl d ↦
      let reads : get k (spread o p) ≡ get k p = get-spread k o p f ∙ rw d refl in
      rw reads (rw (same_self (get k p)) (differs_on-spread ks o p f))
  | inr d ↦ rw (same-undef (get k p) d) (ground (arith, differs_on-spread ks o p f))
]

-- Once the values read of incus.cfg are merged into a configuration, the two no longer differ.
pub is_config_different-spread :
    (shell : Assoc Text Text) (current : Object)
    → is_config_different (spread current (map_shell_to_ts shell)) (map_shell_to_ts shell) ≡ false
unfolding is_config_different
is_config_different-spread shell current =
    differs_on-spread compared_keys current (map_shell_to_ts shell) (map_shell_to_ts-IsFull shell)
