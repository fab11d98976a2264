-- ===== src/ConfigSync/Written.antt =====
-- What parseShellConfig makes of a line that updateShellConfig writes, and of its key.
use mathlib.Core.Option
use mathlib.Core.Path.{subst}
use mathlib.Core.List.{append_assoc, append-nil}
use incus_unraid.Prelude.{
  ℕ, suc, ◌-◌, ◌<◌, Text, Bool, true, false, ◌&&◌, ◌≡◌, refl, sym, ap, ◌∙◌, some, none, Option,
  Option-cases, Bool-cases, inl, inr, List, [], ◌∷◌, ◌++◌, nat_beq, arith, length, drop, take_all,
  length-drop, trim_end, substring, All, is_space, eq_text, eq_text_iff, text_eq,
}
use incus_unraid.Prelude.TextLaws.{trim_end-append, trim_end-drop}
use incus_unraid.Config.{ConfigKey, key_eq, eq_key, enabled, ts_auth_key_configured, Value}
use incus_unraid.ConfigSync.Mapping.{key_map, format_shell_value}
use incus_unraid.ConfigSync.Shell.{
  Quote, unquoted, next_quote, is_double, is_unquoted, find_hash, find_unquoted_hash, assignment,
  find_key, shell_key, written, kept_comment,
}
use incus_unraid.ConfigSync.Quoting.{
  IsInert, quoted, Tail, bare, comment, shell_single_quote-inert, trim_end-quoted,
}
use incus_unraid.ConfigSync.Names.{IsName, is_name_char, assignment-line}

-- position `i` of `s` holds a `#`
abbrev HashAt : ℕ → Text → Type 0
HashAt i s = (r : Text) × (i < length s) × (drop i s ≡ b'#' ∷ r)

HashAt-cons :
    (c : ℕ) (s : Text) (o : Option ℕ) {i : ℕ}
    → ((j : ℕ) → o ≡ some j → HashAt j s)
    → Option.map suc o ≡ some i
    → HashAt i (c ∷ s)
HashAt-cons c s none f h = absurd (cc)
HashAt-cons c s (some j) {i} f h =
    let (r, lt, d) = f j refl in
    let same : suc j ≡ i = ground arith in subst (λ n. HashAt n (c ∷ s)) same (r, omega arith, d)

find_hash-HashAt : (q : Quote) (e : Bool) (s : Text) (i : ℕ) → find_hash q e s ≡ some i → HashAt i s
unfolding find_hash
find_hash-HashAt q true [] i h = absurd (cc)
find_hash-HashAt q false [] i h = absurd (cc)
find_hash-HashAt q true (c ∷ s) i h =
    HashAt-cons c s (find_hash q false s) (find_hash-HashAt q false s) h
find_hash-HashAt q false (c ∷ s) i h = elim (Bool-cases (nat_beq c b'\\' && is_double q)) [
  | inl e ↦ HashAt-cons c s (find_hash q true s) (find_hash-HashAt q true s) (rw e at h)
  | inr e ↦ elim (Bool-cases (nat_beq c b'#' && is_unquoted q)) [
    | inl f ↦
        let zero_is : 0 ≡ i = (let g = rw f at (rw e at h) in cc) in
        let hash : c ≡ b'#' = ground arith in
        subst (λ n. HashAt n (c ∷ s)) zero_is (s, omega arith, ap (λ d. d ∷ s) hash)
    | inr f ↦
        HashAt-cons c s (find_hash (next_quote q c) false s)
          (find_hash-HashAt (next_quote q c) false s) (rw f at (rw e at h))
  ]
]

substring_rest : (s : Text) (i : ℕ) → i < length s → substring s i (length s) ≡ drop i s
unfolding substring
substring_rest s i h = ground (arith, take_all (length s - i) (drop i s), length-drop i s)

-- A kept comment is one that parseShellConfig cuts off again.
pub kept_comment-Tail : (val : Text) → trim_end val ≡ val → Tail (kept_comment val)
unfolding kept_comment
kept_comment-Tail val h = elim (Option-cases (find_unquoted_hash val)) [
  | inl e ↦ rw (e, kept_comment) bare
  | inr (i, e) ↦
      let (r, lt, d) = find_hash-HashAt unquoted false val i e in
      let rest = substring_rest val i lt ∙ d in
      rw (e, kept_comment)
        (rw rest (comment r (subst (λ t. trim_end t ≡ t) d (trim_end-drop i val h))))
]

-- `right` is what stands behind `=` on a written line.
Tail-trimmed : (s : Text) {t : Text} → Tail t → trim_end (quoted s ++ t) ≡ quoted s ++ t
Tail-trimmed s bare = rw append-nil (trim_end-quoted s)
Tail-trimmed s (comment c e) =
    rw (sym (append_assoc (quoted s) (b' ' ∷ []) (b'#' ∷ c)))
      (trim_end-append (quoted s ++ b' ' ∷ []) b'#' c e)

-- A written line assigns the quoted value, with whatever comment was kept behind it.
pub assignment-written :
    (name : Text) (k : ConfigKey) (v : Value) {t : Text}
    → IsName name
    → IsInert (format_shell_value k v)
    → Tail t
    → assignment (written name k v ++ t) ≡ some (name, quoted (format_shell_value k v) ++ t)
unfolding written
assignment-written [] k v n i t = absurd n
assignment-written (c ∷ s) k v {t} n i tail =
    let val = format_shell_value k v in
    rw (shell_single_quote-inert val i.0) (
      ap assignment (append_assoc (c ∷ s) (b'=' ∷ quoted val) t)
      ∙ assignment-line c s b'\'' ((val ++ b'\'' ∷ []) ++ t) n (unfold is_space in refl)
          (Tail-trimmed val tail))

abbrev KeyFits : ConfigKey → Option Text → Type 0
KeyFits k none = Unit
KeyFits k (some name) = (find_key name key_map ≡ some k) × IsName name

-- Every shell key is a name, and leads back to its configuration key.
shell_key-fits : (k : ConfigKey) → KeyFits k (shell_key k key_map)
unfolding shell_key find_key is_name_char eq_text eq_key
shell_key-fits enabled = (refl, refl)
shell_key-fits ts_auth_key_configured = tt
shell_key-fits _ = (refl, refl)

pub find_key-shell_key :
    (k : ConfigKey) {name : Text}
    → shell_key k key_map ≡ some name
    → (find_key name key_map ≡ some k) × IsName name
find_key-shell_key k e = subst (KeyFits k) e (shell_key-fits k)

find_key-All :
    (P : ConfigKey → Text → Type 0) (key : Text) (m : List (ConfigKey × Text)) {k : ConfigKey}
    → All (λ e. P e.0 e.1) m
    → find_key key m ≡ some k
    → P k key
unfolding find_key
find_key-All P key [] a h = absurd (cc)
find_key-All P key ((j, name) ∷ m) {k} a h = elim (Bool-cases (eq_text name key)) [
  | inl e ↦
      let here : j ≡ k = (let g = rw e at h in cc) in
      subst (λ i. P i key) here (subst (P j) ((eq_text_iff name key).0 e) a.0)
  | inr e ↦ find_key-All P key m a.1 (rw e at h)
]

-- A key that is found is the shell key of what was found.
pub shell_key-find_key :
    (key : Text) {k : ConfigKey} → find_key key key_map ≡ some k → shell_key k key_map ≡ some key
unfolding shell_key eq_key
shell_key-find_key key h =
    find_key-All (λ k name. shell_key k key_map ≡ some name) key key_map (assumption refl) h
