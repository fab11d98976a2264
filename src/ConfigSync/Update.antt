-- ===== src/ConfigSync/Update.antt =====
-- updateShellConfig against parseShellConfig: what each shell key reads after an update.
use mathlib.Core.Path.{subst}
use incus_unraid.Prelude.{
  Text, true, ◌≡◌, refl, sym, ap, ◌∙◌, some, none, Option, Option-cases, Bool-cases, inl, inr, List,
  [], ◌∷◌, ◌++◌, arith, All, eq_text, eq_text_iff, if◌then◌else◌, lookup, lookup-insert, ◌==◌,
  text_eq,
}
use incus_unraid.Config.{ConfigKey, key_eq, eq_key, Object, get, eq_key_iff}
use incus_unraid.ConfigSync.Mapping.{key_map, format_shell_value}
use incus_unraid.ConfigSync.Shell.{
  parse_value, assignment, find_key, target, written, kept_comment, is_defined, store, parse_lines,
  rewrite_for, rewrite_line, is_key, seen,
}
use incus_unraid.ConfigSync.Quoting.{IsInert, quoted, parse_value-quoted}
use incus_unraid.ConfigSync.Names.{assignment-IsPart}
use incus_unraid.ConfigSync.Written.{
  assignment-written, kept_comment-Tail, find_key-shell_key, shell_key-find_key,
}

-- The value that key `n` has after a line, if it had `o` before.
abbrev pub value_at : Text → Option (Text × Text) → Option Text → Option Text
value_at n none o = o
value_at n (some (key, val)) o = if key == n then some (parse_value val) else o

unfoldable pub last_value : Text → List Text → Option Text → Option Text
last_value n [] o = o
last_value n (line ∷ lines) o = last_value n lines (value_at n (assignment line) o)

lookup-store :
    (n : Text) (a : Option (Text × Text)) (r : List (Text × Text))
    → lookup n (store a r) ≡ value_at n a (lookup n r)
lookup-store n none r = refl
lookup-store n (some (key, val)) r = lookup-insert key n (parse_value val) r

pub lookup-parse_lines :
    (n : Text) (lines : List Text) (r : List (Text × Text))
    → lookup n (parse_lines lines r) ≡ last_value n lines (lookup n r)
unfolding parse_lines last_value
lookup-parse_lines n [] r = refl
lookup-parse_lines n (line ∷ lines) r =
    lookup-parse_lines n lines (store (assignment line) r)
    ∙ ap (last_value n lines) (lookup-store n (assignment line) r)

pub last_value-append :
    (n : Text) (ls ms : List Text) (o : Option Text)
    → last_value n (ls ++ ms) o ≡ last_value n ms (last_value n ls o)
unfolding last_value
last_value-append n [] ms o = refl
last_value-append n (l ∷ ls) ms o = last_value-append n ls ms (value_at n (assignment l) o)

-- Every value of the update stays as it is between single quotes, on one line.
abbrev pub IsInertUpdate : Object → Type 0
IsInertUpdate = All (λ e. IsInert (format_shell_value e.0 e.1))

pub IsInert-get :
    (u : Object) (k : ConfigKey)
    → IsInertUpdate u
    → is_defined (get k u) ≡ true
    → IsInert (format_shell_value k (get k u))
unfolding get lookup
IsInert-get [] k i d = absurd (cc)
IsInert-get ((j, v) ∷ u) k i d = elim (Bool-cases (eq_key j k)) [
  | inl e ↦ rw e (subst (λ m. IsInert (format_shell_value m v)) ((eq_key_iff j k).0 e) i.0)
  | inr e ↦ rw e (IsInert-get u k i.1 (rw e at d))
]

-- A key that the update sets: found in the map, defined in the update.
abbrev pub Targets : Object → Text → ConfigKey → Type 0
Targets u n k = (find_key n key_map ≡ some k) × (is_defined (get k u) ≡ true)

pub target-Targets : (u : Object) (n : Text) {k : ConfigKey} → target u n ≡ some k → Targets u n k
unfolding target
target-Targets u n {k} h = elim (Option-cases (find_key n key_map)) [
  | inl e ↦ absurd (let g = rw (e, target) at h in cc)
  | inr (j, e) ↦ elim (Bool-cases (is_defined (get j u))) [
    | inl d ↦
        let same : j ≡ k = (let g = rw d at (rw (e, target) at h) in cc) in
        subst (Targets u n) same (e, d)
    | inr d ↦ absurd (let g = rw d at (rw (e, target) at h) in cc)
  ]
]

pub Targets-target : (u : Object) (n : Text) {k : ConfigKey} → Targets u n k → target u n ≡ some k
unfolding target
Targets-target u n (e, d) = rw (e, target) (rw d)

-- two names with one target are one name
pub target_unique :
    (u : Object) (n m : Text) {k : ConfigKey} → target u n ≡ some k → target u m ≡ some k → n ≡ m
target_unique u n m {k} h g =
    let e = shell_key-find_key n (target-Targets u n h).0 in
    let f = shell_key-find_key m (target-Targets u m g).0 in cc

-- What the callback makes of one line.
pub data Rewritten (u : Object) (line : Text) : Type 0 where
  kept :
      (rewrite_line u line ≡ (line, none))
      → ((key val : Text) → assignment line ≡ some (key, val) → target u key ≡ none)
      → Rewritten u line
  changed :
      (key val val' : Text) (k : ConfigKey)
      → assignment line ≡ some (key, val)
      → target u key ≡ some k
      → (rewrite_line u line).1 ≡ some k
      → assignment (rewrite_line u line).0 ≡ some (key, val')
      → parse_value val' ≡ format_shell_value k (get k u)
      → Rewritten u line

rewrite_for-changed :
    (u : Object) (line key val : Text) {k : ConfigKey}
    → target u key ≡ some k
    → rewrite_for u line (some (key, val)) ≡ (written key k (get k u) ++ kept_comment val, some k)
rewrite_for-changed u line key val h = rw (h, rewrite_for)

pub rewrite_line-Rewritten : (u : Object) (line : Text) → IsInertUpdate u → Rewritten u line
unfolding rewrite_line
rewrite_line-Rewritten u line i = elim (Option-cases (assignment line)) [
  | inl e ↦ kept (rw (e, rewrite_line)) (λ key val f. absurd (cc))
  | inr ((key, val), e) ↦ elim (Option-cases (target u key)) [
    | inl t ↦
        kept (rw (e, rewrite_line) (rw (t, rewrite_for)))
          (λ key' val' f. (let same : key ≡ key' = cc in rw (sym same) t))
    | inr (k, t) ↦
        let (found, defined) = target-Targets u key t in
        let name = (find_key-shell_key k (shell_key-find_key key found)).1 in
        let inert = IsInert-get u k i defined in
        let tail = kept_comment-Tail val (assignment-IsPart b'\n' line e).0 in
        let new : rewrite_line u line ≡ (written key k (get k u) ++ kept_comment val, some k) =
          rw (e, rewrite_line) (rewrite_for-changed u line key val t) in
        changed key val (quoted (format_shell_value k (get k u)) ++ kept_comment val) k e t
          (ap (λ r. r.1) new)
          (ap (λ r. assignment r.0) new ∙ assignment-written key k (get k u) name inert tail)
          (parse_value-quoted (format_shell_value k (get k u)) inert.0 tail)
  ]
]

module _ (u : Object) (n : Text) (i : IsInertUpdate u) where
  -- A key that the update does not set reads the same behind every line.
  pub value-untargeted :
      (line : Text) (o : Option Text)
      → target u n ≡ none
      → value_at n (assignment (rewrite_line u line).0) o ≡ value_at n (assignment line) o
  value-untargeted line o h = elim (rewrite_line-Rewritten u line i) [
    | kept same free ↦ rw same
    | changed key val val' k a t seen a' p ↦ ground (arith, eq_text_iff key n)
  ]

  module _ (k : ConfigKey) (h : target u n ≡ some k) where
    value-free :
        (line : Text) (o : Option Text)
        → ((key val : Text) → assignment line ≡ some (key, val) → target u key ≡ none)
        → value_at n (assignment line) o ≡ o
    value-free line o free = elim (Option-cases (assignment line)) [
      | inl e ↦ rw e
      | inr ((key, val), e) ↦ rw e (ground (arith, eq_text_iff key n, free key val e))
    ]

    pub value-targeted :
        (line : Text) (o : Option Text)
        → value_at n (assignment (rewrite_line u line).0) o
          ≡ (if is_key k (rewrite_line u line).1 then some (format_shell_value k (get k u)) else o)
    value-targeted line o = elim (rewrite_line-Rewritten u line i) [
      | kept same free ↦ rw same (value-free line o (λ key val a. free key val a))
      | changed key val val' j a t marked a' p ↦ rw a' (
          rw marked (elim (Bool-cases (eq_text key n)) [
            | inl e ↦
                let same : j ≡ k = (let f = (eq_text_iff key n).0 e in cc) in
                rw e (
                  rw ((eq_key_iff j k).1 same)
                    (ap some (p ∙ ap (λ m. format_shell_value m (get m u)) same)))
            | inr e ↦ elim (Bool-cases (eq_key j k)) [
              | inl f ↦
                  let same : j ≡ k = (eq_key_iff j k).0 f in
                  let met = target_unique u key n (t ∙ ap some same) h in
                  absurd (let g = (eq_text_iff key n).1 met in cc)
              | inr f ↦ rw e (rw f)
            ]
          ]))
    ]
