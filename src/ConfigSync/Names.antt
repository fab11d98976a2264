-- ===== src/ConfigSync/Names.antt =====
-- Lines whose key is a shell name: the shape of every line that updateShellConfig writes.
use mathlib.Core.List.{append_assoc}
use mathlib.Core.Path.{ap₂, subst}
use incus_unraid.Prelude.{
  ℕ, zero, suc, ◌+◌, Text, Bool, true, false, ◌&&◌, ◌||◌, ◌≡◌, refl, sym, ap, ◌∙◌, some, none,
  Option, [], ◌∷◌, ◌++◌, nat_beq, leb, arith, length, every, trim, trim_end, starts_with, index_of,
  substring, has_char, is_space, eq_text, length-append, has_char,
}
use incus_unraid.Prelude.TextLaws.{
  trim_end-append, trim_fixed, index_of-append, substring-left, substring-right, trim_end-trim,
  has_char-trim, has_char-substring,
}
use incus_unraid.ConfigSync.Shell.{assignment, assignment_of, key_value}

-- the characters of a shell key
unfoldable pub is_name_char : ℕ → Bool
is_name_char c = (leb b'A' c && leb c b'Z') || (leb b'0' c && leb c b'9') || nat_beq c b'_'

abbrev pub IsName : Text → Type 0
IsName [] = ⊥
IsName (c ∷ s) = every is_name_char (c ∷ s) ≡ true

name_char-not-space : (c : ℕ) → is_name_char c ≡ true → is_space c ≡ false
unfolding is_name_char is_space
name_char-not-space c h = ground arith

trim_end-every : (s : Text) → every is_name_char s ≡ true → trim_end s ≡ s
unfolding trim_end
trim_end-every [] h = refl
trim_end-every (c ∷ s) h = ground (arith, trim_end-every s, name_char-not-space c)

pub has_char-every :
    (d : ℕ) (s : Text) → is_name_char d ≡ false → every is_name_char s ≡ true → has_char d s ≡ false
unfolding has_char
has_char-every d [] n h = refl
has_char-every d (c ∷ s) n h = ground (arith, has_char-every d s)

module _ (name : Text) (d : ℕ) (ds : Text) where
  -- `name=` in front of a right-hand side
  abbrev line : Text
  line = name ++ b'=' ∷ d ∷ ds

  line-split : line ≡ (name ++ b'=' ∷ []) ++ d ∷ ds
  line-split = sym (append_assoc name (b'=' ∷ []) (d ∷ ds))

  right-line : substring line (length name + 1) (length line) ≡ d ∷ ds
  right-line =
      ap₂ (λ t n. substring t n (length t)) line-split (sym (length-append name (b'=' ∷ [])))
      ∙ substring-right (name ++ b'=' ∷ []) (d ∷ ds)

  trim_end-line : trim_end (d ∷ ds) ≡ d ∷ ds → trim_end line ≡ line
  trim_end-line h = trim_end-append name b'=' (d ∷ ds) (trim_end-append (b'=' ∷ []) d ds h)

-- Behind a first character that is no `#`, a `=` further on makes the line an assignment.
assignment_of-some :
    (c : ℕ) (t : Text) {i : ℕ}
    → nat_beq c b'#' ≡ false
    → index_of (c ∷ t) b'=' ≡ some (suc i)
    → assignment_of (c ∷ t)
      ≡ some (
        trim (substring (c ∷ t) 0 (suc i)),
        trim (substring (c ∷ t) (suc i + 1) (length (c ∷ t))),
      )
assignment_of-some c t h e = unfold assignment_of eq_text starts_with key_value in rw h (rw e)

name_char-not-hash : (c : ℕ) → is_name_char c ≡ true → nat_beq c b'#' ≡ false
unfolding is_name_char
name_char-not-hash c h = ground arith

-- A line `name=right` is read as the assignment of `right` to `name`.
pub assignment-line :
    (c : ℕ) (s : Text) (d : ℕ) (ds : Text)
    → IsName (c ∷ s)
    → is_space d ≡ false
    → trim_end (d ∷ ds) ≡ d ∷ ds
    → assignment ((c ∷ s) ++ b'=' ∷ d ∷ ds) ≡ some (c ∷ s, d ∷ ds)
unfolding assignment
assignment-line c s d ds n sp e =
    let first : is_name_char c ≡ true = ground arith in
    let whole =
      trim_fixed c (s ++ b'=' ∷ d ∷ ds) (name_char-not-space c first)
        (trim_end-line (c ∷ s) d ds e) in
    let key =
      ap trim (substring-left (c ∷ s) (b'=' ∷ d ∷ ds))
      ∙ trim_fixed c s (name_char-not-space c first) (trim_end-every (c ∷ s) n) in
    let right = ap trim (right-line (c ∷ s) d ds) ∙ trim_fixed d ds sp e in
    ap assignment_of whole
    ∙ assignment_of-some c (s ++ b'=' ∷ d ∷ ds) (name_char-not-hash c first) (
        index_of-append (c ∷ s) (d ∷ ds) b'='
          (has_char-every b'=' (c ∷ s) (unfold is_name_char in refl) n))
    ∙ ap₂ (λ a b. some (a, b)) key right

-- a trimmed text with no character of `d` where `t` has none
abbrev pub IsPart : ℕ → Text → Text → Type 0
IsPart d t val = (trim_end val ≡ val) × (has_char d t ≡ false → has_char d val ≡ false)

trim-substring-IsPart : (d a b : ℕ) (t : Text) → IsPart d t (trim (substring t a b))
trim-substring-IsPart d a b t = (
  trim_end-trim (substring t a b),
  λ h. has_char-trim d (substring t a b) (has_char-substring d a b t h),
)

key_value-IsPart :
    (d : ℕ) (t : Text) (o : Option ℕ) {key val : Text}
    → key_value t o ≡ some (key, val)
    → IsPart d t val
unfolding key_value
key_value-IsPart d t none h = absurd (cc)
key_value-IsPart d t (some zero) h = absurd (cc)
key_value-IsPart d t (some (suc i)) {key} {val} h =
    let right = trim (substring t (suc i + 1) (length t)) in
    let same : right ≡ val = cc in
    subst (IsPart d t) same (trim-substring-IsPart d (suc i + 1) (length t) t)

assignment_of-IsPart :
    (d : ℕ) (t : Text) {key val : Text} → assignment_of t ≡ some (key, val) → IsPart d t val
unfolding assignment_of
assignment_of-IsPart d t {key} {val} h =
    key_value-IsPart d t (index_of t b'=') {key = key} (ground arith)

-- The right-hand side of an assignment is trimmed, and has no line break that the line has not.
pub assignment-IsPart :
    (d : ℕ) (line : Text) {key val : Text} → assignment line ≡ some (key, val) → IsPart d line val
unfolding assignment
assignment-IsPart d line h =
    let (trimmed, keeps) = assignment_of-IsPart d (trim line) h in
    (trimmed, λ n. keeps (has_char-trim d line n))
