-- ===== src/ConfigSync/Quoting.antt =====
-- How a written line is read again: its key, its quoted value, and the comment kept behind it.
use mathlib.Core.Option
use mathlib.Core.Path.{ap₂}
use mathlib.Core.List.{append_assoc, append-nil}
use incus_unraid.Prelude.{
  ℕ, zero, suc, ◌+◌, Text, false, ◌≡◌, refl, sym, ap, ◌∙◌, Option, none, some, [], ◌∷◌, ◌++◌, arith,
  length, trim, trim_end, starts_with, substring, has_char, is_space, length-append, take-append,
}
use incus_unraid.Prelude.TextLaws.{
  trim_end-append, trim_fixed, trim-space, ends_with-append, substring-left,
}
use incus_unraid.ConfigSync.Shell.{
  unquoted, single, find_hash, find_unquoted_hash, unquote, uncomment, parse_value, escape_quotes,
  shell_single_quote,
}

-- A value that stays as it is between single quotes, on one line.
abbrev pub IsInert : Text → Type 0
IsInert s = (has_char b'\'' s ≡ false) × (has_char b'\n' s ≡ false)

escape_quotes-inert : (s : Text) → has_char b'\'' s ≡ false → escape_quotes s ≡ s
unfolding escape_quotes has_char
escape_quotes-inert [] h = refl
escape_quotes-inert (c ∷ s) h = ground (arith, escape_quotes-inert s)

abbrev pub quoted : Text → Text
quoted s = b'\'' ∷ (s ++ b'\'' ∷ [])

pub shell_single_quote-inert :
    (s : Text) → has_char b'\'' s ≡ false → shell_single_quote s ≡ quoted s
unfolding shell_single_quote
shell_single_quote-inert s h = rw (escape_quotes-inert s h)

abbrev shift : ℕ → Option ℕ → Option ℕ
shift zero o = o
shift (suc n) o = Option.map suc (shift n o)

shift-some : (n i : ℕ) → shift n (some i) ≡ some (n + i)
shift-some zero i = ground arith
shift-some (suc n) i = rw (shift-some n i) (ground arith)

shift-none : (n : ℕ) → shift n none ≡ none
shift-none zero = refl
shift-none (suc n) = rw (shift-none n)

-- Inside single quotes every character but the closing one is passed over.
find_hash-single :
    (s t : Text)
    → has_char b'\'' s ≡ false
    → find_hash single false (s ++ b'\'' ∷ t) ≡ shift (suc (length s)) (find_hash unquoted false t)
unfolding has_char find_hash
find_hash-single [] t h = refl
find_hash-single (c ∷ s) t h = ground (arith, find_hash-single s t)

-- what may stand behind a written value: nothing, or a space and a kept comment
pub data Tail : Text → Type 0 where
  bare : Tail []
  comment : (c : Text) → trim_end (b'#' ∷ c) ≡ b'#' ∷ c → Tail (b' ' ∷ b'#' ∷ c)

unquote-quoted : (s : Text) → unquote (quoted s) ≡ s
unfolding unquote starts_with substring
unquote-quoted s = ground (
  arith,
  ends_with-append (b'\'' ∷ s) b'\'',
  length-append s (b'\'' ∷ []),
  take-append s (b'\'' ∷ []),
)

pub trim_end-quoted : (s : Text) → trim_end (quoted s) ≡ quoted s
unfolding trim_end is_space
trim_end-quoted s = trim_end-append (b'\'' ∷ s) b'\'' [] refl

trim-quoted : (s : Text) → trim (quoted s) ≡ quoted s
unfolding is_space
trim-quoted s = trim_fixed b'\'' (s ++ b'\'' ∷ []) refl (trim_end-quoted s)

find_hash-quoted :
    (s t : Text)
    → has_char b'\'' s ≡ false
    → find_unquoted_hash (quoted s ++ t) ≡ shift (suc (suc (length s))) (find_hash unquoted false t)
unfolding find_unquoted_hash
find_hash-quoted s t h = rw append_assoc (ap (Option.map suc) (find_hash-single s t h))

length-quoted : (s : Text) → length (quoted s) ≡ suc (suc (length s))
length-quoted s = omega (arith, length-append s (b'\'' ∷ []))

cut : (v w : Text) → substring (v ++ b' ' ∷ w) 0 (length v + 1) ≡ v ++ b' ' ∷ []
cut v w =
    ap₂ (λ t n. substring t 0 n) (sym (append_assoc v (b' ' ∷ []) w))
      (sym (length-append v (b' ' ∷ [])))
    ∙ substring-left (v ++ b' ' ∷ []) w

uncomment-none : (v : Text) → find_unquoted_hash v ≡ none → uncomment v ≡ v
unfolding uncomment
uncomment-none v h = rw (h, uncomment)

uncomment-some :
    (v w : Text)
    → find_unquoted_hash (v ++ b' ' ∷ w) ≡ some (length v + 1)
    → uncomment (v ++ b' ' ∷ w) ≡ trim v
unfolding uncomment
uncomment-some v w h =
    rw (h, uncomment) (ap trim (cut v w) ∙ trim-space v b' ' (unfold is_space in refl))

uncomment-quoted :
    (s : Text) {t : Text} → has_char b'\'' s ≡ false → Tail t → uncomment (quoted s ++ t) ≡ quoted s
unfolding find_hash
uncomment-quoted s h bare = rw append-nil (
    uncomment-none (quoted s)
      (rw append-nil at (find_hash-quoted s [] h ∙ shift-none (suc (suc (length s))))))
uncomment-quoted s h (comment c e) =
    uncomment-some (quoted s) (b'#' ∷ c) (
      find_hash-quoted s (b' ' ∷ b'#' ∷ c) h
      ∙ shift-some (suc (suc (length s))) 1
      ∙ ap (λ n. some (n + 1)) (sym (length-quoted s)))
    ∙ trim-quoted s

-- The written value is read back, whatever stands behind it.
pub parse_value-quoted :
    (s : Text) {t : Text} → has_char b'\'' s ≡ false → Tail t → parse_value (quoted s ++ t) ≡ s
unfolding parse_value
parse_value-quoted s h t = ap unquote (uncomment-quoted s h t) ∙ unquote-quoted s
