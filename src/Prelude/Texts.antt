-- ===== src/Prelude/Texts.antt =====
-- JavaScript strings as lists of UTF-16 code units, with the string methods that the sources use.
use Prim.Native.Nat.{ℕ, zero, suc, ◌+◌, ◌-◌, ◌/◌, ◌%◌}
use Prim.Native.Char.{code}
use Prim.Native.String.{String}
use mathlib.Core.Path.{◌≡◌}
use mathlib.Core.Logic.{◌↔◌}
use mathlib.Core.Bool.{Bool, true, false, ◌&&◌, ◌||◌}
use mathlib.Core.Option.{Option, none, some}
use mathlib.Core.Option
use mathlib.Core.List.{List, [], ◌∷◌, ◌++◌}
use native.Mathlib.Omega.{arith}
use incus_unraid.Prelude.Tests.{leb, ltb, nat_beq, if◌then◌else◌, Eq, nat_eq}
use incus_unraid.Prelude.Lists.{length, take, drop}

abbrev pub Text : Type 0
Text = List ℕ

-- The code units of a literal; every literal of the models lies in the basic plane, where a code unit
-- is a code point.
abbrev pub codes : String → Text
codes String.[] = []
codes (String.◌∷◌ x rest) = code x ∷ codes rest

-- a === b
unfoldable pub eq_text : Text → Text → Bool
eq_text [] [] = true
eq_text (x ∷ a) (y ∷ b) = nat_beq x y && eq_text a b
eq_text _ _ = false

pub eq_text_iff : (a b : Text) → (eq_text a b ≡ true) ↔ (a ≡ b)
unfolding eq_text
eq_text_iff (x ∷ a) (y ∷ b) = ground (arith, eq_text_iff a b)
eq_text_iff _ _ = ground arith

instance abbrev pub text_eq : Eq Text
text_eq = record { beq = eq_text; beq_iff = eq_text_iff }

-- The code units that `trim` removes: ECMAScript's WhiteSpace and LineTerminator.
unfoldable pub is_space : ℕ → Bool
is_space c =
    (leb 9 c && leb c 13)
    || nat_beq c 32
    || nat_beq c 160
    || nat_beq c 5760
    || (leb 8192 c && leb c 8202)
    || nat_beq c 8232
    || nat_beq c 8233
    || nat_beq c 8239
    || nat_beq c 8287
    || nat_beq c 12288
    || nat_beq c 65279

unfoldable pub trim_start : Text → Text
trim_start [] = []
trim_start (c ∷ cs) = if is_space c then trim_start cs else c ∷ cs

-- what `trimEnd` leaves of `c` and a rest that is already trimmed
abbrev pub cons_end : ℕ → Text → Text
cons_end c [] = if is_space c then [] else c ∷ []
cons_end c (d ∷ ds) = c ∷ d ∷ ds

unfoldable pub trim_end : Text → Text
trim_end [] = []
trim_end (c ∷ cs) = cons_end c (trim_end cs)

-- [A-Za-z0-9]
abbrev pub is_alnum : ℕ → Bool
is_alnum c = (leb 65 c && leb c 90) || (leb 97 c && leb c 122) || (leb 48 c && leb c 57)

-- s.trim()
unfoldable pub trim : Text → Text
unfolding trim_start trim_end is_space
trim s = trim_end (trim_start s)

-- s.startsWith(p)
unfoldable pub starts_with : Text → Text → Bool
starts_with s [] = true
starts_with [] (p ∷ ps) = false
starts_with (c ∷ s) (p ∷ ps) = nat_beq c p && starts_with s ps

-- s.endsWith(c) for one code unit
unfoldable pub ends_with : Text → ℕ → Bool
ends_with [] d = false
ends_with (c ∷ []) d = nat_beq c d
ends_with (c ∷ e ∷ s) d = ends_with (e ∷ s) d

-- s.indexOf(c), `none` for -1
unfoldable pub index_of : Text → ℕ → Option ℕ
index_of [] d = none
index_of (c ∷ s) d = let rest = index_of s d in if nat_beq c d then some 0 else Option.map suc rest

-- s.substring(a, b): the bounds are clamped to the length and swapped where they are out of order
unfoldable pub substring : Text → ℕ → ℕ → Text
substring s a b = if leb a b then take (b - a) (drop a s) else take (a - b) (drop b s)

-- s.includes(c)
unfoldable pub has_char : ℕ → Text → Bool
has_char d [] = false
has_char d (c ∷ s) = nat_beq c d || has_char d s

-- s.split(c)
abbrev pub push_first : ℕ → List Text → List Text
push_first c [] = (c ∷ []) ∷ []
push_first c (l ∷ ls) = (c ∷ l) ∷ ls

unfoldable pub split_on : ℕ → Text → List Text
split_on d [] = [] ∷ []
split_on d (c ∷ s) = let rest = split_on d s in if nat_beq c d then [] ∷ rest else push_first c rest

-- lines.join(sep)
unfoldable pub join : Text → List Text → Text
join sep [] = []
join sep (l ∷ []) = l
join sep (l ∷ m ∷ ls) = l ++ (sep ++ join sep (m ∷ ls))

-- xs.slice(-n)
unfoldable pub last_of {ℓ} : {A : Type ℓ} → ℕ → List A → List A
last_of n xs = drop (length xs - n) xs

-- s.endsWith(suffix)
unfoldable pub ends_with_text : Text → Text → Bool
ends_with_text s suffix = eq_text (last_of (length suffix) s) suffix

-- The digits of a number before a text, with fuel for as many digits.
unfoldable pub digits : ℕ → ℕ → Text → Text
digits zero n acc = acc
digits (suc f) n acc =
    let rest = digits f (n / 10) ((48 + n % 10) ∷ acc) in if ltb n 10 then (48 + n) ∷ acc else rest

-- String(n): a number has at most as many digits as its successor says
unfoldable pub decimal : ℕ → Text
unfolding digits
decimal n = digits (suc n) n []
