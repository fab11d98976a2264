-- ===== src/Entity/Regex.antt =====
-- Regular expressions between ^ and $, as config.entity.ts and class-validator's @Matches use them: a text matches when it
-- is in the language of the expression, decided by derivatives.
use incus_unraid.Prelude.{
  ℕ, zero, suc, Bool, true, false, ◌&&◌, ◌||◌, ◌≡◌, refl, inl, inr, [], ◌∷◌, nat_beq, nat_beq_iff,
  if◌then◌else◌, Text, has_char, Bool-cases, arith,
}

pub data Regex : Type 0 where
  never empty : Regex
  one : (ℕ → Bool) → Regex
  seq alt : Regex → Regex → Regex
  star : Regex → Regex

unfoldable pub nullable : Regex → Bool
nullable never = false
nullable empty = true
nullable (one p) = false
nullable (seq r s) = nullable r && nullable s
nullable (alt r s) = nullable r || nullable s
nullable (star r) = true

unfoldable pub derive : ℕ → Regex → Regex
unfolding nullable
derive c never = never
derive c empty = never
derive c (one p) = if p c then empty else never
derive c (seq r s) =
    let rest = derive c s in alt (seq (derive c r) s) (if nullable r then rest else never)
derive c (alt r s) = alt (derive c r) (derive c s)
derive c (star r) = seq (derive c r) (star r)

unfoldable pub matches : Regex → Text → Bool
unfolding nullable derive
matches r [] = nullable r
matches r (c ∷ s) = matches (derive c r) s

-- r{n}
unfoldable pub times : ℕ → Regex → Regex
times zero r = empty
times (suc n) r = seq r (times n r)

-- r{0,n}
unfoldable pub up_to : ℕ → Regex → Regex
up_to zero r = empty
up_to (suc n) r = alt empty (seq r (up_to n r))

-- the text itself
unfoldable pub literal : Text → Regex
literal [] = empty
literal (c ∷ s) = seq (one (nat_beq c)) (literal s)

-- No class of the expression has the character.
abbrev pub Avoids : ℕ → Regex → Type 0
Avoids c never = Unit
Avoids c empty = Unit
Avoids c (one p) = p c ≡ false
Avoids c (seq r s) = Avoids c r × Avoids c s
Avoids c (alt r s) = Avoids c r × Avoids c s
Avoids c (star r) = Avoids c r

pub times-Avoids : (c n : ℕ) (r : Regex) → Avoids c r → Avoids c (times n r)
unfolding times
times-Avoids c zero r a = tt
times-Avoids c (suc n) r a = (a, times-Avoids c n r a)

pub up_to-Avoids : (c n : ℕ) (r : Regex) → Avoids c r → Avoids c (up_to n r)
unfolding up_to
up_to-Avoids c zero r a = tt
up_to-Avoids c (suc n) r a = (tt, (a, up_to-Avoids c n r a))

pub literal-Avoids : (c : ℕ) (s : Text) → has_char c s ≡ false → Avoids c (literal s)
unfolding literal has_char
literal-Avoids c [] h = tt
literal-Avoids c (d ∷ s) h =
    let (here, there) : (nat_beq d c ≡ false) × (has_char c s ≡ false) =
      (ground arith, ground arith) in
    (here, literal-Avoids c s there)

-- The expression matches nothing, as far as its form tells.
abbrev Dead : Regex → Type 0
Dead never = Unit
Dead (seq r s) = Dead r
Dead (alt r s) = Dead r × Dead s
Dead _ = ⊥

nullable-Dead : (r : Regex) → Dead r → nullable r ≡ false
unfolding nullable
nullable-Dead never d = refl
nullable-Dead (seq r s) d = rw (nullable-Dead r d) refl
nullable-Dead (alt r s) (d, e) = rw (nullable-Dead r d) (nullable-Dead s e)
nullable-Dead empty d = absurd d
nullable-Dead (one p) d = absurd d
nullable-Dead (star r) d = absurd d

derive-Dead : (c : ℕ) (r : Regex) → Dead r → Dead (derive c r)
unfolding derive
derive-Dead c never d = tt
derive-Dead c (seq r s) d = rw (nullable-Dead r d) (derive-Dead c r d, tt)
derive-Dead c (alt r s) (d, e) = (derive-Dead c r d, derive-Dead c s e)
derive-Dead c empty d = absurd d
derive-Dead c (one p) d = absurd d
derive-Dead c (star r) d = absurd d

matches-Dead : (r : Regex) (s : Text) → Dead r → matches r s ≡ false
unfolding matches
matches-Dead r [] d = nullable-Dead r d
matches-Dead r (c ∷ s) d = matches-Dead (derive c r) s (derive-Dead c r d)

derive-avoided : (c : ℕ) (r : Regex) → Avoids c r → Dead (derive c r)
unfolding derive
derive-avoided c never a = tt
derive-avoided c empty a = tt
derive-avoided c (one p) a = rw a tt
derive-avoided c (seq r s) (a, b) = elim (Bool-cases (nullable r)) [
  | inl e ↦ rw e (derive-avoided c r a, derive-avoided c s b)
  | inr e ↦ rw e (derive-avoided c r a, tt)
]
derive-avoided c (alt r s) (a, b) = (derive-avoided c r a, derive-avoided c s b)
derive-avoided c (star r) a = derive-avoided c r a

derive-Avoids : (c d : ℕ) (r : Regex) → Avoids c r → Avoids c (derive d r)
unfolding derive
derive-Avoids c d never a = tt
derive-Avoids c d empty a = tt
derive-Avoids c d (one p) a = elim (Bool-cases (p d)) [ inl e ↦ rw e tt | inr e ↦ rw e tt ]
derive-Avoids c d (seq r s) (a, b) = elim (Bool-cases (nullable r)) [
  | inl e ↦ rw e ((derive-Avoids c d r a, b), derive-Avoids c d s b)
  | inr e ↦ rw e ((derive-Avoids c d r a, b), tt)
]
derive-Avoids c d (alt r s) (a, b) = (derive-Avoids c d r a, derive-Avoids c d s b)
derive-Avoids c d (star r) a = (derive-Avoids c d r a, a)

-- A text that matches has no character that every class of the expression leaves out.
pub matches-avoid :
    (c : ℕ) (r : Regex) (s : Text) → Avoids c r → matches r s ≡ true → has_char c s ≡ false
unfolding matches has_char
matches-avoid c r [] a m = refl
matches-avoid c r (d ∷ s) a m = elim (Bool-cases (nat_beq d c)) [
  | inl e ↦
      let same : d ≡ c = (nat_beq_iff d c).0 e in
      let dead : matches (derive c r) s ≡ false =
        matches-Dead (derive c r) s (derive-avoided c r a) in
      absurd (cc)
  | inr e ↦ rw e (matches-avoid c (derive d r) s (derive-Avoids c d r a) m)
]
