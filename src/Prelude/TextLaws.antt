-- ===== src/Prelude/TextLaws.antt =====
-- Laws of the string methods of Texts.
use incus_unraid.Prelude.{
  ℕ, zero, suc, ◌-◌, Text, true, false, ◌||◌, ◌≡◌, refl, ap, ◌∙◌, inl, inr, some, [], ◌∷◌, ◌++◌,
  arith, length, take, drop, length-append, take-append, drop-append, take_all, is_space, trim,
  trim_start, trim_end, cons_end, ends_with, index_of, substring, has_char, Bool-cases,
}

cons_end-cons :
    (x : ℕ) (xs : Text) (d : ℕ) (ds : Text) → cons_end x (xs ++ d ∷ ds) ≡ x ∷ (xs ++ d ∷ ds)
cons_end-cons x [] d ds = refl
cons_end-cons x (y ∷ ys) d ds = refl

-- a text ends where a trimmed end of it ends
pub trim_end-append :
    (xs : Text) (d : ℕ) (ds : Text)
    → trim_end (d ∷ ds) ≡ d ∷ ds
    → trim_end (xs ++ d ∷ ds) ≡ xs ++ d ∷ ds
unfolding trim_end
trim_end-append [] d ds h = h
trim_end-append (x ∷ xs) d ds h =
    ap (cons_end x) (trim_end-append xs d ds h) ∙ cons_end-cons x xs d ds

pub trim_end_idem : (s : Text) → trim_end (trim_end s) ≡ trim_end s
unfolding trim_end
trim_end_idem [] = refl
trim_end_idem (c ∷ s) = ground (arith, trim_end_idem s)

pub trim_end-tail : (c : ℕ) (s : Text) → trim_end (c ∷ s) ≡ c ∷ s → trim_end s ≡ s
unfolding trim_end
trim_end-tail c s h = ground arith

pub trim_end-drop : (n : ℕ) (s : Text) → trim_end s ≡ s → trim_end (drop n s) ≡ drop n s
trim_end-drop zero s h = h
trim_end-drop (suc n) [] h = h
trim_end-drop (suc n) (c ∷ s) h = trim_end-drop n s (trim_end-tail c s h)

pub trim_end-space : (s : Text) (c : ℕ) → is_space c ≡ true → trim_end (s ++ c ∷ []) ≡ trim_end s
unfolding trim_end
trim_end-space [] c h = ground arith
trim_end-space (d ∷ s) c h = ap (cons_end d) (trim_end-space s c h)

trim_start-cons_end :
    (c : ℕ) (t : Text) → is_space c ≡ false → trim_start (cons_end c t) ≡ cons_end c t
unfolding trim_start
trim_start-cons_end c [] h = ground arith
trim_start-cons_end c (d ∷ ds) h = ground arith

trim_start-trim_end : (s : Text) → trim_start (trim_end (trim_start s)) ≡ trim_end (trim_start s)
unfolding trim_start trim_end
trim_start-trim_end [] = refl
trim_start-trim_end (c ∷ s) = elim (Bool-cases (is_space c)) [
  | inl e ↦ rw e (trim_start-trim_end s)
  | inr e ↦ rw e (trim_start-cons_end c (trim_end s) e)
]

-- white space at the end does not show in the trimmed text
pub trim-space : (s : Text) (c : ℕ) → is_space c ≡ true → trim (s ++ c ∷ []) ≡ trim s
unfolding trim
trim-space [] c h = ground arith
trim-space (d ∷ s) c h = elim (Bool-cases (is_space d)) [
  | inl e ↦ rw e (trim-space s c h)
  | inr e ↦ rw e (trim_end-space (d ∷ s) c h)
]

-- A text is trimmed where it begins and ends with no white space.
pub trim_fixed :
    (c : ℕ) (s : Text) → is_space c ≡ false → trim_end (c ∷ s) ≡ c ∷ s → trim (c ∷ s) ≡ c ∷ s
trim_fixed c s h e = unfold trim in rw h e

pub trim_idem : (s : Text) → trim (trim s) ≡ trim s
trim_idem s = unfold trim in (ap trim_end (trim_start-trim_end s) ∙ trim_end_idem (trim_start s))

pub trim_end-trim : (s : Text) → trim_end (trim s) ≡ trim s
unfolding trim
trim_end-trim s = trim_end_idem (trim_start s)

pub has_char-append : (d : ℕ) (s t : Text) → has_char d (s ++ t) ≡ (has_char d s || has_char d t)
unfolding has_char
has_char-append d [] t = refl
has_char-append d (c ∷ s) t = ground (arith, has_char-append d s t)

pub has_char-drop : (d n : ℕ) (s : Text) → has_char d s ≡ false → has_char d (drop n s) ≡ false
unfolding has_char
has_char-drop d zero s h = h
has_char-drop d (suc n) [] h = refl
has_char-drop d (suc n) (c ∷ s) h = has_char-drop d n s (ground arith)

pub has_char-take : (d n : ℕ) (s : Text) → has_char d s ≡ false → has_char d (take n s) ≡ false
unfolding has_char
has_char-take d zero s h = refl
has_char-take d (suc n) [] h = refl
has_char-take d (suc n) (c ∷ s) h = ground (arith, has_char-take d n s)

pub has_char-substring :
    (d a b : ℕ) (s : Text) → has_char d s ≡ false → has_char d (substring s a b) ≡ false
unfolding substring
has_char-substring d a b s h = ground (
  arith,
  has_char-take d (b - a) (drop a s),
  has_char-take d (a - b) (drop b s),
  has_char-drop d a s,
  has_char-drop d b s,
)

has_char-trim_start : (d : ℕ) (s : Text) → has_char d s ≡ false → has_char d (trim_start s) ≡ false
unfolding has_char trim_start
has_char-trim_start d [] h = refl
has_char-trim_start d (c ∷ s) h = ground (arith, has_char-trim_start d s)

has_char-trim_end : (d : ℕ) (s : Text) → has_char d s ≡ false → has_char d (trim_end s) ≡ false
unfolding has_char trim_end
has_char-trim_end d [] h = refl
has_char-trim_end d (c ∷ s) h = ground (arith, has_char-trim_end d s)

pub has_char-trim : (d : ℕ) (s : Text) → has_char d s ≡ false → has_char d (trim s) ≡ false
unfolding trim
has_char-trim d s h = has_char-trim_end d (trim_start s) (has_char-trim_start d s h)

-- the position of the first `d` behind a text without it
pub index_of-append :
    (s t : Text) (d : ℕ) → has_char d s ≡ false → index_of (s ++ d ∷ t) d ≡ some (length s)
unfolding index_of has_char
index_of-append [] t d h = ground arith
index_of-append (c ∷ s) t d h = ground (arith, index_of-append s t d)

pub ends_with-append : (s : Text) (d : ℕ) → ends_with (s ++ d ∷ []) d ≡ true
unfolding ends_with
ends_with-append [] d = ground arith
ends_with-append (c ∷ []) d = ground arith
ends_with-append (c ∷ e ∷ s) d = ends_with-append (e ∷ s) d

-- s.substring(0, n) and s.substring(n) of a text in two parts
pub substring-left : (s t : Text) → substring (s ++ t) 0 (length s) ≡ s
unfolding substring
substring-left s t = ground (arith, take-append s t)

pub substring-right : (s t : Text) → substring (s ++ t) (length s) (length (s ++ t)) ≡ t
unfolding substring
substring-right s t =
    ground (arith, length-append s t, drop-append s t, take_all (length (s ++ t) - length s) t)
