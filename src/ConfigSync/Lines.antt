-- ===== src/ConfigSync/Lines.antt =====
-- Joining lines by `\n` and splitting again gives the same lines, up to white space at their ends.
use incus_unraid.Prelude.{
  ℕ, Text, codes, false, ◌&&◌, ◌≡◌, refl, sym, ap, ◌∙◌, List, [], ◌∷◌, ◌++◌, nat_beq, arith, trim,
  has_char, is_space, join, eq_text, Assoc, if◌then◌else◌, All, ◌⊎◌, inl, inr, Bool-cases,
}
use incus_unraid.Prelude.TextLaws.{trim-space}
use incus_unraid.ConfigSync.Shell.{
  split_lines, starts_newline, push_line, assignment, parse_lines, store,
}

-- a line without the `\r` at its end
chomp : Text → Text
chomp [] = []
chomp (c ∷ []) = if nat_beq c b'\r' then [] else c ∷ []
chomp (c ∷ d ∷ s) = c ∷ chomp (d ∷ s)

chomp-split : (s : Text) → (chomp s ≡ s) ⊎ (chomp s ++ b'\r' ∷ [] ≡ s)
unfolding chomp
chomp-split [] = inl refl
chomp-split (c ∷ []) = elim (Bool-cases (nat_beq c b'\r')) [
  | inl e ↦ inr (ground arith)
  | inr e ↦ inl (rw e)
]
chomp-split (c ∷ d ∷ s) = elim (chomp-split (d ∷ s)) [
  | inl e ↦ inl (ap (◌∷◌ c) e)
  | inr e ↦ inr (ap (◌∷◌ c) e)
]

trim-chomp : (s : Text) → trim (chomp s) ≡ trim s
trim-chomp s = elim (chomp-split s) [
  | inl e ↦ ap trim e
  | inr e ↦ sym (trim-space (chomp s) b'\r' (unfold is_space in refl)) ∙ ap trim e
]

split_lines-line :
    (s t : Text) → has_char b'\n' s ≡ false → split_lines (s ++ b'\n' ∷ t) ≡ chomp s ∷ split_lines t
unfolding split_lines has_char chomp
split_lines-line [] t h = refl
split_lines-line (c ∷ []) t h = ground arith
split_lines-line (c ∷ d ∷ s) t h = ground (arith, split_lines-line (d ∷ s) t)

split_lines-last : (s : Text) → has_char b'\n' s ≡ false → split_lines s ≡ s ∷ []
unfolding split_lines has_char
split_lines-last [] h = refl
split_lines-last (c ∷ []) h = ground arith
split_lines-last (c ∷ d ∷ s) h = ground (arith, split_lines-last (d ∷ s))

-- What `split` returns holds no line break.
abbrev pub OneLine : Text → Type 0
OneLine s = has_char b'\n' s ≡ false

push_line-OneLine :
    (c : ℕ) (ls : List Text)
    → nat_beq c b'\n' ≡ false
    → All OneLine ls
    → All OneLine (push_line c ls)
unfolding has_char
push_line-OneLine c [] e h = (ground arith, tt)
push_line-OneLine c (l ∷ ls) e h = (ground arith, h.1)

pub split_lines-OneLine : (s : Text) → All OneLine (split_lines s)
unfolding split_lines
split_lines-OneLine [] = (unfold has_char in refl, tt)
split_lines-OneLine (c ∷ s) = elim (Bool-cases (nat_beq c b'\n')) [
  | inl e ↦ rw e ((unfold has_char in refl), split_lines-OneLine s)
  | inr e ↦ elim (Bool-cases (nat_beq c b'\r' && starts_newline s)) [
    | inl f ↦ rw e (rw f (split_lines-OneLine s))
    | inr f ↦ rw e (rw f (push_line-OneLine c (split_lines s) e (split_lines-OneLine s)))
  ]
]

-- only the trimmed line counts
assignment-chomp : (s : Text) → assignment (chomp s) ≡ assignment s
unfolding assignment
assignment-chomp s = rw trim-chomp

parse_lines-join_cons :
    (l : Text) (ls : List Text) (result : Assoc Text Text)
    → All OneLine (l ∷ ls)
    → parse_lines (split_lines (join (codes "\n") (l ∷ ls))) result ≡ parse_lines (l ∷ ls) result
unfolding join parse_lines
parse_lines-join_cons l [] result h = ap (λ t. parse_lines t result) (split_lines-last l h.0)
parse_lines-join_cons l (m ∷ ls) result h =
    ap (λ t. parse_lines t result) (split_lines-line l (join (codes "\n") (m ∷ ls)) h.0)
    ∙ ap (λ a. parse_lines (split_lines (join (codes "\n") (m ∷ ls))) (store a result))
        (assignment-chomp l)
    ∙ parse_lines-join_cons m ls (store (assignment l) result) h.1

-- Reading joined lines is reading the lines.
pub parse_lines-join :
    (ls : List Text) (result : Assoc Text Text)
    → All OneLine ls
    → parse_lines (split_lines (join (codes "\n") ls)) result ≡ parse_lines ls result
parse_lines-join [] result h = unfold split_lines parse_lines join trim eq_text in refl
parse_lines-join (l ∷ ls) result h = parse_lines-join_cons l ls result h
