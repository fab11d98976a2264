-- ===== src/Prelude/Splits.antt =====
-- Texts without a line break, and the lines of a text that is joined from them.
use mathlib.Core.Path.{◌≡◌, refl, ap, ◌∙◌}
use mathlib.Core.Bool.{false}
use mathlib.Core.List.{List, [], ◌∷◌, ◌++◌}
use native.Mathlib.Omega.{arith}
use incus_unraid.Prelude.Lists.{All}
use incus_unraid.Prelude.Texts.{Text, codes, has_char, join, split_on}

abbrev pub OneLine : Text → Type 0
OneLine s = has_char 10 s ≡ false

split_on-line : (s t : Text) → OneLine s → split_on 10 (s ++ 10 ∷ t) ≡ s ∷ split_on 10 t
unfolding split_on has_char
split_on-line [] t h = refl
split_on-line (c ∷ s) t h = ground (arith, split_on-line s t)

split_on-last : (s : Text) → OneLine s → split_on 10 s ≡ s ∷ []
unfolding split_on has_char
split_on-last [] h = refl
split_on-last (c ∷ s) h = ground (arith, split_on-last s)

pub split_on-join :
    (l : Text) (ls : List Text)
    → OneLine l
    → All OneLine ls
    → split_on 10 (join (codes "\n") (l ∷ ls)) ≡ l ∷ ls
unfolding join
split_on-join l [] h hs = split_on-last l h
split_on-join l (m ∷ ls) h hs =
    split_on-line l (join (codes "\n") (m ∷ ls)) h ∙ ap (◌∷◌ l) (split_on-join m ls hs.0 hs.1)

pub append-OneLine : (s t : Text) → OneLine s → OneLine t → OneLine (s ++ t)
unfolding has_char
append-OneLine [] t h k = k
append-OneLine (c ∷ s) t h k = ground (arith, append-OneLine s t)

pub All-append-OneLine :
    (ls ms : List Text) → All OneLine ls → All OneLine ms → All OneLine (ls ++ ms)
All-append-OneLine [] ms h k = k
All-append-OneLine (l ∷ ls) ms h k = (h.0, All-append-OneLine ls ms h.1 k)
