-- ===== src/Packages/Stanzas.antt =====
-- unraid-api-plugin-incus/src/package-catalog.worker.ts: parseApt against the stanzas that a Packages file holds.
use mathlib.Core.Path.{ap₂}
use mathlib.Core.List.{append_assoc}
use incus_unraid.Prelude.{
  ℕ, ◌+◌, false, ◌≡◌, refl, sym, ap, ◌∙◌, Option, none, some, List, [], ◌∷◌, ◌++◌, All,
  if◌then◌else◌, length, drop, Text, codes, eq_text, eq_text_iff, starts_with, has_char, join,
  split_on, trim, trim_start, trim_end, is_space, nat_beq, Bool-cases, inl, inr, arith, cons_end,
  take-append, drop-append, length-append,
}
use incus_unraid.Prelude.TextLaws.{index_of-append, trim_end-tail, trim_end-trim, trim_end-append}
use incus_unraid.Prelude.Splits.{OneLine, split_on-join, append-OneLine, All-append-OneLine}
use incus_unraid.Packages.Catalog.{
  Package, Fields, no_fields, strip_return, found, flush, assign, read_line, scan, parse_apt,
}

-- A line of a stanza: a field with its value, or the continuation of the one before.
pub data Line : Type 0 where
  field : Text → Text → Line
  continued : Text → Line

abbrev pub text_of : Line → Text
text_of (field key value) = key ++ (58 ∷ 32 ∷ value)
text_of (continued rest) = 32 ∷ rest

-- A key has no colon and begins with a character that is no blank; no text has a line break; a value has no white space
-- around it.
abbrev pub IsLine : Line → Type 0
IsLine (field [] value) = ⊥
IsLine (field (c ∷ key) value) =
    (is_space c ≡ false)
    × (has_char 58 (c ∷ key) ≡ false)
    × OneLine (c ∷ key)
    × OneLine value
    × (trim value ≡ value)
IsLine (continued rest) = OneLine rest

-- The value of the last field of that key.
unfoldable pub last_field : Text → List Line → Option Text → Option Text
last_field key [] old = old
last_field key (field k value ∷ lines) old =
    last_field key lines (if eq_text k key then some value else old)
last_field key (continued rest ∷ lines) old = last_field key lines old

-- The package of a stanza, in front of those of later ones: none without a name.
abbrev pub package_of : List Line → List Package → List Package
package_of lines =
    found (last_field (codes "Package") lines none) (last_field (codes "Description") lines none)
      (last_field (codes "Version") lines none)

unfoldable pub packages_of : List (List Line) → List Package
packages_of [] = []
packages_of (lines ∷ stanzas) = package_of lines (packages_of stanzas)

abbrev pub texts_of : List Line → List Text
texts_of [] = []
texts_of (l ∷ lines) = text_of l ∷ texts_of lines

-- Every stanza ends with an empty line.
abbrev pub file_lines : List (List Line) → List Text
file_lines [] = [] ∷ []
file_lines (lines ∷ stanzas) = texts_of lines ++ ([] ∷ file_lines stanzas)

strip_return-end :
    (s : Text) (c : ℕ) → nat_beq c 13 ≡ false → strip_return (s ++ c ∷ []) ≡ s ++ c ∷ []
unfolding strip_return
strip_return-end [] c h = rw h refl
strip_return-end (d ∷ []) c h = rw h refl
strip_return-end (d ∷ e ∷ s) c h = ap (λ x. d ∷ x) (strip_return-end (e ∷ s) c h)

strip_return-fixed : (s : Text) → trim_end s ≡ s → strip_return s ≡ s
unfolding strip_return trim_end is_space
strip_return-fixed [] h = refl
strip_return-fixed (c ∷ []) h = ground arith
strip_return-fixed (c ∷ d ∷ s) h =
    ap (λ x. c ∷ x) (strip_return-fixed (d ∷ s) (trim_end-tail c (d ∷ s) h))

strip_return-value :
    (s value : Text) → trim value ≡ value → strip_return (s ++ 32 ∷ value) ≡ s ++ 32 ∷ value
unfolding trim_end
strip_return-value s [] h = strip_return-end s 32 refl
strip_return-value s (v ∷ vs) h =
    let ends : trim_end (v ∷ vs) ≡ v ∷ vs = ap trim_end (sym h) ∙ trim_end-trim (v ∷ vs) ∙ h in
    strip_return-fixed (s ++ 32 ∷ v ∷ vs) (trim_end-append s 32 (v ∷ vs) (ap (cons_end 32) ends))

strip_return-field :
    (key value : Text)
    → trim value ≡ value
    → strip_return (text_of (field key value)) ≡ text_of (field key value)
strip_return-field key value h =
    let parts = append_assoc key (58 ∷ []) (32 ∷ value) in
    ap strip_return (sym parts) ∙ strip_return-value (key ++ 58 ∷ []) value h ∙ parts

drop-past : (s t : Text) (c : ℕ) → drop (length s + 1) (s ++ c ∷ t) ≡ t
drop-past s t c =
    let whole : s ++ c ∷ t ≡ (s ++ c ∷ []) ++ t = sym (append_assoc s (c ∷ []) t) in
    let count : length s + 1 ≡ length (s ++ c ∷ []) = sym (length-append s (c ∷ [])) in
    ap (λ n. drop n (s ++ c ∷ t)) count
    ∙ ap (drop (length (s ++ c ∷ []))) whole
    ∙ drop-append (s ++ c ∷ []) t

trim-blank : (value : Text) → trim (32 ∷ value) ≡ trim value
unfolding trim trim_start is_space
trim-blank value = refl

read_line-field :
    (key value : Text) (f : Fields)
    → IsLine (field key value)
    → read_line (text_of (field key value)) f ≡ assign key value f
unfolding read_line starts_with is_space
read_line-field [] value f h = absurd h
read_line-field (c ∷ key) value f h =
    let (first, no_colon, _, _, trimmed) = h in
    let blank : nat_beq c 32 ≡ false = ground arith in
    let tab : nat_beq c 9 ≡ false = ground arith in
    let at = index_of-append (c ∷ key) (32 ∷ value) 58 no_colon in
    rw blank (
      rw tab (
        rw at (
          ap₂ (λ k v. assign k v f) (take-append (c ∷ key) (58 ∷ 32 ∷ value))
            (ap trim (drop-past (c ∷ key) (32 ∷ value) 58) ∙ trim-blank value ∙ trimmed))))

-- What a line does to the three variables.
abbrev apply : Line → Fields → Fields
apply (field key value) f = assign key value f
apply (continued rest) f = f

abbrev apply_all : List Line → Fields → Fields
apply_all [] f = f
apply_all (l ∷ lines) f = apply_all lines (apply l f)

strip_return-blank : (rest : Text) → (t : Text) × (strip_return (32 ∷ rest) ≡ 32 ∷ t)
unfolding strip_return
strip_return-blank [] = ([], refl)
strip_return-blank (c ∷ rest) = (strip_return (c ∷ rest), refl)

scan-step :
    (line : Text) (rest : List Text) (f : Fields) (c : ℕ) (t : Text)
    → strip_return line ≡ c ∷ t
    → scan (line ∷ rest) f ≡ scan rest (read_line (c ∷ t) f)
unfolding scan eq_text
scan-step line rest f c t e =
    ap (λ x. if eq_text x [] then flush f (scan rest no_fields) else scan rest (read_line x f)) e

scan-empty : (rest : List Text) (f : Fields) → scan ([] ∷ rest) f ≡ flush f (scan rest no_fields)
unfolding scan eq_text
scan-empty rest f = refl

read_line-blank : (t : Text) (f : Fields) → read_line (32 ∷ t) f ≡ f
unfolding read_line starts_with
read_line-blank t f = refl

scan-line :
    (l : Line) (rest : List Text) (f : Fields)
    → IsLine l
    → scan (text_of l ∷ rest) f ≡ scan rest (apply l f)
scan-line (field [] value) rest f h = absurd h
scan-line (field (c ∷ key) value) rest f h =
    let (_, _, _, _, trimmed) = h in
    scan-step (text_of (field (c ∷ key) value)) rest f c (key ++ 58 ∷ 32 ∷ value)
      (strip_return-field (c ∷ key) value trimmed)
    ∙ ap (scan rest) (read_line-field (c ∷ key) value f h)
scan-line (continued t) rest f h =
    let (u, e) = strip_return-blank t in
    scan-step (32 ∷ t) rest f 32 u e ∙ ap (scan rest) (read_line-blank u f)

scan-lines :
    (lines : List Line) (rest : List Text) (f : Fields)
    → All IsLine lines
    → scan (texts_of lines ++ rest) f ≡ scan rest (apply_all lines f)
scan-lines [] rest f h = refl
scan-lines (l ∷ lines) rest f h =
    scan-line l (texts_of lines ++ rest) f h.0 ∙ scan-lines lines rest (apply l f) h.1

-- The three variables after a stanza, from those before it.
abbrev fields_of : List Line → Fields → Fields
fields_of lines f = record {
  name = last_field (codes "Package") lines f.name;
  description = last_field (codes "Description") lines f.description;
  version = last_field (codes "Version") lines f.version;
}

assign-fields :
    (key value : Text) (lines : List Line) (f : Fields)
    → fields_of lines (assign key value f) ≡ fields_of (field key value ∷ lines) f
unfolding last_field assign eq_text
assign-fields key value lines f = elim (Bool-cases (eq_text key (codes "Package"))) [
  | inl e ↦ rw ((eq_text_iff key (codes "Package")).0 e) refl
  | inr e ↦ elim (Bool-cases (eq_text key (codes "Description"))) [
    | inl d ↦ rw ((eq_text_iff key (codes "Description")).0 d) refl
    | inr d ↦ elim (Bool-cases (eq_text key (codes "Version"))) [
      | inl v ↦ rw ((eq_text_iff key (codes "Version")).0 v) refl
      | inr v ↦ rw e (rw d (rw v refl))
    ]
  ]
]

apply_all-fields : (lines : List Line) (f : Fields) → apply_all lines f ≡ fields_of lines f
unfolding last_field
apply_all-fields [] f = refl
apply_all-fields (field key value ∷ lines) f =
    apply_all-fields lines (assign key value f) ∙ assign-fields key value lines f
apply_all-fields (continued t ∷ lines) f = apply_all-fields lines f

abbrev IsStanza : List Line → Type 0
IsStanza = All IsLine

scan-file :
    (stanzas : List (List Line))
    → All IsStanza stanzas
    → scan (file_lines stanzas) no_fields ≡ packages_of stanzas
unfolding packages_of flush scan
scan-file [] h = scan-empty [] no_fields
scan-file (lines ∷ stanzas) h =
    scan-lines lines ([] ∷ file_lines stanzas) no_fields h.0
    ∙ scan-empty (file_lines stanzas) (apply_all lines no_fields)
    ∙ ap₂ flush (apply_all-fields lines no_fields) (scan-file stanzas h.1)

texts_of-OneLine : (lines : List Line) → All IsLine lines → All OneLine (texts_of lines)
unfolding has_char
texts_of-OneLine [] h = tt
texts_of-OneLine (field [] value ∷ lines) h = absurd h.0
texts_of-OneLine (field (c ∷ key) value ∷ lines) h =
    let (_, _, k, v, _) = h.0 in
    (append-OneLine (c ∷ key) (58 ∷ 32 ∷ value) k v, texts_of-OneLine lines h.1)
texts_of-OneLine (continued t ∷ lines) h = (h.0, texts_of-OneLine lines h.1)

file_lines-OneLine :
    (stanzas : List (List Line)) → All IsStanza stanzas → All OneLine (file_lines stanzas)
unfolding has_char
file_lines-OneLine [] h = (refl, tt)
file_lines-OneLine (lines ∷ stanzas) h =
    All-append-OneLine (texts_of lines) ([] ∷ file_lines stanzas) (texts_of-OneLine lines h.0)
      (refl, file_lines-OneLine stanzas h.1)

-- The lines of a list that is not empty, joined, are split into the same lines.
split_on-file :
    (ls : List Text) (l : Text)
    → All OneLine (l ∷ ls)
    → split_on 10 (join (codes "\n") (l ∷ ls)) ≡ l ∷ ls
split_on-file ls l h = split_on-join l ls h.0 h.1

split_on-file_lines :
    (stanzas : List (List Line))
    → All OneLine (file_lines stanzas)
    → split_on 10 (join (codes "\n") (file_lines stanzas)) ≡ file_lines stanzas
split_on-file_lines [] h = split_on-file [] [] h
split_on-file_lines ([] ∷ stanzas) h = split_on-file (file_lines stanzas) [] h
split_on-file_lines ((l ∷ lines) ∷ stanzas) h =
    split_on-file (texts_of lines ++ ([] ∷ file_lines stanzas)) (text_of l) h

-- Of a file of well-formed stanzas, each followed by an empty line, parseApt finds, in their order, one package for each
-- stanza whose name is there and not empty: the name, description and version are the values of the last fields of those
-- keys.
pub parse_apt-packages :
    (stanzas : List (List Line))
    → All (All IsLine) stanzas
    → parse_apt (join (codes "\n") (file_lines stanzas)) ≡ packages_of stanzas
unfolding parse_apt
parse_apt-packages stanzas h =
    ap (λ l. scan l no_fields) (split_on-file_lines stanzas (file_lines-OneLine stanzas h))
    ∙ scan-file stanzas h
