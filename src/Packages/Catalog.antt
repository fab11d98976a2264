-- ===== src/Packages/Catalog.antt =====
-- unraid-api-plugin-incus/src/package-catalog.worker.ts: parseApt, which reads a Packages file of a Debian mirror.
use incus_unraid.Prelude.{
  ◌+◌, ◌||◌, Option, none, some, List, [], ◌∷◌, nat_beq, if◌then◌else◌, take, drop, Text, codes,
  eq_text, starts_with, index_of, split_on, trim,
}

pub record Package : Type 0 where
  pub name : Text
  pub description : Option Text
  pub version : Option Text

-- The three variables of the loop.
pub record Fields : Type 0 where
  pub name : Option Text
  pub description : Option Text
  pub version : Option Text

abbrev pub no_fields : Fields
no_fields = record { name = none; description = none; version = none }

-- line.replace(/\r$/, "")
unfoldable pub strip_return : Text → Text
strip_return [] = []
strip_return (c ∷ []) = if nat_beq c 13 then [] else c ∷ []
strip_return (c ∷ d ∷ s) = c ∷ strip_return (d ∷ s)

-- flush, in front of what is found later; an empty name counts as none
abbrev pub found : Option Text → Option Text → Option Text → List Package → List Package
found none description version later = later
found (some []) description version later = later
found (some (c ∷ name)) description version later =
    record { name = c ∷ name; description = description; version = version } ∷ later

unfoldable pub flush : Fields → List Package → List Package
flush f later = found f.name f.description f.version later

unfoldable pub assign : Text → Text → Fields → Fields
unfolding eq_text
assign key value f =
    if eq_text key (codes "Package")
    then record f { name = some value }
    else if eq_text key (codes "Description")
    then record f { description = some value }
    else if eq_text key (codes "Version")
    then record f { version = some value }
    else f

-- A line that is not empty: a continuation or a line without a colon is left out.
unfoldable pub read_line : Text → Fields → Fields
unfolding assign
read_line line f =
    if starts_with line (codes " ") || starts_with line (codes "\t")
    then f
    else elim (index_of line 58) [
      | none ↦ f
      | some separator ↦ assign (take separator line) (trim (drop (separator + 1) line)) f
    ]

unfoldable pub scan : List Text → Fields → List Package
unfolding strip_return flush read_line
scan [] f = flush f []
scan (line ∷ lines) f =
    let next = scan lines (read_line (strip_return line) f) in
    let fresh = scan lines no_fields in
    if eq_text (strip_return line) [] then flush f fresh else next

unfoldable pub parse_apt : Text → List Package
unfolding scan
parse_apt text = scan (split_on 10 text) no_fields
