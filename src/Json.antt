-- ===== src/Json.antt =====
-- JSON values as JavaScript programs read them: a missing property is `none`, and reading a
-- property of `null` throws. A number is an integer; the daemon's replies hold no others where the
-- models read one.
use incus_unraid.Prelude.{ℕ, Bool, Option, none, some, Text, eq_text, if◌then◌else◌}

pub data ℤ : Type 0 where
  pos negsuc : ℕ → ℤ

mutual
  pub data Json : Type 0 where
    null : Json
    boolean : Bool → Json
    number : ℤ → Json
    string : Text → Json
    array : Items → Json
    object : Fields → Json

  pub data Items : Type 0 where
    nil : Items
    cons : Json → Items → Items

  pub data Fields : Type 0 where
    empty : Fields
    field : Text → Json → Fields → Fields

-- The last of several fields of one name is the one that counts.
unfoldable pub find : Text → Fields → Option Json
find name empty = none
find name (field key value rest) = elim (find name rest) [
  | some later ↦ some later
  | none ↦ if eq_text key name then some value else none
]

-- value?.name
unfoldable pub get : Text → Json → Option Json
get name (object fields) = find name fields
get name _ = none

-- value?.name where the value may be missing
abbrev pub get? : Text → Option Json → Option Json
get? name none = none
get? name (some value) = get name value

-- A value that is a string.
abbrev pub text_of : Option Json → Option Text
text_of (some (string s)) = some s
text_of _ = none

abbrev pub int_of : Option Json → Option ℤ
int_of (some (number i)) = some i
int_of _ = none
