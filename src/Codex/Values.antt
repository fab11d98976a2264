-- ===== src/Codex/Values.antt =====
-- unraid-codex/web-src/src/protocol.ts: the JSON objects that the messages of the app server hold. A field that the protocol
-- gives a type holds a value of that type or is missing (`undefined`).
use incus_unraid.Prelude.{
  zero, Bool, true, false, ◌≡◌, refl, inl, inr, Option, none, some, List, [], ◌∷◌, if◌then◌else◌,
  Text, eq_text, Bool-cases,
}
use incus_unraid.Json.{
  ℤ, pos, Json, null, boolean, number, string, array, object, Items, nil, cons, Fields, empty,
  field, find,
}

-- { ...object, name: value }: of two fields of one name the later one counts
unfoldable pub put : Text → Json → Fields → Fields
put name value empty = field name value empty
put name value (field key old rest) = field key old (put name value rest)

-- { ...object, name: undefined } where the value is missing
unfoldable pub put? : Text → Option Json → Fields → Fields
put? name none fields = put name null fields
put? name (some value) fields = put name value fields

-- { ...object, ...updates }
unfoldable pub spread : Fields → Fields → Fields
spread fields empty = fields
spread fields (field key value rest) = spread (put key value fields) rest

-- value ?? other
abbrev pub or_else : Option Json → Option Json → Option Json
or_else none other = other
or_else (some null) other = other
or_else (some value) other = some value

-- A value that may be `null` or `undefined`, which the code does not tell apart.
abbrev pub present : Option Json → Option Json
present value = or_else value none

-- String of a text field, or ""
abbrev pub string_or_empty : Option Json → Text
string_or_empty (some (string s)) = s
string_or_empty _ = []

-- value ?? {}, for an object
abbrev pub fields_of : Option Json → Fields
fields_of (some (object fields)) = fields
fields_of _ = empty

abbrev pub list_of_items : Items → List Json
list_of_items nil = []
list_of_items (cons value rest) = value ∷ list_of_items rest

-- value ?? [], for an array
abbrev pub list_of : Option Json → List Json
list_of (some (array items)) = list_of_items items
list_of _ = []

abbrev pub items_of_list : List Json → Items
items_of_list [] = nil
items_of_list (value ∷ rest) = cons value (items_of_list rest)

-- value ?? old, for an array
abbrev pub list_or : Option Json → List Json → List Json
list_or (some (array items)) old = list_of_items items
list_or _ old = old

abbrev not_zero : ℤ → Bool
not_zero (pos zero) = false
not_zero _ = true

-- Boolean(value)
abbrev pub truthy : Option Json → Bool
truthy none = false
truthy (some null) = false
truthy (some (boolean b)) = b
truthy (some (number n)) = not_zero n
truthy (some (string [])) = false
truthy (some _) = true

pub find-put :
    (name key : Text) (value : Json) (fields : Fields)
    → find name (put key value fields) ≡ (if eq_text key name then some value else find name fields)
unfolding find put
find-put name key value empty = refl
find-put name key value (field k old rest) = elim (Bool-cases (eq_text key name)) [
  | inl e ↦ rw (find-put name key value rest) (rw e refl)
  | inr e ↦ rw (find-put name key value rest) (rw e refl)
]
