-- ===== src/ConfigSync/Shell.antt =====
-- unraid-api-plugin-incus/src/config-sync.service.ts: reading and rewriting incus.cfg, a shell
-- file of KEY=VALUE lines. `assignment` is the part that parseShellConfig and updateShellConfig
-- share: the trimmed line, its tests, its key and its right-hand side. The object that
-- parseShellConfig fills is an insertion-ordered map; the key `__proto__`, which a JavaScript
-- object does not store, and the order of integer-like keys are not modelled.
use incus_unraid.Prelude.{
  ℕ, zero, suc, ◌+◌, ◌-◌, Text, codes, Bool, true, false, not, ◌&&◌, ◌||◌, Option, none, some, List,
  [], ◌∷◌, ◌++◌, nat_beq, length, ◌==◌, text_eq, trim, starts_with, ends_with, index_of, substring,
  join, Assoc, insert, if◌then◌else◌,
}
use mathlib.Core.Option
use incus_unraid.Config.{ConfigKey, key_eq, Value, undef, Object, get}
use incus_unraid.ConfigSync.Mapping.{key_map, format_shell_value}

-- content.split(/\r?\n/)
abbrev pub starts_newline : Text → Bool
starts_newline [] = false
starts_newline (c ∷ s) = nat_beq c b'\n'

abbrev pub push_line : ℕ → List Text → List Text
push_line c [] = (c ∷ []) ∷ []
push_line c (l ∷ ls) = (c ∷ l) ∷ ls

unfoldable pub split_lines : Text → List Text
split_lines [] = [] ∷ []
split_lines (c ∷ s) =
    let rest = split_lines s in
    if nat_beq c b'\n'
    then [] ∷ rest
    else if nat_beq c b'\r' && starts_newline s
    then rest
    else push_line c rest

pub data Quote : Type 0 where
  unquoted single double : Quote

-- one round of the loop of findUnquotedHash on a character that is no `#`; the second part is
-- `escaped`
abbrev pub next_quote : Quote → ℕ → Quote
next_quote unquoted c =
    if nat_beq c b'\'' then single else if nat_beq c b'"' then double else unquoted
next_quote single c = if nat_beq c b'\'' then unquoted else single
next_quote double c = if nat_beq c b'"' then unquoted else double

abbrev pub is_double : Quote → Bool
is_double double = true
is_double _ = false

abbrev pub is_unquoted : Quote → Bool
is_unquoted unquoted = true
is_unquoted _ = false

unfoldable pub find_hash : Quote → Bool → Text → Option ℕ
find_hash quote escaped [] = none
find_hash quote true (c ∷ s) = Option.map suc (find_hash quote false s)
find_hash quote false (c ∷ s) =
    let skip = Option.map suc (find_hash quote true s) in
    let next = Option.map suc (find_hash (next_quote quote c) false s) in
    if nat_beq c b'\\' && is_double quote
    then skip
    else if nat_beq c b'#' && is_unquoted quote
    then some 0
    else next

-- findUnquotedHash, `none` for -1
unfoldable pub find_unquoted_hash : Text → Option ℕ
unfolding find_hash
find_unquoted_hash value = find_hash unquoted false value

-- the surrounding quotes, if present
unfoldable pub unquote : Text → Text
unquote val =
    if (starts_with val (codes "\"") && ends_with val b'"')
      || (starts_with val (codes "'") && ends_with val b'\'')
    then substring val 1 (length val - 1)
    else val

-- the right-hand side without its unquoted trailing comment
unfoldable pub uncomment : Text → Text
unfolding find_unquoted_hash
uncomment val = elim (find_unquoted_hash val) [ none ↦ val | some i ↦ trim (substring val 0 i) ]

-- the value that parseShellConfig stores for a trimmed right-hand side
unfoldable pub parse_value : Text → Text
unfolding uncomment unquote
parse_value val = unquote (uncomment val)

-- the key and the right-hand side, both trimmed, where `=` stands behind the first character
unfoldable pub key_value : Text → Option ℕ → Option (Text × Text)
key_value trimmed none = none
key_value trimmed (some zero) = none
key_value trimmed (some (suc i)) =
    some (trim (substring trimmed 0 (suc i)), trim (substring trimmed (suc i + 1) (length trimmed)))

unfoldable pub assignment_of : Text → Option (Text × Text)
unfolding key_value
assignment_of trimmed =
    if trimmed == [] || starts_with trimmed (codes "#")
    then none
    else key_value trimmed (index_of trimmed b'=')

-- the key and the value of a line that is neither blank nor a comment
unfoldable pub assignment : Text → Option (Text × Text)
unfolding assignment_of
assignment line = assignment_of (trim line)

abbrev pub store : Option (Text × Text) → Assoc Text Text → Assoc Text Text
store none result = result
store (some (key, val)) result = insert key (parse_value val) result

unfoldable pub parse_lines : List Text → Assoc Text Text → Assoc Text Text
unfolding assignment parse_value
parse_lines [] result = result
parse_lines (line ∷ lines) result = parse_lines lines (store (assignment line) result)

unfoldable pub parse_shell_config : Text → Assoc Text Text
unfolding split_lines parse_lines
parse_shell_config content = parse_lines (split_lines content) []

-- val.replace(/'/g, `'\\''`)
unfoldable pub escape_quotes : Text → Text
escape_quotes [] = []
escape_quotes (c ∷ s) =
    if nat_beq c b'\'' then codes "'\\''" ++ escape_quotes s else c ∷ escape_quotes s

unfoldable pub shell_single_quote : Text → Text
unfolding escape_quotes
shell_single_quote val = b'\'' ∷ (escape_quotes val ++ codes "'")

-- Object.keys(keyMap).find((k) => keyMap[k] === key)
unfoldable pub find_key : Text → List (ConfigKey × Text) → Option ConfigKey
find_key key [] = none
find_key key ((k, name) ∷ rest) = if name == key then some k else find_key key rest

-- keyMap[tsKey]
unfoldable pub shell_key : ConfigKey → List (ConfigKey × Text) → Option Text
shell_key k [] = none
shell_key k ((j, name) ∷ rest) = if j == k then some name else shell_key k rest

abbrev pub is_defined : Value → Bool
is_defined undef = false
is_defined _ = true

-- `${key}=${this.shellSingleQuote(strVal)}`
unfoldable pub written : Text → ConfigKey → Value → Text
unfolding shell_single_quote format_shell_value
written name k v = name ++ (b'=' ∷ shell_single_quote (format_shell_value k v))

-- the comment kept on a rewritten line, with the space in front of it
unfoldable pub kept_comment : Text → Text
unfolding find_unquoted_hash
kept_comment val = elim (find_unquoted_hash val) [
  | none ↦ []
  | some i ↦ b' ' ∷ substring val i (length val)
]

-- The configuration key whose line this is, if the update sets it.
unfoldable pub target : Object → Text → Option ConfigKey
unfolding find_key
target updates key = elim (find_key key key_map) [
  | none ↦ none
  | some k ↦ if is_defined (get k updates) then some k else none
]

-- what the callback of `lines.map` returns, and the key that it adds to `seen`
abbrev pub rewrite_for : Object → Text → Option (Text × Text) → Text × Option ConfigKey
rewrite_for updates line none = (line, none)
rewrite_for updates line (some (key, val)) = elim (target updates key) [
  | none ↦ (line, none)
  | some k ↦ (written key k (get k updates) ++ kept_comment val, some k)
]

unfoldable pub rewrite_line : Object → Text → Text × Option ConfigKey
unfolding assignment target written kept_comment
rewrite_line updates line = rewrite_for updates line (assignment line)

unfoldable pub new_lines : Object → List Text → List Text
unfolding rewrite_line
new_lines updates [] = []
new_lines updates (line ∷ lines) = (rewrite_line updates line).0 ∷ new_lines updates lines

abbrev pub is_key : ConfigKey → Option ConfigKey → Bool
is_key k none = false
is_key k (some j) = j == k

-- seen.has(k)
unfoldable pub seen : Object → List Text → ConfigKey → Bool
unfolding rewrite_line
seen updates [] k = false
seen updates (line ∷ lines) k = is_key k (rewrite_line updates line).1 || seen updates lines k

-- what the loop over Object.keys(updates) appends for one key
unfoldable pub appended_line : Object → List Text → ConfigKey → List Text
unfolding seen shell_key written
appended_line updates lines k =
    if not (is_defined (get k updates)) || seen updates lines k
    then []
    else elim (shell_key k key_map) [ none ↦ [] | some name ↦ written name k (get k updates) ∷ [] ]

unfoldable pub appended : Object → List Text → Object → List Text
unfolding appended_line
appended updates lines [] = []
appended updates lines ((k, v) ∷ rest) =
    appended_line updates lines k ++ appended updates lines rest

unfoldable pub update_shell_config : Text → Object → Text
unfolding split_lines new_lines appended
update_shell_config content updates =
    let lines = split_lines content in
    join (codes "\n") (new_lines updates lines ++ appended updates lines updates)
