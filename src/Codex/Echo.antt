-- ===== src/Codex/Echo.antt =====
-- unraid-codex/web-src/src/protocol.ts: the entry that `send` makes at once, and the message that the server then reports.
use incus_unraid.Prelude.{true, false, ◌≡◌, ◌⊎◌, some, List, [], ◌∷◌, Text, codes, eq_text}
use incus_unraid.Json.{object, Fields, find}
use incus_unraid.Codex.Values.{string_or_empty}
use incus_unraid.Codex.State.{TimelineItem}
use incus_unraid.Codex.Notifications.{item_started, method_of, is_echo}

-- The notification that a message of the user has started
abbrev pub Starts : Text → Fields → Fields → Type 0
Starts name params item =
    (method_of name ≡ item_started)
    × (find (codes "item") params ≡ some (object item))
    × (eq_text (string_or_empty (find (codes "type") item)) (codes "userMessage") ≡ true)

-- The entry of the item itself, or one that is no echo of it
abbrev pub NoEcho : Fields → TimelineItem → Type 0
NoEcho item e = (e.id ≡ string_or_empty (find (codes "id") item)) ⊎ (is_echo item e ≡ false)

-- Whether an entry is in a list.
abbrev pub Has : List TimelineItem → TimelineItem → Type 0
Has [] e = ⊥
Has (x ∷ items) e = (x ≡ e) ⊎ Has items e
