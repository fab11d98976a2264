-- ===== src/Codex/Distinct.antt =====
-- unraid-codex/web-src/src/protocol.ts: notifications never give two timeline entries one id.
use incus_unraid.Prelude.{Bool, false, ◌||◌, ◌≡◌, List, [], ◌∷◌, Text, eq_text}
use incus_unraid.Json.{Json}
use incus_unraid.Codex.State.{TimelineItem}
use incus_unraid.Codex.Notifications.{View}

abbrev pub has_entry : Text → List TimelineItem → Bool
has_entry id [] = false
has_entry id (entry ∷ items) = eq_text entry.id id || has_entry id items

-- No two entries have one id.
abbrev pub IsDistinct : List TimelineItem → Type 0
IsDistinct [] = Unit
IsDistinct (entry ∷ items) = (has_entry entry.id items ≡ false) × IsDistinct items

abbrev Shows : View → Type 0
Shows v = IsDistinct v.state.items
