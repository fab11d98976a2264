-- ===== src/Codex/Timeline.antt =====
-- unraid-codex/web-src/src/protocol.ts: the timeline of a thread: flattenTurns, upsertTimeline, addApprovalResolution and the
-- texts of messages.
use incus_unraid.Prelude.{
  decimal, ℕ, ◌+◌, ◌*◌, Bool, false, ◌||◌, Option, none, some, List, [], ◌∷◌, ◌++◌, map,
  if◌then◌else◌, Text, codes, eq_text, join,
}
use incus_unraid.Json.{
  ℤ, pos, negsuc, Json, boolean, number, string, object, Fields, empty, field, find, get, get?,
  text_of, int_of,
}
use incus_unraid.Codex.Values.{string_or_empty, fields_of, list_of}
use incus_unraid.Codex.State.{TimelineItem, RequestId, numeric, textual, ServerRequest}

abbrev pub flat_map : {A B : Type 0} → (A → List B) → List A → List B
flat_map f [] = []
flat_map f (x ∷ xs) = f x ++ flat_map f xs

-- seconds ? seconds * 1000 : undefined
unfoldable pub to_ms : Option ℤ → Option ℤ
to_ms none = none
to_ms (some (pos n)) = some (pos (n * 1000))
to_ms (some (negsuc n)) = some (negsuc (n * 1000 + 999))

-- One item of a turn
unfoldable pub of_turn : Json → Json → TimelineItem
unfolding to_ms
of_turn turn item = record {
  id = string_or_empty (get (codes "id") item);
  turn_id = string_or_empty (get (codes "id") turn);
  item = fields_of (some item);
  started_at_ms = to_ms (int_of (get (codes "startedAt") turn));
  completed_at_ms = to_ms (int_of (get (codes "completedAt") turn));
  progress = none;
}

unfoldable pub flatten_turns : Fields → List TimelineItem
unfolding of_turn
flatten_turns thread =
    flat_map (λ turn. map (of_turn turn) (list_of (get (codes "items") turn)))
      (list_of (find (codes "turns") thread))

-- Partial<TimelineItem>: a field that is given, or not
pub record Partial : Type 0 where
  pub turn_id : Option Text
  pub item : Option Fields
  pub started_at_ms : Option (Option ℤ)
  pub completed_at_ms : Option (Option ℤ)

abbrev given {ℓ} : {A : Type ℓ} → Option A → A → A
given none old = old
given (some value) old = value

-- { ...entry, ...update }
unfoldable pub merge : Partial → TimelineItem → TimelineItem
merge update entry = record entry {
  turn_id = given update.turn_id entry.turn_id;
  item = given update.item entry.item;
  started_at_ms = given update.started_at_ms entry.started_at_ms;
  completed_at_ms = given update.completed_at_ms entry.completed_at_ms;
}

abbrev pub blank : Text → TimelineItem
blank id = record {
  id = id;
  turn_id = [];
  item = empty;
  started_at_ms = none;
  completed_at_ms = none;
  progress = none;
}

-- upsertTimeline with a function: the first entry with the id, if there is one
unfoldable pub update_timeline :
    List TimelineItem → Text → (TimelineItem → TimelineItem) → List TimelineItem
update_timeline [] id f = []
update_timeline (entry ∷ items) id f =
    if eq_text entry.id id then f entry ∷ items else entry ∷ update_timeline items id f

-- upsertTimeline with a Partial
unfoldable pub upsert_timeline : List TimelineItem → Text → Partial → List TimelineItem
unfolding merge
upsert_timeline [] id update = merge update (blank id) ∷ []
upsert_timeline (entry ∷ items) id update =
    if eq_text entry.id id
    then merge update entry ∷ items
    else entry ∷ upsert_timeline items id update

-- [...].includes(s)
abbrev pub includes : List Text → Text → Bool
includes [] s = false
includes (t ∷ ts) s = eq_text t s || includes ts s

unfoldable pub is_approval_request : Text → Bool
is_approval_request method =
    includes
      (codes "item/commandExecution/requestApproval"
        ∷ codes "item/fileChange/requestApproval"
        ∷ codes "execCommandApproval"
        ∷ codes "applyPatchApproval"
        ∷ [])
      method

unfoldable pub approves : Text → Bool
approves decision =
    includes
      (codes "accept"
        ∷ codes "acceptForSession"
        ∷ codes "approved"
        ∷ codes "approved_for_session"
        ∷ [])
      decision

unfoldable pub for_session : Text → Bool
for_session decision =
    includes (codes "acceptForSession" ∷ codes "approved_for_session" ∷ []) decision

-- An object of the fields that have a value
abbrev pub build : List (Text × Option Json) → Fields
build [] = empty
build ((name, none) ∷ rest) = build rest
build ((name, some value) ∷ rest) = field name value (build rest)

-- String(request.id)
unfoldable pub string_of_id : RequestId → Text
unfolding decimal
string_of_id (numeric (pos n)) = decimal n
string_of_id (numeric (negsuc n)) = b'-' ∷ decimal (n + 1)
string_of_id (textual s) = s

-- An id of a message
abbrev pub id_of : Option Json → Option RequestId
id_of (some (number n)) = some (numeric n)
id_of (some (string s)) = some (textual s)
id_of _ = none

unfoldable pub resolution : ℕ → ServerRequest → Fields → TimelineItem
unfolding approves for_session string_of_id
resolution now request result =
    let id = codes "approval-" ++ string_of_id request.id in
    let decision = string_or_empty (find (codes "decision") result) in
    record {
      id = id;
      turn_id = string_or_empty (find (codes "turnId") request.params);
      started_at_ms = elim (int_of (find (codes "startedAtMs") request.params)) [
        | none ↦ some (pos now)
        | some ms ↦ some ms
      ];
      completed_at_ms = some (pos now);
      progress = none;
      item = build (
          (codes "id", some (string id))
          ∷ (codes "type", some (string (codes "approvalResolution")))
          ∷ (codes "requestMethod", some (string request.method))
          ∷ (codes "requestParams", some (object request.params))
          ∷ (codes "approvalItemId", find (codes "itemId") request.params)
          ∷ (codes "decision", find (codes "decision") result)
          ∷ (codes "approved", some (boolean (approves decision)))
          ∷ (codes "session", some (boolean (for_session decision)))
          ∷ []);
    }

-- next.splice: before the entry with the id, or at the end
unfoldable pub insert_before : Option Text → TimelineItem → List TimelineItem → List TimelineItem
insert_before target entry [] = entry ∷ []
insert_before none entry (first ∷ items) = first ∷ insert_before none entry items
insert_before (some id) entry (first ∷ items) =
    if eq_text first.id id
    then entry ∷ first ∷ items
    else first ∷ insert_before (some id) entry items

unfoldable pub add_approval_resolution :
    ℕ → List TimelineItem → ServerRequest → Fields → List TimelineItem
add_approval_resolution now items request result =
    if is_approval_request request.method
    then insert_before (text_of (find (codes "itemId") request.params))
        (resolution now request result) items
    else items

-- error?.message ?? error?.error?.message ?? "Codex request failed.", of an error that is an object or missing
unfoldable pub text_from_error : Option Json → Text
text_from_error error = elim (text_of (get? (codes "message") error)) [
  | some message ↦ message
  | none ↦ elim (text_of (get? (codes "message") (get? (codes "error") error))) [
    | some message ↦ message
    | none ↦ elim error [ some (string s) ↦ s | _ ↦ codes "Codex request failed." ]
  ]
]

abbrev is_text_part : Json → Bool
is_text_part entry = eq_text (string_or_empty (get (codes "type") entry)) (codes "text")

abbrev text_parts : List Json → List Text
text_parts [] = []
text_parts (entry ∷ content) =
    let rest = text_parts content in
    if is_text_part entry then string_or_empty (get (codes "text") entry) ∷ rest else rest

unfoldable pub content_text : Option Json → Text
content_text content = join (codes "\n") (text_parts (list_of content))
