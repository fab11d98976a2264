-- ===== src/Codex/Stream.antt =====
-- unraid-codex/web-src/src/protocol.ts: a message that comes in deltas is put together in its timeline entry.
use incus_unraid.Prelude.{
  true, false, ◌≡◌, refl, sym, ◌∙◌, ap, ◌⊎◌, inl, inr, Option, none, some, List, [], ◌∷◌, ◌++◌, All,
  if◌then◌else◌, Text, codes, eq_text, eq_text_iff, Bool-cases, arith,
}
use mathlib.Core.Option
use mathlib.Core.List.{append_assoc, append-nil}
use incus_unraid.Json.{Json, string, Fields, find, text_of}
use incus_unraid.Codex.Values.{or_else, string_or_empty, find-put}
use incus_unraid.Codex.State.{TimelineItem}
use incus_unraid.Codex.Timeline.{update_timeline}
use incus_unraid.Codex.Notifications.{
  Env, View, text_delta, output_delta, method_of, log_event, is_delta, on_item, append_text,
}
use incus_unraid.Codex.Dispatch.{changed, noticed, handle_notification}

-- The first entry with an id, which is the one that upsertTimeline changes
unfoldable pub entry_at : Text → List TimelineItem → Option TimelineItem
entry_at id [] = none
entry_at id (entry ∷ items) =
    let rest = entry_at id items in if eq_text entry.id id then some entry else rest

pub entry_at-update_timeline :
    (id j : Text) (f : TimelineItem → TimelineItem) (items : List TimelineItem)
    → ((e : TimelineItem) → (f e).id ≡ e.id)
    → entry_at j (update_timeline items id f)
      ≡ (if eq_text id j then Option.map f (entry_at id items) else entry_at j items)
unfolding entry_at update_timeline
entry_at-update_timeline id j f [] keeps = ground arith
entry_at-update_timeline id j f (e ∷ items) keeps = ground (
  arith,
  keeps e,
  eq_text_iff e.id id,
  eq_text_iff e.id j,
  eq_text_iff id j,
  entry_at-update_timeline id j f items keeps,
)

pub log_event-items :
    (env : Env) (name : Text) (params : Fields) (v : View)
    → (log_event env name params v).state.items ≡ v.state.items
unfolding log_event
log_event-items env name params v = elim (Bool-cases (is_delta name)) [
  | inl e ↦ rw e refl
  | inr e ↦ rw e refl
]

-- A notification of a delta: the field of the item that it extends, the item and the message's parameters, whatever else
-- these hold
pub record Delta : Type 0 where
  pub name : Text
  pub at : Text
  pub id : Text
  pub params : Fields

-- What makes it one: an agent's message or a plan names its item as itemId, the output of a command as itemId or, where that is
-- missing, as processId.
abbrev pub IsDelta : Delta → Type 0
IsDelta d =
    ((method_of d.name ≡ text_delta)
      × (d.at ≡ codes "text")
      × (text_of (find (codes "itemId") d.params) ≡ some d.id))
    ⊎ ((method_of d.name ≡ output_delta)
        × (d.at ≡ codes "aggregatedOutput")
        × (text_of (or_else (find (codes "itemId") d.params) (find (codes "processId") d.params))
            ≡ some d.id))

abbrev pub delta_of : Delta → Option Json
delta_of d = find (codes "delta") d.params

on_item-items :
    (value : Option Json) (id : Text) (f : TimelineItem → TimelineItem) (v : View)
    → text_of value ≡ some id
    → (on_item value f v).state.items ≡ update_timeline v.state.items id f
on_item-items value id f v e = rw (e, on_item) refl

handle_notification-items :
    (env : Env) (d : Delta) (v : View)
    → IsDelta d
    → (handle_notification env d.name d.params v).state.items
      ≡ update_timeline v.state.items d.id (append_text d.at (delta_of d))
unfolding handle_notification changed noticed
handle_notification-items env d v (inl (m, f, i)) =
    let logged = log_event env d.name d.params v in
    let g = append_text (codes "text") (delta_of d) in
    rw m (
      rw f (
        on_item-items (find (codes "itemId") d.params) d.id g logged i
        ∙ ap (λ l. update_timeline l d.id g) (log_event-items env d.name d.params v)))
handle_notification-items env d v (inr (m, f, i)) =
    let logged = log_event env d.name d.params v in
    let g = append_text (codes "aggregatedOutput") (delta_of d) in
    rw m (
      rw f (
        on_item-items (or_else (find (codes "itemId") d.params) (find (codes "processId") d.params))
          d.id g logged i
        ∙ ap (λ l. update_timeline l d.id g) (log_event-items env d.name d.params v)))

-- A run of deltas
unfoldable pub stream : Env → List Delta → View → View
stream env [] v = v
stream env (d ∷ ds) v = stream env ds (handle_notification env d.name d.params v)

-- The deltas of one item, one behind the other
abbrev pub text_for : Text → List Delta → Text
text_for id [] = []
text_for id (d ∷ ds) =
    let rest = text_for id ds in
    if eq_text d.id id then string_or_empty (delta_of d) ++ rest else rest

abbrev pub text_at : Text → TimelineItem → Text
text_at at entry = string_or_empty (find at entry.item)

-- A delta of the field of the item, or of another item
abbrev pub Fits : Text → Text → Delta → Type 0
Fits id at d = IsDelta d × ((d.at ≡ at) ⊎ (eq_text d.id id ≡ false))

abbrev pub Other : Text → Delta → Type 0
Other j d = IsDelta d × (eq_text d.id j ≡ false)

append_text-id :
    (at : Text) (delta : Option Json) (e : TimelineItem) → (append_text at delta e).id ≡ e.id
unfolding append_text
append_text-id at delta e = refl

text_at-append_text :
    (at : Text) (delta : Option Json) (e : TimelineItem)
    → text_at at (append_text at delta e) ≡ text_at at e ++ string_or_empty delta
unfolding append_text
text_at-append_text at delta e =
    rw (find-put at at (string (text_at at e ++ string_or_empty delta)) e.item)
      (rw ((eq_text_iff at at).1 refl) refl)

other-append_text :
    (at other : Text) (delta : Option Json) (e : TimelineItem)
    → eq_text at other ≡ false
    → find other (append_text at delta e).item ≡ find other e.item
unfolding append_text
other-append_text at other delta e n =
    rw (find-put other at (string (text_at at e ++ string_or_empty delta)) e.item) (rw n refl)

-- What one delta does to the entry with an id
step-entry :
    (env : Env) (d : Delta) (v : View) (j : Text)
    → IsDelta d
    → entry_at j (handle_notification env d.name d.params v).state.items ≡ (
        if eq_text d.id j
        then Option.map (append_text d.at (delta_of d)) (entry_at d.id v.state.items)
        else entry_at j v.state.items)
step-entry env d v j is =
    ap (entry_at j) (handle_notification-items env d v is)
    ∙ entry_at-update_timeline d.id j (append_text d.at (delta_of d)) v.state.items
        (λ x. append_text-id d.at (delta_of d) x)

-- An entry that no delta is about stays as it was, also one that is not there.
pub stream-others :
    (env : Env) (ds : List Delta) (v : View) (j : Text)
    → All (Other j) ds
    → entry_at j (stream env ds v).state.items ≡ entry_at j v.state.items
unfolding stream
stream-others env [] v j h = refl
stream-others env (d ∷ ds) v j ((is, n), h) =
    stream-others env ds (handle_notification env d.name d.params v) j h
    ∙ step-entry env d v j is
    ∙ rw n refl

-- Texts that come in deltas, as an agent's message, a plan or the output of a command, in any interleaving of the items and
-- whatever else the notifications hold: where the deltas of one item are of one field, its entry then holds in that field
-- what it held before with the deltas of the item behind it in their order, and every other field of the item is as before.
pub stream_lem :
    (env : Env) (at id : Text) (ds : List Delta) (v : View) (e : TimelineItem)
    → All (Fits id at) ds
    → entry_at id v.state.items ≡ some e
    → (e' : TimelineItem) × (entry_at id (stream env ds v).state.items ≡ some e')
      × (text_at at e' ≡ text_at at e ++ text_for id ds)
      × ((other : Text) → (eq_text at other ≡ true) ⊎ (find other e'.item ≡ find other e.item))
unfolding stream
stream_lem env at id [] v e h here = (e, here, sym (append-nil (text_at at e)), λ other. inr refl)
stream_lem env at id (d ∷ ds) v e ((is, fits), h) here =
    let next = handle_notification env d.name d.params v in
    let moved = step-entry env d v id is in
    elim (Bool-cases (eq_text d.id id)) [
      | inr n ↦
          let stays : entry_at id next.state.items ≡ some e = moved ∙ rw n here in
          rw n (stream_lem env at id ds next e h stays)
      | inl y ↦
          let same : d.id ≡ id = (eq_text_iff d.id id).0 y in
          let field_ : d.at ≡ at = elim fits [ inl f ↦ f | inr n ↦ absurd (cc) ] in
          let e1 = append_text d.at (delta_of d) e in
          let there : entry_at d.id v.state.items ≡ some e =
            ap (λ x. entry_at x v.state.items) same ∙ here in
          let first : entry_at id next.state.items ≡ some e1 = moved ∙ rw y (rw there refl) in
          let (e', found, text, rest) = stream_lem env at id ds next e1 h first in
          let added : text_at at e1 ≡ text_at at e ++ string_or_empty (delta_of d) =
            ap (λ x. text_at at (append_text x (delta_of d) e)) field_
            ∙ text_at-append_text at (delta_of d) e in
          (
            e',
            found,
            rw y (
                text
                ∙ ap (λ x. x ++ text_for id ds) added
                ∙ append_assoc (text_at at e) (string_or_empty (delta_of d)) (text_for id ds)),
            λ other. elim (Bool-cases (eq_text at other)) [
              | inl k ↦ inl k
              | inr k ↦ elim (rest other) [
                | inl k' ↦ inl k'
                | inr r ↦ inr (
                    r
                    ∙ ap (λ x. find other (append_text x (delta_of d) e).item) field_
                    ∙ other-append_text at other (delta_of d) e k)
              ]
            ],
          )
    ]
