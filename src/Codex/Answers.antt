-- ===== src/Codex/Answers.antt =====
-- unraid-codex/web-src/src/protocol.ts: what an answer to a request does, and what `send` does not guard against.
use incus_unraid.Prelude.{
  ℕ, true, false, ◌≡◌, refl, ap, ◌⊎◌, inl, inr, Option, none, some, List, [], ◌∷◌, ◌++◌, Text,
  codes, eq_text, starts_with, Bool-cases, Option-cases,
}
use incus_unraid.Json.{Json, boolean, Fields, find, text_of}
use incus_unraid.Codex.Values.{string_or_empty}
use incus_unraid.Codex.State.{RequestId, ServerRequest, TimelineItem}
use incus_unraid.Codex.Timeline.{
  is_approval_request, approves, for_session, string_of_id, resolution, insert_before,
  add_approval_resolution,
}
use incus_unraid.Codex.Notifications.{Env, drop_if}
use incus_unraid.Codex.Client.{Client, open_, result, post, rpc}
use incus_unraid.Codex.Actions.{send, send_inputs, may_send}
use incus_unraid.Codex.Requests.{same_id, answer_request}
use incus_unraid.Codex.Distinct.{has_entry}

-- No request with the id is left.
abbrev pub IsAnswered : RequestId → List ServerRequest → Type 0
IsAnswered id [] = Unit
IsAnswered id (r ∷ rs) = (same_id r.id id ≡ false) × IsAnswered id rs

drop_request-IsAnswered :
    (id : RequestId) (rs : List ServerRequest) → IsAnswered id (drop_if (λ r. same_id r.id id) rs)
drop_request-IsAnswered id [] = tt
drop_request-IsAnswered id (r ∷ rs) = elim (Bool-cases (same_id r.id id)) [
  | inl e ↦ rw e (drop_request-IsAnswered id rs)
  | inr e ↦ rw e (e, drop_request-IsAnswered id rs)
]

-- What lies before the place of an entry, and behind it
abbrev pub Before : Option Text → List TimelineItem → List TimelineItem → Type 0
Before none before after = after ≡ []
Before (some id) before [] = has_entry id before ≡ false
Before (some id) before (first ∷ after) =
    (has_entry id before ≡ false) × (eq_text first.id id ≡ true)

-- Where an entry goes that resolves the approval of an item: right before the first entry of the item, or at the end
abbrev pub Placed : Option Text → TimelineItem → List TimelineItem → List TimelineItem → Type 0
Placed target entry old new =
    (before : List TimelineItem) × (after : List TimelineItem) × (old ≡ before ++ after)
    × (new ≡ before ++ entry ∷ after)
    × Before target before after

Before-cons :
    (id : Text) (first : TimelineItem) (before after : List TimelineItem)
    → eq_text first.id id ≡ false
    → Before (some id) before after
    → Before (some id) (first ∷ before) after
Before-cons id first before [] e at = rw e at
Before-cons id first before (next ∷ after) e (none_before, here) = (rw e none_before, here)

insert_before-Placed :
    (target : Option Text) (entry : TimelineItem) (items : List TimelineItem)
    → Placed target entry items (insert_before target entry items)
unfolding insert_before
insert_before-Placed none entry [] = ([], [], refl, refl, refl)
insert_before-Placed (some id) entry [] = ([], [], refl, refl, refl)
insert_before-Placed none entry (first ∷ items) =
    let (before, after, old, new, at) = insert_before-Placed none entry items in
    (first ∷ before, after, ap (◌∷◌ first) old, ap (◌∷◌ first) new, at)
insert_before-Placed (some id) entry (first ∷ items) = elim (Bool-cases (eq_text first.id id)) [
  | inl e ↦ ([], first ∷ items, refl, rw e refl, (refl, e))
  | inr e ↦
      let (before, after, old, new, at) = insert_before-Placed (some id) entry items in
      (
        first ∷ before,
        after,
        ap (◌∷◌ first) old,
        rw e (ap (◌∷◌ first) new),
        Before-cons id first before after e at,
      )
]

-- Whether an entry tells the decision.
abbrev pub Tells : ServerRequest → Text → TimelineItem → Type 0
Tells req decision entry =
    (entry.id ≡ codes "approval-" ++ string_of_id req.id)
    × (find (codes "approvalItemId") entry.item ≡ find (codes "itemId") req.params)
    × (find (codes "approved") entry.item ≡ some (boolean (approves decision)))
    × (find (codes "session") entry.item ≡ some (boolean (for_session decision)))

resolution-Tells :
    (now : ℕ) (req : ServerRequest) (answer : Fields)
    → Tells req (string_or_empty (find (codes "decision") answer)) (resolution now req answer)
unfolding resolution find eq_text
resolution-Tells now req answer = elim (Option-cases (find (codes "itemId") req.params)) [
  | inl e ↦ elim (Option-cases (find (codes "decision") answer)) [
    | inl f ↦ rw e (rw f (refl, refl, refl, refl))
    | inr (d, f) ↦ rw e (rw f (refl, refl, refl, refl))
  ]
  | inr (i, e) ↦ elim (Option-cases (find (codes "decision") answer)) [
    | inl f ↦ rw e (rw f (refl, refl, refl, refl))
    | inr (d, f) ↦ rw e (rw f (refl, refl, refl, refl))
  ]
]

-- An answer over an open socket to a request of the server, that is not one of an MCP app: it is sent once, before anything that
-- was sent so far; no request with its id is left; and where the request asks for an approval, one entry comes into the
-- timeline, right before the first entry of the item that it is about or at the end where there is none, that names the request
-- and the item and tells whether the decision approves, once or for the session; else the timeline stays.
pub answer_request_lem :
    (parse_url : Text → Option (Text × Text)) (env : Env) (req : ServerRequest) (answer : Fields)
    (c : Client)
    → starts_with req.method (codes "mcpApp/") ≡ false
    → c.socket ≡ open_
    → let c' = answer_request parse_url env req answer c in
      (c'.sent ≡ result req.id answer ∷ c.sent)
      × IsAnswered req.id c'.view.state.requests
      × (((is_approval_request req.method ≡ true)
            × ((entry : TimelineItem) × Tells req
                  (string_or_empty (find (codes "decision") answer))
                  entry
                × Placed
                    (text_of (find (codes "itemId") req.params))
                    entry
                    c.view.state.items
                    c'.view.state.items))
          ⊎ ((is_approval_request req.method ≡ false) × (c'.view.state.items ≡ c.view.state.items)))
unfolding answer_request post add_approval_resolution
answer_request_lem parse_url env req answer c server up =
    let gone = drop_request-IsAnswered req.id c.view.state.requests in
    elim (Bool-cases (is_approval_request req.method)) [
      | inl e ↦ rw server (
          rw up (
            rw e (
              refl,
              gone,
              inl (
                refl,
                (
                  resolution env.now req answer,
                  resolution-Tells env.now req answer,
                  insert_before-Placed (text_of (find (codes "itemId") req.params))
                      (resolution env.now req answer) c.view.state.items,
                ),
              ),
            )))
      | inr e ↦ rw server (rw up (rw e (refl, gone, inr (refl, refl))))
    ]

-- The guard of `send` does not see a message that is being sent: until the reply to its turn/start has come, another one goes
-- through as if there were none.
pub may_send-again :
    (env : Env) (text again thread : Text) (images : List Json) (c : Client)
    → c.socket ≡ open_
    → may_send again (send_inputs env thread text images (send env text c)) ≡ may_send again c
unfolding may_send send send_inputs rpc
may_send-again env text again thread images c up = elim (Bool-cases (may_send text c)) [
  | inl e ↦ rw e (rw up refl)
  | inr e ↦ rw e (rw up refl)
]
