-- ===== src/Codex/Kept.antt =====
-- unraid-codex/web-src/src/protocol.ts: what every change of the shown state keeps: the turn that the ref names is the one that
-- the state shows, and the lists of notices and of events stay short.
use incus_unraid.Prelude.{
  last_of, ℕ, ◌-◌, ◌≤◌, Bool, true, false, ◌≡◌, refl, sym, ◌∙◌, inl, inr, Option, List, [], ◌∷◌,
  if◌then◌else◌, length, codes, length-append, length-drop, Text, Bool-cases, Option-cases, arith,
}
use incus_unraid.Json.{Json, Fields, text_of, get?}
use incus_unraid.Codex.Values.{truthy}
use incus_unraid.Codex.State.{TimelineItem, Tone, Notice}
use incus_unraid.Codex.Notifications.{
  Env, View, Method, item_started, item_completed, text_delta, summary_text_delta,
  summary_part_added, reasoning_text_delta, output_delta, patch_updated, tool_progress,
  turn_started, turn_completed, status_changed, login_completed, errored, warned, deprecated,
  compacted, rerouted, startup_status_updated, oauth_completed, hook_started, hook_completed,
  realtime_error, on_item, method_of, connected_state, is_string, param, add_notice, log_event,
  is_delta, drop_if,
}
use incus_unraid.Codex.Dispatch.{object_of, noticed, changed, handle_notification}

pub record Kept (v : View) : Type 0 where
  pub turn : v.active_turn ≡ v.state.active_turn_id
  pub notices : length v.state.notices ≤ 6
  pub events : length v.state.events ≤ 50

pub length-last_of {ℓ} : {A : Type ℓ} (n : ℕ) (xs : List A) → length (last_of n xs) ≤ n
unfolding last_of
length-last_of n xs = omega (arith, length-drop (length xs - n) xs)

pub length-drop_if : {A : Type 0} (p : A → Bool) (xs : List A) → length (drop_if p xs) ≤ length xs
length-drop_if p [] = omega arith
length-drop_if p (x ∷ xs) = ground (arith, length-drop_if p xs)

pub add_notice-Kept :
    (env : Env) (tone : Tone) (title : Text) (description : Option Text) (v : View)
    → Kept v
    → Kept (add_notice env tone title description v)
unfolding add_notice
add_notice-Kept env tone title description v k = record {
  turn = k.turn;
  events = k.events;
  notices =
      (let added : List Notice =
          record { id = env.uuid; tone = tone; title = title; description = description } ∷ [] in
        omega (
          arith,
          length-append (last_of 5 v.state.notices) added,
          length-last_of 5 v.state.notices,
        ));
}

if-Kept : (b : Bool) {v w : View} → Kept v → Kept w → Kept (if b then v else w)
if-Kept true k l = k
if-Kept false k l = l

log_event-Kept :
    (env : Env) (method : Text) (params : Fields) (v : View)
    → Kept v
    → Kept (log_event env method params v)
unfolding log_event
log_event-Kept env method params v k = elim (Bool-cases (is_delta method)) [
  | inl e ↦ rw e k
  | inr e ↦ rw e (record {
    turn = k.turn;
    notices = k.notices;
    events = omega (
      arith,
      length-append (last_of 49 v.state.events)
          (record { method = method; params = params; at = env.now } ∷ []),
      length-last_of 49 v.state.events,
    );
  })
]

noticed-Kept :
    (env : Env) (m : Method) (params : Fields) (v : View) → Kept v → Kept (noticed env m params v)
unfolding noticed
noticed-Kept env login_completed params v k = if-Kept _ k (add_notice-Kept env _ _ _ v k)
noticed-Kept env startup_status_updated params v k = if-Kept _ (add_notice-Kept env _ _ _ v k) k
noticed-Kept env errored params v k = add_notice-Kept env _ _ _ v k
noticed-Kept env warned params v k = add_notice-Kept env _ _ _ v k
noticed-Kept env deprecated params v k = add_notice-Kept env _ _ _ v k
noticed-Kept env compacted params v k = add_notice-Kept env _ _ _ v k
noticed-Kept env rerouted params v k = add_notice-Kept env _ _ _ v k
noticed-Kept env oauth_completed params v k = add_notice-Kept env _ _ _ v k
noticed-Kept env hook_started params v k = add_notice-Kept env _ _ _ v k
noticed-Kept env hook_completed params v k = add_notice-Kept env _ _ _ v k
noticed-Kept env realtime_error params v k = add_notice-Kept env _ _ _ v k
noticed-Kept env _ params v k = k

-- A change of other fields
abbrev Alike : View → View → Type 0
Alike v w =
    (w.active_turn ≡ v.active_turn)
    × (w.state.active_turn_id ≡ v.state.active_turn_id)
    × (w.state.notices ≡ v.state.notices)
    × (w.state.events ≡ v.state.events)

Alike-Kept : (v w : View) → Alike v w → Kept v → Kept w
Alike-Kept v w (t, u, n, e) k = record {
  turn = t ∙ k.turn ∙ sym u;
  notices = rw n k.notices;
  events = rw e k.events;
}

abbrev settled : (v : View) → Alike v v
settled v = (refl, refl, refl, refl)

on_item-Alike :
    (id : Option Json) (f : TimelineItem → TimelineItem) (v : View) → Alike v (on_item id f v)
on_item-Alike id f v = elim (Option-cases (text_of id)) [
  | inl e ↦ rw (e, on_item) (settled v)
  | inr (t, e) ↦ rw (e, on_item) (settled v)
]

changed-Kept : (m : Method) (params : Fields) (v : View) → Kept v → Kept (changed m params v)
unfolding changed
changed-Kept item_started params v k =
    elim (Option-cases (object_of (param (codes "item") params))) [
      | inl e ↦ rw (e, changed) k
      | inr (item, e) ↦
          rw (e, changed) (record { turn = k.turn; notices = k.notices; events = k.events })
    ]
changed-Kept item_completed params v k =
    elim (Option-cases (object_of (param (codes "item") params))) [
      | inl e ↦ rw (e, changed) k
      | inr (item, e) ↦
          rw (e, changed) (record { turn = k.turn; notices = k.notices; events = k.events })
    ]
changed-Kept text_delta params v k = Alike-Kept v _ (on_item-Alike _ _ v) k
changed-Kept summary_text_delta params v k = Alike-Kept v _ (on_item-Alike _ _ v) k
changed-Kept summary_part_added params v k = Alike-Kept v _ (on_item-Alike _ _ v) k
changed-Kept reasoning_text_delta params v k = Alike-Kept v _ (on_item-Alike _ _ v) k
changed-Kept output_delta params v k = Alike-Kept v _ (on_item-Alike _ _ v) k
changed-Kept patch_updated params v k = Alike-Kept v _ (on_item-Alike _ _ v) k
changed-Kept tool_progress params v k = Alike-Kept v _ (on_item-Alike _ _ v) k
changed-Kept turn_started params v k = record {
  turn = refl;
  notices = k.notices;
  events = k.events;
}
changed-Kept turn_completed params v k = record {
  turn = refl;
  notices = k.notices;
  events = k.events;
}
changed-Kept status_changed params v k =
    let idle : Kept (connected_state v) = record {
      turn = refl;
      notices = k.notices;
      events = k.events;
    } in
    elim (Bool-cases
      (is_string (get? (codes "type") (param (codes "status") params)) (codes "idle"))) [
        | inl e ↦ rw e idle
        | inr e ↦ rw e k
      ]
changed-Kept login_completed params v k =
    elim (Bool-cases (truthy (param (codes "success") params))) [
      | inl e ↦ rw e (record { turn = k.turn; notices = k.notices; events = k.events })
      | inr e ↦ rw e k
    ]
changed-Kept _ params v k = record { turn = k.turn; notices = k.notices; events = k.events }

pub handle_notification-Kept :
    (env : Env) (name : Text) (params : Fields) (v : View)
    → Kept v
    → Kept (handle_notification env name params v)
unfolding handle_notification
handle_notification-Kept env name params v k =
    noticed-Kept env (method_of name) params
      (changed (method_of name) params (log_event env name params v))
      (changed-Kept (method_of name) params (log_event env name params v)
        (log_event-Kept env name params v k))
