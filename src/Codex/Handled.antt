-- ===== src/Codex/Handled.antt =====
-- unraid-codex/web-src/src/protocol.ts: the invariant through the messages of the server.
use incus_unraid.Prelude.{
  ◌||◌, ◌≡◌, refl, sym, ◌∙◌, inl, inr, some, [], Text, eq_text, codes, Bool-cases, Option-cases,
}
use incus_unraid.Json.{text_of, Fields, find}
use incus_unraid.Codex.Values.{truthy, string_or_empty}
use incus_unraid.Codex.State.{ServerRequest}
use incus_unraid.Codex.Timeline.{id_of}
use incus_unraid.Codex.Notifications.{Env, View, Method, oauth_completed, skills_changed, param}
use incus_unraid.Codex.Dispatch.{handle_notification}
use incus_unraid.Codex.Kept.{handle_notification-Kept}
use incus_unraid.Codex.Client.{Client, show, receive_request, follow_up, handle_message}
use incus_unraid.Codex.Once.{Inv, Calm, Calm-Inv, rpc-Inv, post-Calm, settle-Inv}

-- A client whose calls and whose turn, notices and events are those of another.
pub alike-Calm :
    (c d : Client)
    → (d.next_id ≡ c.next_id) × (d.pending ≡ c.pending) × (d.settled ≡ c.settled)
    → (d.view.active_turn ≡ c.view.active_turn)
      × (d.view.state.active_turn_id ≡ c.view.state.active_turn_id)
      × (d.view.state.notices ≡ c.view.state.notices)
      × (d.view.state.events ≡ c.view.state.events)
    → Calm c d
alike-Calm c d (n, p, s) (t, u, o, e) = record {
  next = n;
  pending = p;
  settled = s;
  view =
      λ k. record { turn = t ∙ k.turn ∙ sym u; notices = rw o k.notices; events = rw e k.events };
}

abbrev pub same_calls :
    (c : Client) → (c.next_id ≡ c.next_id) × (c.pending ≡ c.pending) × (c.settled ≡ c.settled)
same_calls c = (refl, refl, refl)

abbrev pub same_view :
    (v : View)
    → (v.active_turn ≡ v.active_turn)
      × (v.state.active_turn_id ≡ v.state.active_turn_id)
      × (v.state.notices ≡ v.state.notices)
      × (v.state.events ≡ v.state.events)
same_view v = (refl, refl, refl, refl)

receive_request-Inv :
    (env : Env) (req : ServerRequest) (c : Client) → Inv c → Inv (receive_request env req c)
unfolding receive_request
receive_request-Inv env req c i =
    elim (Bool-cases (eq_text req.method (codes "currentTime/read"))) [
      | inl e ↦ rw e (Calm-Inv c _ (post-Calm _ c) i)
      | inr e ↦
          elim (Bool-cases (
            eq_text req.method (codes "account/chatgptAuthTokens/refresh")
            || eq_text req.method (codes "attestation/generate"))) [
              | inl f ↦ rw e (rw f (Calm-Inv c _ (post-Calm _ c) i))
              | inr f ↦
                  rw e (rw f (Calm-Inv c _ (alike-Calm c _ (same_calls c) (same_view c.view)) i))
            ]
    ]

follow_up-Inv :
    (env : Env) (m : Method) (params : Fields) (c : Client) → Inv c → Inv (follow_up env m params c)
unfolding follow_up
follow_up-Inv env oauth_completed params c i =
    elim (Bool-cases (truthy (param (codes "success") params))) [
      | inl e ↦ rw e (rpc-Inv env _ _ _ c i)
      | inr e ↦ rw e i
    ]
follow_up-Inv env skills_changed params c i = rpc-Inv env _ _ _ c i
follow_up-Inv env _ params c i = i

notified-Inv :
    (env : Env) (method : Text) (params : Fields) (c : Client)
    → Inv c
    → Inv (show (handle_notification env method params) c)
notified-Inv env method params c i = record {
  kept = handle_notification-Kept env method params c.view i.kept;
  first = i.first;
  once = i.once;
}

pub handle_message-Inv :
    (env : Env) (message : Fields) (c : Client) → Inv c → Inv (handle_message env message c)
unfolding handle_message
handle_message-Inv env message c i = elim (Option-cases (find (codes "id") message)) [
  | inl e ↦ elim (Option-cases (text_of (find (codes "method") message))) [
    | inl n ↦ rw (e, handle_message) (rw (n, handle_message) i)
    | inr (name, n) ↦
        rw (e, handle_message)
          (rw (n, handle_message) (follow_up-Inv env _ _ _ (notified-Inv env _ _ c i)))
  ]
  | inr (value, e) ↦ elim (Option-cases (id_of (some value))) [
    | inl f ↦ rw (e, handle_message) (rw (f, handle_message) i)
    | inr (id, f) ↦
        elim (Bool-cases (eq_text (string_or_empty (find (codes "method") message)) [])) [
          | inl g ↦ rw (e, handle_message) (rw (f, handle_message) (rw g (settle-Inv env id _ c i)))
          | inr g ↦
              rw (e, handle_message) (rw (f, handle_message) (rw g (receive_request-Inv env _ c i)))
        ]
  ]
]
