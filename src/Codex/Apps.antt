-- ===== src/Codex/Apps.antt =====
-- unraid-codex/web-src/src/protocol.ts: what becomes of the promise that an action of an MCP app waits for.
use incus_unraid.Prelude.{
  Bool, true, false, not, ◌≡◌, refl, ◌∙◌, ap, ◌⊎◌, inl, inr, Option, none, some, List, [], ◌∷◌,
  ◌++◌, if◌then◌else◌, Text, codes, eq_text, starts_with, Bool-cases, Option-cases,
}
use incus_unraid.Json.{Fields, object, empty, find}
use incus_unraid.Codex.Values.{string_or_empty}
use incus_unraid.Codex.State.{ServerRequest}
use incus_unraid.Codex.Timeline.{string_of_id}
use incus_unraid.Codex.Notifications.{Env, drop_if}
use incus_unraid.Codex.Client.{
  Client, Reply, fulfilled, rejected, request, call_tool, is_open, rpc, resume, reject,
}
use incus_unraid.Codex.Requests.{
  declined, is_error, is_accepted, drop_request, is_web, has_local, open_link, answer_app,
  answer_request,
}

-- A client in which a call of the server, a frame, an address or the answer to a promise may have been added
pub record Added (c c' : Client) (answers : List (Text × Reply)) (addresses : List Text)
    : Type 0 where
  pub answered : c'.answered ≡ answers ++ c.answered
  pub opened : c'.opened ≡ addresses ++ c.opened
  pub sent : c'.sent ≡ c.sent
  pub pending : c'.pending ≡ c.pending

abbrev pub is_tool : ServerRequest → Bool
is_tool req = eq_text req.method (codes "mcpApp/tool/requestApproval")

abbrev pub is_link : ServerRequest → Bool
is_link req = eq_text req.method (codes "mcpApp/openLink/requestApproval")

abbrev pub url_of : ServerRequest → Text
url_of req = string_or_empty (find (codes "url") req.params)

-- What becomes of the promise of an MCP app's action when it is answered
pub data Fate (parse_url : Text → Option (Text × Text)) (req : ServerRequest) (answer : Fields)
    (c c' : Client) : Type 0 where
  refused :
      is_accepted answer ≡ false
      → Added c c' ((string_of_id req.id, fulfilled declined) ∷ []) []
      → Fate parse_url req answer c c'
  passed_on :
      is_accepted answer ≡ true
      → is_tool req ≡ true
      → c'.answered ≡ c.answered
      → c'.opened ≡ c.opened
      → c'.pending ≡ c.pending ++ (c.next_id, call_tool (string_of_id req.id)) ∷ []
      → (params : Fields) × (c'.sent
          ≡ request c.next_id (codes "mcpServer/tool/call") params ∷ c.sent)
      → Fate parse_url req answer c c'
  disconnected :
      is_accepted answer ≡ true
      → is_tool req ≡ true
      → is_open c.socket ≡ false
      → (message : Text) × Added c c' ((string_of_id req.id, rejected message) ∷ []) []
      → Fate parse_url req answer c c'
  opened_link :
      is_accepted answer ≡ true
      → is_link req ≡ true
      → (href : Text) × (protocol : Text) × (parse_url (url_of req) ≡ some (href, protocol))
        × (is_web protocol ≡ true)
        × Added c c' ((string_of_id req.id, fulfilled (some (object empty))) ∷ []) (href ∷ [])
      → Fate parse_url req answer c c'
  not_web :
      is_accepted answer ≡ true
      → is_link req ≡ true
      → (href : Text) × (protocol : Text) × (parse_url (url_of req) ≡ some (href, protocol))
        × (is_web protocol ≡ false)
        × Added c c' ((string_of_id req.id, fulfilled is_error) ∷ []) []
      → Fate parse_url req answer c c'
  forgotten :
      is_accepted answer ≡ true
      → is_tool req ≡ false
      → (parse_url (url_of req) ≡ none) ⊎ (is_link req ≡ false)
      → Added c c' [] []
      → Fate parse_url req answer c c'

module _ (parse_url : Text → Option (Text × Text)) (req : ServerRequest) (answer : Fields)
    (yes : is_accepted answer ≡ true) where
  tool-Fate :
      (env : Env) (params : Fields) (c : Client)
      → is_tool req ≡ true
      → Fate parse_url req answer c
          (rpc env (codes "mcpServer/tool/call") params (call_tool (string_of_id req.id)) c)
  unfolding rpc resume reject
  tool-Fate env params c tool = elim (Bool-cases (is_open c.socket)) [
    | inl e ↦ rw e (passed_on yes tool refl refl refl (params, refl))
    | inr e ↦ rw e (
        disconnected yes tool e
          (_, record { answered = refl; opened = refl; sent = refl; pending = refl }))
  ]

  open_link-Fate :
      (c : Client)
      → is_tool req ≡ false
      → is_link req ≡ true
      → Fate parse_url req answer c (open_link parse_url (string_of_id req.id) (url_of req) c)
  unfolding open_link
  open_link-Fate c tool link = elim (Option-cases (parse_url (url_of req))) [
    | inl e ↦
        rw (e, open_link)
          (forgotten yes tool (inl e)
            (record { answered = refl; opened = refl; sent = refl; pending = refl }))
    | inr ((href, protocol), e) ↦ elim (Bool-cases (is_web protocol)) [
      | inl f ↦
          rw (e, open_link)
            (rw f (
              opened_link yes link (
                href,
                protocol,
                e,
                f,
                record { answered = refl; opened = refl; sent = refl; pending = refl },
              )))
      | inr f ↦
          rw (e, open_link)
            (rw f (
              not_web yes link (
                href,
                protocol,
                e,
                f,
                record { answered = refl; opened = refl; sent = refl; pending = refl },
              )))
    ]
  ]

answer_app-Fate :
    (parse_url : Text → Option (Text × Text)) (env : Env) (req : ServerRequest) (answer : Fields)
    (c : Client)
    → Fate parse_url req answer c (answer_app parse_url env req answer c)
unfolding answer_app
answer_app-Fate parse_url env req answer c = elim (Bool-cases (is_accepted answer)) [
  | inr e ↦
      rw e (refused e (record { answered = refl; opened = refl; sent = refl; pending = refl }))
  | inl e ↦ elim (Bool-cases (is_tool req)) [
    | inl f ↦ rw e (rw f (tool-Fate parse_url req answer e env _ c f))
    | inr f ↦ elim (Bool-cases (is_link req)) [
      | inl g ↦ rw e (rw f (rw g (open_link-Fate parse_url req answer e c f g)))
      | inr g ↦ rw e (
          rw f (
            rw g (
              forgotten e f (inr g)
                (record { answered = refl; opened = refl; sent = refl; pending = refl }))))
    ]
  ]
]

drop_if-has_local :
    (id : Text) (ids : List Text) → has_local id (drop_if (λ t. eq_text t id) ids) ≡ false
drop_if-has_local id [] = refl
drop_if-has_local id (t ∷ ids) = elim (Bool-cases (eq_text t id)) [
  | inl e ↦ rw e (drop_if-has_local id ids)
  | inr e ↦ rw e (rw e (drop_if-has_local id ids))
]

rpc-local :
    (env : Env) (method : Text) (params : Fields) (id : Text) (c : Client)
    → (rpc env method params (call_tool id) c).local ≡ c.local
unfolding rpc resume
rpc-local env method params id c = elim (Bool-cases (is_open c.socket)) [
  | inl e ↦ rw e refl
  | inr e ↦ rw e refl
]

open_link-local :
    (parse_url : Text → Option (Text × Text)) (id url : Text) (c : Client)
    → (open_link parse_url id url c).local ≡ c.local
unfolding open_link
open_link-local parse_url id url c = elim (Option-cases (parse_url url)) [
  | inl e ↦ rw (e, open_link) refl
  | inr ((href, protocol), e) ↦ elim (Bool-cases (is_web protocol)) [
    | inl f ↦ rw (e, open_link) (rw f refl)
    | inr f ↦ rw (e, open_link) (rw f refl)
  ]
]

if-local :
    (ids : List Text) (b : Bool) (c d : Client)
    → c.local ≡ ids
    → d.local ≡ ids
    → (if b then c else d).local ≡ ids
if-local ids true c d p q = p
if-local ids false c d p q = q

answer_app-local :
    (parse_url : Text → Option (Text × Text)) (env : Env) (req : ServerRequest) (answer : Fields)
    (c : Client)
    → (answer_app parse_url env req answer c).local ≡ c.local
unfolding answer_app
answer_app-local parse_url env req answer c = if-local c.local (not (is_accepted answer)) _ _ refl (
    if-local c.local (eq_text req.method (codes "mcpApp/tool/requestApproval")) _ _
      (rpc-local env _ _ (string_of_id req.id) c)
      (if-local c.local (eq_text req.method (codes "mcpApp/openLink/requestApproval")) _ _
        (open_link-local parse_url (string_of_id req.id) _ c) refl))

-- What stands behind the removal of a request is told of the state before it.
Fate-dropped :
    (parse_url : Text → Option (Text × Text)) (req : ServerRequest) (answer : Fields)
    (ids : List Text) (c c' : Client)
    → Fate parse_url req answer (record c { local = ids; view = drop_request req.id c.view }) c'
    → Fate parse_url req answer c c'
Fate-dropped parse_url req answer ids c c' (refused y a) =
    refused y
      (record { answered = a.answered; opened = a.opened; sent = a.sent; pending = a.pending })
Fate-dropped parse_url req answer ids c c' (passed_on y t a o p s) = passed_on y t a o p s
Fate-dropped parse_url req answer ids c c' (disconnected y t s (m, a)) =
    disconnected y t s
      (m, record { answered = a.answered; opened = a.opened; sent = a.sent; pending = a.pending })
Fate-dropped parse_url req answer ids c c' (opened_link y l (h, p, e, w, a)) = opened_link y l (
  h,
  p,
  e,
  w,
  record { answered = a.answered; opened = a.opened; sent = a.sent; pending = a.pending },
)
Fate-dropped parse_url req answer ids c c' (not_web y l (h, p, e, w, a)) = not_web y l (
  h,
  p,
  e,
  w,
  record { answered = a.answered; opened = a.opened; sent = a.sent; pending = a.pending },
)
Fate-dropped parse_url req answer ids c c' (forgotten y t w a) =
    forgotten y t w
      (record { answered = a.answered; opened = a.opened; sent = a.sent; pending = a.pending })

-- An answer to an action of an MCP app: its promise no longer waits behind it. Where it waited: an answer other than "accept"
-- tells it the refusal; an accepted call of a tool goes with one frame to the server, whose reply tells it, or tells it an
-- error where the socket is not open; an accepted link to the web is opened and tells it so, and any other address tells it
-- an error; and it is forgotten only for an address that does not parse or a method that is neither of the two. In all
-- cases nothing else is told, opened, sent or made to wait, and nothing at all where it did not wait, as at a second answer.
pub answer_request-Fate :
    (parse_url : Text → Option (Text × Text)) (env : Env) (req : ServerRequest) (answer : Fields)
    (c : Client)
    → starts_with req.method (codes "mcpApp/") ≡ true
    → let c' = answer_request parse_url env req answer c in
      (has_local (string_of_id req.id) c'.local ≡ false)
      × (((has_local (string_of_id req.id) c.local ≡ true) × Fate parse_url req answer c c')
          ⊎ ((has_local (string_of_id req.id) c.local ≡ false) × Added c c' [] []))
unfolding answer_request
answer_request-Fate parse_url env req answer c app =
    let dropped : Client = record c {
      local = drop_if (λ t. eq_text t (string_of_id req.id)) c.local;
      view = drop_request req.id c.view;
    } in
    let gone = drop_if-has_local (string_of_id req.id) c.local in
    elim (Bool-cases (has_local (string_of_id req.id) c.local)) [
      | inl e ↦ rw app (
          rw e (
            ap (has_local (string_of_id req.id)) (answer_app-local parse_url env req answer dropped)
                ∙ gone,
            inl (
              refl,
              Fate-dropped parse_url req answer _ c _
                  (answer_app-Fate parse_url env req answer dropped),
            ),
          ))
      | inr e ↦ rw app (
          rw e (
            gone,
            inr (refl, record { answered = refl; opened = refl; sent = refl; pending = refl }),
          ))
    ]
