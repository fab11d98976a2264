-- ===== src/Codex/Acted.antt =====
-- unraid-codex/web-src/src/protocol.ts: the invariant through what the page calls and the events of the socket, and what the
-- loss of the connection settles.
use incus_unraid.Prelude.{
  ℕ, ◌+◌, Bool, true, false, ◌≡◌, refl, ◌∙◌, inl, inr, none, List, [], ◌∷◌, if◌then◌else◌, Text,
  eq_text, Bool-cases, Option-cases, arith,
}
use incus_unraid.Json.{Fields}
use incus_unraid.Codex.State.{RequestId, ServerRequest}
use incus_unraid.Codex.Notifications.{Env, add_notice}
use incus_unraid.Codex.Kept.{length-drop_if}
use incus_unraid.Codex.Client.{
  Call, start_turn, reject, refusal, Reply, rejected, Client, Socket, opening, open_, closed, show,
}
use incus_unraid.Codex.Actions.{
  connect, close, lose, begin_connect, reject_all, settle_all, lost, send, may_send, interrupt,
  update_thread_settings, dismiss_notice,
}
use incus_unraid.Codex.Requests.{reject_request, unless_opening, drop_request}
use incus_unraid.Codex.Once.{
  count, given_out, Inv, Calm, Calm-Inv, Calm-trans, reject-Calm, rpc-Inv, post-Calm,
}
use incus_unraid.Codex.Handled.{alike-Calm, same_calls, same_view}

reject_all-Calm :
    (env : Env) (message : Text) (calls : List (ℕ × Call)) (c : Client)
    → Calm c (reject_all env message calls c)
unfolding reject_all
reject_all-Calm env message [] c = alike-Calm c c (same_calls c) (same_view c.view)
reject_all-Calm env message ((id, call) ∷ calls) c =
    Calm-trans (reject-Calm env call message c) (reject_all-Calm env message calls _)

count-settle_all :
    (id : ℕ) (calls : List (ℕ × Call)) (log : List (ℕ × Reply))
    → count id (settle_all calls log) ≡ count id calls + count id log
count-settle_all id [] log = omega arith
count-settle_all id ((i, call) ∷ calls) log =
    ground (arith, count-settle_all id calls ((i, rejected lost) ∷ log))

pub if-Inv : (b : Bool) (c d : Client) → Inv c → Inv d → Inv (if b then c else d)
if-Inv true c d i j = i
if-Inv false c d i j = j

-- A change of fields that `Inv` does not read
pub alike-Inv :
    (c d : Client)
    → (d.next_id ≡ c.next_id) × (d.pending ≡ c.pending) × (d.settled ≡ c.settled)
    → (d.view.active_turn ≡ c.view.active_turn)
      × (d.view.state.active_turn_id ≡ c.view.state.active_turn_id)
      × (d.view.state.notices ≡ c.view.state.notices)
      × (d.view.state.events ≡ c.view.state.events)
    → Inv c
    → Inv d
alike-Inv c d a b i = Calm-Inv c d (alike-Calm c d a b) i

lose-Inv : (c : Client) → Inv c → Inv (lose c)
lose-Inv c i = record {
  kept = record { turn = refl; notices = i.kept.notices; events = i.kept.events };
  first = i.first;
  once = λ id. (let before = i.once id in omega (arith, count-settle_all id c.pending c.settled));
}

pub close-Inv : (env : Env) (c : Client) → Inv c → Inv (close env c)
unfolding close
close-Inv env c i =
    if-Inv c.disposed (record c { socket = closed }) (reject_all env lost c.pending (lose c))
      (alike-Inv c _ (same_calls c) (same_view c.view) i)
      (Calm-Inv (lose c) _ (reject_all-Calm env lost c.pending (lose c)) (lose-Inv c i))

pub connect-Inv : (c : Client) → Inv c → Inv (connect c)
unfolding connect
connect-Inv c i =
    if-Inv c.disposed c (begin_connect c) i
      (alike-Inv c (begin_connect c) (same_calls c) (same_view c.view) i)

pub send-Inv : (env : Env) (text : Text) (c : Client) → Inv c → Inv (send env text c)
unfolding send
send-Inv env text c i = elim (Bool-cases (may_send text c)) [
  | inl e ↦ rw e (alike-Inv c _ (same_calls c) (same_view c.view) i)
  | inr e ↦ rw e i
]

pub interrupt-Inv : (env : Env) (c : Client) → Inv c → Inv (interrupt env c)
unfolding interrupt
interrupt-Inv env c i = elim (Option-cases c.view.thread) [
  | inl e ↦ rw (e, interrupt) i
  | inr (thread, e) ↦ elim (Option-cases c.view.active_turn) [
    | inl f ↦ rw (e, interrupt) (rw (f, interrupt) i)
    | inr (turn, f) ↦ rw (e, interrupt) (rw (f, interrupt) (rpc-Inv env _ _ _ c i))
  ]
]

pub update_thread_settings-Inv :
    (env : Env) (changes : Fields) (c : Client) → Inv c → Inv (update_thread_settings env changes c)
unfolding update_thread_settings
update_thread_settings-Inv env changes c i = elim (Option-cases c.view.thread) [
  | inl e ↦ rw (e, update_thread_settings) i
  | inr (thread, e) ↦ rw (e, update_thread_settings) (rpc-Inv env _ _ _ c i)
]

pub dismiss_notice-Inv : (id : Text) (c : Client) → Inv c → Inv (dismiss_notice id c)
unfolding dismiss_notice
dismiss_notice-Inv id c i = record {
  first = i.first;
  once = i.once;
  kept = record {
    turn = i.kept.turn;
    events = i.kept.events;
    notices =
        omega (arith, length-drop_if (λ n. eq_text n.id id) c.view.state.notices, i.kept.notices);
  };
}

pub unless_opening-Inv :
    (socket : Socket) (c d : Client) → Inv c → Inv d → Inv (unless_opening socket c d)
unless_opening-Inv opening c d i j = i
unless_opening-Inv open_ c d i j = j
unless_opening-Inv closed c d i j = j

pub drop_request-Inv : (id : RequestId) (c : Client) → Inv c → Inv (show (drop_request id) c)
drop_request-Inv id c i = alike-Inv c _ (same_calls c) (same_view c.view) i

pub reject_request-Inv :
    (req : ServerRequest) (message : Text) (c : Client) → Inv c → Inv (reject_request req message c)
unfolding reject_request
reject_request-Inv req message c i =
    unless_opening-Inv c.socket c _ i
      (drop_request-Inv req.id _ (Calm-Inv c _ (post-Calm (refusal req.id message) c) i))

if-false : {A : Type 0} (b : Bool) (x y : A) → b ≡ false → (if b then x else y) ≡ y
if-false true x y h = absurd (cc)
if-false false x y h = refl

reject-turn :
    (env : Env) (call : Call) (message : Text) (c : Client)
    → (reject env call message c).view.active_turn ≡ c.view.active_turn
unfolding reject add_notice
reject-turn env start_turn message c = refl
reject-turn env _ message c = refl

reject_all-turn :
    (env : Env) (message : Text) (calls : List (ℕ × Call)) (c : Client)
    → (reject_all env message calls c).view.active_turn ≡ c.view.active_turn
unfolding reject_all
reject_all-turn env message [] c = refl
reject_all-turn env message ((id, call) ∷ calls) c =
    reject_all-turn env message calls (reject env call message c) ∙ reject-turn env call message c

-- While the hook is not disposed of, the loss of the connection settles every call that was sent and still waited, each once, and ends the turn; no call waits then.
pub close-settles :
    (env : Env) (c : Client)
    → Inv c
    → c.disposed ≡ false
    → ((close env c).pending ≡ [])
      × ((id : ℕ) → count id (close env c).settled ≡ given_out id c.next_id)
      × ((close env c).view.active_turn ≡ none)
unfolding close
close-settles env c i live =
    let calls = c.pending in
    let same : close env c ≡ reject_all env lost calls (lose c) = if-false c.disposed _ _ live in
    let calm = reject_all-Calm env lost calls (lose c) in
    let left = lose-Inv c i in
    rw same (
      calm.pending,
      λ id. (let once = left.once id in rw calm.settled (omega arith)),
      reject_all-turn env lost calls (lose c),
    )
