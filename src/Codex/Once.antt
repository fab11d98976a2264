-- ===== src/Codex/Once.antt =====
-- unraid-codex/web-src/src/protocol.ts: every call that is sent is settled at most once, by its response or by the loss of the
-- connection, whatever happens to the hook.
use incus_unraid.Prelude.{
  decimal, ℕ, ◌+◌, ◌≤◌, ◌&&◌, ◌≡◌, refl, ◌∙◌, inl, inr, Option, some, List, [], ◌∷◌, ◌++◌,
  if◌then◌else◌, leb, ltb, nat_beq, Text, eq_text, Bool-cases, Option-cases, arith,
}
use incus_unraid.Json.{Json, Fields}
use incus_unraid.Codex.State.{RequestId, Tone}
use incus_unraid.Codex.Timeline.{string_of_id}
use incus_unraid.Codex.Notifications.{Env, add_notice}
use incus_unraid.Codex.Kept.{Kept, add_notice-Kept}
use incus_unraid.Codex.Client.{
  Call, list_skills, start_turn, start_login, login_mcp_server, update_settings, Frame, Reply,
  fulfilled, rejected, Client, is_open, show, is_unreadable, fulfil, reject, resume, rpc, post,
  take_pending, settle,
}

abbrev pub count {ℓ} : {A : Type ℓ} → ℕ → List (ℕ × A) → ℕ
count id [] = 0
count id ((i, a) ∷ rest) = (if nat_beq i id then 1 else 0) + count id rest

pub count-append {ℓ} :
    {A : Type ℓ} (id : ℕ) (xs ys : List (ℕ × A)) → count id (xs ++ ys) ≡ count id xs + count id ys
count-append id [] ys = omega arith
count-append id ((i, a) ∷ xs) ys = ground (arith, count-append id xs ys)

-- The ids given out so far are 1 to `next` - 1.
abbrev pub given_out : ℕ → ℕ → ℕ
given_out id next = if leb 1 id && ltb id next then 1 else 0

pub record Inv (c : Client) : Type 0 where
  pub kept : Kept c.view
  pub first : 1 ≤ c.next_id
  pub once : (id : ℕ) → count id c.pending + count id c.settled ≡ given_out id c.next_id

-- A change that leaves the calls alone
pub record Calm (c d : Client) : Type 0 where
  pub next : d.next_id ≡ c.next_id
  pub pending : d.pending ≡ c.pending
  pub settled : d.settled ≡ c.settled
  pub view : Kept c.view → Kept d.view

pub Calm-Inv : (c d : Client) → Calm c d → Inv c → Inv d
Calm-Inv c d a i = record {
  kept = a.view i.kept;
  first = rw a.next i.first;
  once = λ id. rw a.next (rw a.pending (rw a.settled (i.once id)));
}

pub Calm-trans : {c d e : Client} → Calm c d → Calm d e → Calm c e
Calm-trans a b = record {
  next = b.next ∙ a.next;
  pending = b.pending ∙ a.pending;
  settled = b.settled ∙ a.settled;
  view = λ k. b.view (a.view k);
}

pub notice-Calm :
    (env : Env) (tone : Tone) (title : Text) (description : Option Text) (c : Client)
    → Calm c (show (add_notice env tone title description) c)
notice-Calm env tone title description c = record {
  next = refl;
  pending = refl;
  settled = refl;
  view = add_notice-Kept env tone title description c.view;
}

fulfil-Calm : (call : Call) (reply : Option Json) (c : Client) → Calm c (fulfil call reply c)
unfolding fulfil
fulfil-Calm list_skills reply c = record {
  next = refl;
  pending = refl;
  settled = refl;
  view = λ k. record { turn = k.turn; notices = k.notices; events = k.events };
}
fulfil-Calm start_turn reply c = record {
  next = refl;
  pending = refl;
  settled = refl;
  view = λ k. record { turn = refl; notices = k.notices; events = k.events };
}
fulfil-Calm _ reply c = record {
  next = refl;
  pending = refl;
  settled = refl;
  view = λ k. record { turn = k.turn; notices = k.notices; events = k.events };
}

pub reject-Calm :
    (env : Env) (call : Call) (message : Text) (c : Client) → Calm c (reject env call message c)
unfolding reject
reject-Calm env start_turn message c = notice-Calm env _ _ _ c
reject-Calm env start_login message c = notice-Calm env _ _ _ c
reject-Calm env (login_mcp_server name) message c = notice-Calm env _ _ _ c
reject-Calm env (update_settings updates) message c = notice-Calm env _ _ _ c
reject-Calm env _ message c = record { next = refl; pending = refl; settled = refl; view = λ k. k }

resume-Calm :
    (env : Env) (call : Call) (reply : Reply) (c : Client) → Calm c (resume env call reply c)
unfolding resume
resume-Calm env call (fulfilled reply) c = elim (Bool-cases (is_unreadable call reply)) [
  | inl e ↦ rw e (reject-Calm env call env.type_error c)
  | inr e ↦ rw e (fulfil-Calm call reply c)
]
resume-Calm env call (rejected message) c = reject-Calm env call message c

pub rpc-Inv :
    (env : Env) (method : Text) (params : Fields) (call : Call) (c : Client)
    → Inv c
    → Inv (rpc env method params call c)
unfolding rpc
rpc-Inv env method params call c i = elim (Bool-cases (is_open c.socket)) [
  | inl e ↦ rw e (record {
    kept = i.kept;
    first = omega (arith, i.first);
    once = λ id.
        (let before = i.once id in
          let first = i.first in
          ground (arith, count-append id c.pending ((c.next_id, call) ∷ [])));
  })
  | inr e ↦ rw e (Calm-Inv c _ (resume-Calm env call _ c) i)
]

pub post-Calm : (frame : Frame) (c : Client) → Calm c (post frame c)
unfolding post
post-Calm frame c = elim (Bool-cases (is_open c.socket)) [
  | inl e ↦ rw e (record { next = refl; pending = refl; settled = refl; view = λ k. k })
  | inr e ↦ rw e (record { next = refl; pending = refl; settled = refl; view = λ k. k })
]

count-take_pending :
    (key : Text) (calls : List (ℕ × Call)) (id i : ℕ) (call : Call) (rest : List (ℕ × Call))
    → take_pending key calls ≡ some (i, call, rest)
    → count id calls ≡ (if nat_beq i id then 1 else 0) + count id rest
unfolding take_pending
count-take_pending key [] id i call rest h = absurd (cc)
count-take_pending key ((j, k) ∷ calls) id i call rest h =
    elim (Bool-cases (eq_text (decimal j) key)) [
      | inl e ↦ (let same = rw e at h in ground arith)
      | inr e ↦ elim (Option-cases (take_pending key calls)) [
        | inl f ↦ absurd (let here = rw e at h in let there = rw f at here in cc)
        | inr ((i', k', others), f) ↦
            let here = rw e at h in
            let there = rw f at here in
            let later = count-take_pending key calls id i' k' others f in ground arith
      ]
    ]

pub settle-Inv :
    (env : Env) (id : RequestId) (reply : Reply) (c : Client) → Inv c → Inv (settle env id reply c)
unfolding settle
settle-Inv env id reply c i = elim (Option-cases (take_pending (string_of_id id) c.pending)) [
  | inl e ↦ rw (e, settle) i
  | inr ((n, call, rest), e) ↦
      let taken : Client = record c { pending = rest; settled = (n, reply) ∷ c.settled } in
      let here : Inv taken = record {
        kept = i.kept;
        first = i.first;
        once = λ j.
            (let before = i.once j in
              omega (arith, count-take_pending (string_of_id id) c.pending j n call rest e));
      } in
      rw (e, settle) (Calm-Inv taken _ (resume-Calm env call reply taken) here)
]
