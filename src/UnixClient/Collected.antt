-- ===== src/UnixClient/Collected.antt =====
-- The bytes that an exchange collects, whatever the chunks they come in, and the promise that settles
-- once.
mod Chunks
use mathlib.Core.List.{append_assoc, append-nil}
use mathlib.Core.Logic.{inl, inr}
use incus_unraid.Prelude.{
  ℕ, zero, suc, ◌+◌, ◌-◌, ◌≤◌, ◌<◌, Bool, true, false, ◌≡◌, ◌≢◌, ◌⊎◌, refl, sym, ap, ◌∙◌, Option,
  none, some, List, [], ◌∷◌, ◌++◌, length, take, ltb, if◌then◌else◌, length-append, take_all,
  Bool-cases, Text, arith,
}
use incus_unraid.UnixClient.Exchange.{
  Error, too_large, timed_out, transport, Outcome, value, throws, hangs, RawResponse, Event, data_,
  ended, timeout, error, Exchange, idle, concat, settle, on_data, on_event, run_events,
}
use incus_unraid.UnixClient.Collected.Chunks.{Cut, Kept, fits, on_data-Cut, on_data-Kept, over}

take-nil : (n : ℕ) → take {A = ℕ} n [] ≡ []
take-nil zero = refl
take-nil (suc n) = refl

outcome-cases :
    (o : Outcome RawResponse)
    → (o ≡ hangs) ⊎ ((r : RawResponse) × (o ≡ value r)) ⊎ ((e : Error) × (o ≡ throws e))
outcome-cases hangs = inl refl
outcome-cases (value r) = inr (inl (r, refl))
outcome-cases (throws e) = inr (inr (e, refl))

settle-settled :
    (o : Outcome RawResponse) (x : Exchange) → x.settled ≢ hangs → (settle o x).settled ≡ x.settled
settle-settled o x h = elim (outcome-cases x.settled) [
  | inl e ↦ absurd (h e)
  | inr (inl (r, e)) ↦ rw e refl
  | inr (inr (r, e)) ↦ rw e refl
]

choose-settled :
    (b : Bool) (x y : Exchange) → y.settled ≡ x.settled → (if b then x else y).settled ≡ x.settled
choose-settled true x y h = refl
choose-settled false x y h = h

module _ (decode : List ℕ → Text) (max : ℕ) where
  -- the events of a reply that arrives in these chunks
  abbrev pub reply : List (List ℕ) → Option ℕ → List Event
  reply [] status = ended status ∷ []
  reply (b ∷ bs) status = data_ b ∷ reply bs status

  abbrev pub status_or_500 : Option ℕ → ℕ
  status_or_500 none = 500
  status_or_500 (some code) = code

  Cut-reply :
      (bs : List (List ℕ)) (status : Option ℕ) (all : List ℕ) (x : Exchange)
      → Cut max all x
      → (run_events decode max true (reply bs status) x).settled
        ≡ value (record {
          status_code = status_or_500 status;
          text = decode (take max (all ++ concat bs));
          truncated = ltb max (length (all ++ concat bs));
        })
  unfolding run_events on_event
  Cut-reply [] status all x c =
      rw (append-nil all) (rw c.going (rw c.open_ (rw c.kept (rw c.flag refl))))
  Cut-reply (b ∷ bs) status all x c =
      rw (sym (append_assoc all b (concat bs)))
        (Cut-reply bs status (all ++ b) (on_data max true b x) (on_data-Cut max b all x c))

  Kept-reply :
      (bs : List (List ℕ)) (status : Option ℕ) (all : List ℕ) (x : Exchange)
      → Kept max all x
      → (run_events decode max false (reply bs status) x).settled ≡ (
          if ltb max (length (all ++ concat bs))
          then throws too_large
          else value (record {
            status_code = status_or_500 status;
            text = decode (all ++ concat bs);
            truncated = false;
          }))
  unfolding run_events on_event
  Kept-reply [] status all x (fits l k n t f o) =
      let low : ltb max (length all) ≡ false = ground arith in
      rw (append-nil all) (rw f (rw o (rw k (rw t (rw low refl)))))
  Kept-reply [] status all x (over l n f o) =
      let high : ltb max (length all) ≡ true = ground arith in
      rw (append-nil all) (rw f (rw o (rw high refl)))
  Kept-reply (b ∷ bs) status all x c =
      rw (sym (append_assoc all b (concat bs)))
        (Kept-reply bs status (all ++ b) (on_data max false b x) (on_data-Kept max b all x c))

  on_event-settled :
      (t : Bool) (e : Event) (x : Exchange)
      → x.settled ≢ hangs
      → (on_event decode max t e x).settled ≡ x.settled
  unfolding on_event on_data
  on_event-settled t (data_ b) x h =
      let y : Exchange = record x { bytes = x.bytes + length b } in
      elim (Bool-cases (ltb (max - x.bytes) (length b))) [
        | inr e ↦ rw e refl
        | inl e ↦ elim (Bool-cases t) [
          | inl p ↦ rw e (rw p refl)
          | inr p ↦ elim (Bool-cases x.failed) [
            | inl f ↦ rw e (rw p (rw f refl))
            | inr f ↦ rw e (rw p (rw f (settle-settled (throws too_large) y h)))
          ]
        ]
      ]
  on_event-settled t (ended status) x h =
      let end : Outcome RawResponse = value (record {
        status_code = status_or_500 status;
        text = decode (concat x.chunks);
        truncated = x.truncated;
      }) in
      choose-settled x.failed x (settle end x) (settle-settled end x h)
  on_event-settled t timeout x h = settle-settled (throws timed_out) x h
  on_event-settled t (error m) x h = settle-settled (throws (transport m)) x h

  -- A request for text to be cut, whose reply comes whole, resolves whatever the reply's length:
  -- with the first `max` bytes of it, however it was split into chunks, and with the flag that says
  -- whether there were more.
  pub run_events-cut :
      (bs : List (List ℕ)) (status : Option ℕ)
      → (run_events decode max true (reply bs status) idle).settled
        ≡ value (record {
          status_code = status_or_500 status;
          text = decode (take max (concat bs));
          truncated = ltb max (length (concat bs));
        })
  run_events-cut bs status =
      let none_yet : ltb max 0 ≡ false = ground arith in
      Cut-reply bs status [] idle (record {
        kept = sym (take-nil max);
        count = refl;
        flag = sym none_yet;
        going = refl;
        open_ = refl;
      })

  -- A request that must not be cut, whose reply comes whole, is rejected as too large exactly when the reply has
  -- more than `max` bytes, however it was split into chunks; otherwise it resolves with all of them.
  pub run_events-kept :
      (bs : List (List ℕ)) (status : Option ℕ)
      → (run_events decode max false (reply bs status) idle).settled ≡ (
          if ltb max (length (concat bs))
          then throws too_large
          else value (record {
            status_code = status_or_500 status;
            text = decode (concat bs);
            truncated = false;
          }))
  run_events-kept bs status =
      Kept-reply bs status [] idle (fits (omega arith) refl refl refl refl refl)

  -- The promise settles once: where it is settled, no later events change what it settled as, whatever they are.
  pub run_events-settled :
      (truncate : Bool) (es : List Event) (x : Exchange)
      → x.settled ≢ hangs
      → (run_events decode max truncate es x).settled ≡ x.settled
  unfolding run_events
  run_events-settled t [] x h = refl
  run_events-settled t (e ∷ es) x h =
      let same : (on_event decode max t e x).settled ≡ x.settled = on_event-settled t e x h in
      run_events-settled t es (on_event decode max t e x) (rw same h) ∙ same
