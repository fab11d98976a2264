-- ===== src/UnixClient/Exchange.antt =====
-- unraid-api-plugin-incus/src/incus-unix-client.service.ts, `requestRaw`: one HTTP exchange over the
-- daemon's socket as the events that Node reports, and the promise that it settles.
use incus_unraid.Prelude.{
  ℕ, ◌+◌, ◌-◌, ◌*◌, Bool, true, false, Option, none, some, List, [], ◌∷◌, ◌++◌, length, take, ltb,
  if◌then◌else◌, Text,
}

abbrev pub default_max_response_bytes : ℕ
default_max_response_bytes = 4 * 1024 * 1024

pub data Error : Type 0 where
  too_large timed_out : Error
  transport : Text → Error
  http : ℕ → Error
  parse_error type_error : Error
  api : Option Text → Error
  operation_failed : Option Text → Error
  -- an error that a caller of the client throws
  said : Text → Error

-- What a promise comes to; `hangs` where it is never settled.
pub data Outcome {ℓ} (A : Type ℓ) : Type ℓ where
  value : A → Outcome A
  throws : Error → Outcome A
  hangs : Outcome A

pub record RawResponse : Type 0 where
  pub status_code : ℕ
  pub text : Text
  pub truncated : Bool

pub data Event : Type 0 where
  data_ : List ℕ → Event
  ended : Option ℕ → Event
  timeout : Event
  error : Text → Event

-- The variables of one call, and the promise.
pub record Exchange : Type 0 where
  pub chunks : List (List ℕ)
  pub bytes : ℕ
  pub truncated : Bool
  pub failed : Bool
  pub settled : Outcome RawResponse

abbrev pub idle : Exchange
idle = record { chunks = []; bytes = 0; truncated = false; failed = false; settled = hangs }

-- Buffer.concat
abbrev pub concat : List (List ℕ) → List ℕ
concat [] = []
concat (b ∷ bs) = b ++ concat bs

-- Only the first `resolve` or `reject` counts.
abbrev pub settle : Outcome RawResponse → Exchange → Exchange
settle o x = elim x.settled [ hangs ↦ record x { settled = o } | _ ↦ x ]

-- The handler of "data".
unfoldable pub on_data : ℕ → Bool → List ℕ → Exchange → Exchange
on_data max_bytes truncate buffer x =
    let remaining = max_bytes - x.bytes in
    let x = record x { bytes = x.bytes + length buffer } in
    if ltb remaining (length buffer)
    then if truncate
      then record x {
        chunks = if ltb 0 remaining then x.chunks ++ take remaining buffer ∷ [] else x.chunks;
        truncated = true;
      }
      else record (if x.failed then x else settle (throws too_large) x) { failed = true }
    else record x { chunks = x.chunks ++ buffer ∷ [] }

module _ (decode : List ℕ → Text) where
  unfoldable pub on_event : ℕ → Bool → Event → Exchange → Exchange
  on_event max_bytes truncate (data_ buffer) x = on_data max_bytes truncate buffer x
  on_event max_bytes truncate (ended status) x =
      let code : ℕ = elim status [ none ↦ 500 | some code ↦ code ] in
      if x.failed
      then x
      else settle
          (value (record {
            status_code = code;
            text = decode (concat x.chunks);
            truncated = x.truncated;
          }))
          x
  on_event max_bytes truncate timeout x = settle (throws timed_out) x
  on_event max_bytes truncate (error message) x = settle (throws (transport message)) x

  unfoldable pub run_events : ℕ → Bool → List Event → Exchange → Exchange
  run_events max_bytes truncate [] x = x
  run_events max_bytes truncate (e ∷ es) x =
      run_events max_bytes truncate es (on_event max_bytes truncate e x)
