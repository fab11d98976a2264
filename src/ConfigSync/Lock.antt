-- ===== src/ConfigSync/Lock.antt =====
-- unraid-api-plugin-incus/src/config-sync.service.ts: acquireCfgLock. What other processes and the
-- file system do is the list of what the rounds of the `while (true)` observe; a list that ends
-- before the loop returns leaves it undecided.
use incus_unraid.Prelude.{
  ℕ, ◌+◌, ◌-◌, ◌≤◌, ◌<◌, Bool, ◌&&◌, ◌≡◌, refl, List, [], ◌∷◌, All, ltb, leb, if◌then◌else◌, arith,
}

abbrev pub cfg_lock_stale_ms : ℕ
cfg_lock_stale_ms = 15000

abbrev pub cfg_lock_max_retries : ℕ
cfg_lock_max_retries = 5

-- One round: the exclusive create returned, or threw another error than EEXIST, or the lock is
-- there. Then the two calls of `statSync` gave an age and whether inode and time are the same, and
-- the `unlinkSync` of a stale lock returned; or one of the calls threw.
pub data Round : Type 0 where
  created refused threw : Round
  held : ℕ → Bool → Round

pub data Result : Type 0 where
  acquired busy undecided : Result

pub record Acquire : Type 0 where
  pub result : Result
  pub waits : ℕ
  pub unlinks : ℕ

abbrev ends : Result → Acquire
ends r = record { result = r; waits = 0; unlinks = 0 }

abbrev waited : Acquire → Acquire
waited a = record a { waits = a.waits + 1 }

abbrev stolen : Bool → Acquire → Acquire
stolen same a = if same then record a { unlinks = a.unlinks + 1 } else a

unfoldable pub acquire : ℕ → ℕ → List Round → Acquire
acquire max_retries attempt [] = ends undecided
acquire max_retries attempt (created ∷ rounds) = ends acquired
acquire max_retries attempt (refused ∷ rounds) = ends busy
acquire max_retries attempt (threw ∷ rounds) = acquire max_retries attempt rounds
acquire max_retries attempt (held age same ∷ rounds) =
    let again = stolen same (acquire max_retries attempt rounds) in
    let later = waited (acquire max_retries (attempt + 1) rounds) in
    if ltb cfg_lock_stale_ms age
    then again
    else if leb max_retries attempt
    then ends busy
    else later

-- The rounds in which a lock was seen that is not stale.
abbrev pub fresh_rounds : List Round → ℕ
fresh_rounds [] = 0
fresh_rounds (held age same ∷ rounds) =
    (if ltb cfg_lock_stale_ms age then 0 else 1) + fresh_rounds rounds
fresh_rounds (created ∷ rounds) = fresh_rounds rounds
fresh_rounds (refused ∷ rounds) = fresh_rounds rounds
fresh_rounds (threw ∷ rounds) = fresh_rounds rounds

-- The rounds in which a stale lock was seen unchanged.
abbrev pub steals : List Round → ℕ
steals [] = 0
steals (held age same ∷ rounds) =
    (if ltb cfg_lock_stale_ms age && same then 1 else 0) + steals rounds
steals (created ∷ rounds) = steals rounds
steals (refused ∷ rounds) = steals rounds
steals (threw ∷ rounds) = steals rounds

-- However the rounds go, the loop waits at most as often as there are retries left, and removes
-- the lock file at most once for each round that saw it stale and unchanged.
pub acquire_bounds :
    (max_retries attempt : ℕ) (rounds : List Round)
    → ((acquire max_retries attempt rounds).waits ≤ max_retries - attempt)
      × ((acquire max_retries attempt rounds).unlinks ≤ steals rounds)
unfolding acquire
acquire_bounds m a [] = omega arith
acquire_bounds m a (created ∷ rounds) = (omega arith, omega arith)
acquire_bounds m a (refused ∷ rounds) = (omega arith, omega arith)
acquire_bounds m a (threw ∷ rounds) = acquire_bounds m a rounds
acquire_bounds m a (held age same ∷ rounds) =
    let (w, u) = acquire_bounds m a rounds in
    let (w', u') = acquire_bounds m (a + 1) rounds in (ground arith, ground arith)

-- A round that does not end the loop and costs no retry.
abbrev pub IsFree : Round → Type 0
IsFree threw = Unit
IsFree (held age same) = cfg_lock_stale_ms < age
IsFree _ = ⊥

-- Rounds that see a stale lock, or in which a call on the lock file throws, never end the loop and never wait: after
-- any number of them it is undecided, whatever the retries allowed.
pub acquire-undecided :
    (max_retries attempt : ℕ) (rounds : List Round)
    → All IsFree rounds
    → ((acquire max_retries attempt rounds).result ≡ undecided)
      × ((acquire max_retries attempt rounds).waits ≡ 0)
unfolding acquire
acquire-undecided m a [] h = (refl, refl)
acquire-undecided m a (created ∷ rounds) h = absurd h.0
acquire-undecided m a (refused ∷ rounds) h = absurd h.0
acquire-undecided m a (threw ∷ rounds) h = acquire-undecided m a rounds h.1
acquire-undecided m a (held age same ∷ rounds) h =
    let (r, w) = acquire-undecided m a rounds h.1 in let stale = h.0 in (ground arith, ground arith)

-- A round in which the lock is there and everything the round calls returns.
abbrev pub IsHeld : Round → Type 0
IsHeld (held age same) = Unit
IsHeld _ = ⊥

-- When no create succeeds and fresh locks are seen more often than there are retries left, the
-- loop ends, and reports the lock as busy.
pub acquire-busy :
    (max_retries attempt : ℕ) (rounds : List Round)
    → All IsHeld rounds
    → attempt ≤ max_retries
    → max_retries < attempt + fresh_rounds rounds
    → (acquire max_retries attempt rounds).result ≡ busy
unfolding acquire
acquire-busy m a [] h l n = absurd (omega arith)
acquire-busy m a (created ∷ rounds) h l n = absurd h.0
acquire-busy m a (refused ∷ rounds) h l n = absurd h.0
acquire-busy m a (threw ∷ rounds) h l n = absurd h.0
acquire-busy m a (held age same ∷ rounds) h l n =
    let stay = acquire-busy m a rounds h.1 l in
    let next = acquire-busy m (a + 1) rounds h.1 in ground arith
