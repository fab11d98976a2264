-- ===== src/Packages/Caches.antt =====
-- unraid-api-plugin-incus/src/incus-package-search.service.ts: the caches of catalogues, the memory of failures and the
-- sharing of running fetches. A promise in `inFlight` is the number of its fetch; `running` holds the fetches that have
-- not ended, each with the key that it was started for.
use incus_unraid.Prelude.{
  ℕ, ◌+◌, ◌-◌, ◌*◌, ◌≡◌, Option, none, some, List, [], ◌∷◌, ◌++◌, ltb, length, if◌then◌else◌, Text,
  codes, text_eq, nat_eq, Assoc, lookup, insert, delete,
}
use incus_unraid.Packages.Catalog.{Package}

abbrev pub success_ttl_ms : ℕ
success_ttl_ms = 6 * 60 * 60 * 1000

abbrev pub failure_ttl_ms : ℕ
failure_ttl_ms = 60 * 1000

abbrev pub max_apt_cache_entries : ℕ
max_apt_cache_entries = 8

abbrev pub max_failure_entries : ℕ
max_failure_entries = 100

-- The three catalogues that are fetched whole.
pub data Kind : Type 0 where
  pypi brew apt : Kind

pub data Catalog : Type 0 where
  names : List Text → Catalog
  packages : List Package → Catalog

pub record CacheEntry : Type 0 where
  pub data_ : Catalog
  pub fetched_at : ℕ

pub record FailureEntry : Type 0 where
  pub message : Text
  pub failed_at : ℕ

pub record State : Type 0 where
  pub pypi_cache : Assoc Text CacheEntry
  pub brew_cache : Assoc Text CacheEntry
  pub apt_cache : Assoc Text CacheEntry
  pub recent_failures : Assoc Text FailureEntry
  pub in_flight : Assoc Text ℕ
  pub running : Assoc ℕ Text
  pub next : ℕ

abbrev pub empty : State
empty = record {
  pypi_cache = [];
  brew_cache = [];
  apt_cache = [];
  recent_failures = [];
  in_flight = [];
  running = [];
  next = 0;
}

-- while (m.size > n) m.delete(m.keys().next().value)
unfoldable pub shrink : {V : Type 0} → ℕ → Assoc Text V → Assoc Text V
shrink n [] = []
shrink n (entry ∷ m) =
    let rest = shrink n m in if ltb n (length (entry ∷ m)) then rest else entry ∷ m

-- checkRecentFailure: the message that it throws, and the failures that it keeps
unfoldable pub check_recent_failure :
    Text → ℕ → Assoc Text FailureEntry → Option Text × Assoc Text FailureEntry
check_recent_failure key now failures = elim (lookup key failures) [
  | none ↦ (none, failures)
  | some failure ↦
      if ltb (now - failure.failed_at) failure_ttl_ms
      then (
        some (failure.message ++ codes " (cached failure, retrying automatically in a moment)"),
        failures,
      )
      else (none, delete key failures)
]

unfoldable pub record_failure : Text → Text → ℕ → Assoc Text FailureEntry → Assoc Text FailureEntry
record_failure key message now failures =
    shrink max_failure_entries (insert key (record { message = message; failed_at = now }) failures)

-- What a caller of an index gets: the data, the error, the promise of a fetch that runs, or that of a new one.
pub data Answer : Type 0 where
  cached : Catalog → Answer
  threw : Text → Answer
  joined : ℕ → Answer
  started : ℕ → Answer

abbrev pub cache_of : Kind → State → Assoc Text CacheEntry
cache_of pypi s = s.pypi_cache
cache_of brew s = s.brew_cache
cache_of apt s = s.apt_cache

-- cache.set(key, …), and the loop that follows it for apt
unfoldable pub store_index : Kind → Text → CacheEntry → State → State
store_index pypi key entry s = record s { pypi_cache = insert key entry s.pypi_cache }
store_index brew key entry s = record s { brew_cache = insert key entry s.brew_cache }
store_index apt key entry s = record s {
  apt_cache = shrink max_apt_cache_entries (insert key entry s.apt_cache);
}

-- The data of an entry that is not too old.
unfoldable pub fresh_data : Option CacheEntry → ℕ → Option Catalog
fresh_data none now = none
fresh_data (some entry) now =
    if ltb (now - entry.fetched_at) success_ttl_ms then some entry.data_ else none

-- dedupeInFlight
unfoldable pub dedupe_in_flight : Text → State → Answer × State
dedupe_in_flight key s = elim (lookup key s.in_flight) [
  | some promise ↦ (joined promise, s)
  | none ↦ (
    started s.next,
    record s {
      in_flight = insert key s.next s.in_flight;
      running = insert s.next key s.running;
      next = s.next + 1;
    },
  )
]

-- checkRecentFailure and dedupeInFlight
unfoldable pub fetch_shared : Text → ℕ → State → Answer × State
fetch_shared key now s =
    let checked = check_recent_failure key now s.recent_failures in
    let kept : State = record s { recent_failures = checked.1 } in
    elim checked.0 [ some message ↦ (threw message, kept) | none ↦ dedupe_in_flight key kept ]

-- getPypiIndex, getBrewIndex and getAptIndex up to the fetch; `map_key` is the key in the cache, `key` that of failures and
-- fetches
unfoldable pub get_index : Kind → Text → Text → ℕ → State → Answer × State
get_index kind map_key key now s = elim (fresh_data (lookup map_key (cache_of kind s)) now) [
  | some data_ ↦ (cached data_, s)
  | none ↦ fetch_shared key now s
]

-- What a fetch comes to.
pub data Fetched : Type 0 where
  parsed : Kind → Text → Catalog → Fetched
  -- the search of npm, which is not cached
  answered : Fetched
  broken : Text → Fetched

unfoldable pub settle_fetch : Text → Fetched → ℕ → State → State
settle_fetch key (parsed kind map_key data_) now s =
    store_index kind map_key (record { data_ = data_; fetched_at = now }) s
settle_fetch key answered now s = s
settle_fetch key (broken message) now s = record s {
  recent_failures = record_failure key message now s.recent_failures;
}

-- The end of a fetch: what it stores, and `.finally(() => this.inFlight.delete(key))`.
unfoldable pub finish_fetch : ℕ → Text → Fetched → ℕ → State → State
finish_fetch promise key fetched now s =
    let settled = settle_fetch key fetched now s in
    record settled {
      in_flight = delete key settled.in_flight;
      running = delete promise settled.running;
    }

-- One event of the service.
pub data Step : State → State → Type 0 where
  asked :
      (kind : Kind) (map_key key : Text) (now : ℕ) (s : State)
      → Step s (get_index kind map_key key now s).1
  searched : (key : Text) (now : ℕ) (s : State) → Step s (fetch_shared key now s).1
  ended :
      (promise : ℕ) (key : Text) (fetched : Fetched) (now : ℕ) (s : State)
      → lookup promise s.running ≡ some key
      → Step s (finish_fetch promise key fetched now s)

pub data Reachable : State → Type 0 where
  start : Reachable empty
  then_ : (s s' : State) → Reachable s → Step s s' → Reachable s'
