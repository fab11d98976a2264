-- ===== src/Packages/Bounded.antt =====
-- unraid-api-plugin-incus/src/incus-package-search.service.ts: no two fetches of one key run at once, and the caches stay
-- small.
use incus_unraid.Prelude.{
  ℕ, ◌≤◌, ◌<◌, ◌≡◌, refl, sym, ap, ◌∙◌, inl, inr, some, [], ◌∷◌, length, Text, text_eq, nat_eq,
  eq_text_iff, Assoc, lookup, insert, delete, length-delete, lookup-insert, lookup-delete,
  Option-cases, arith,
}
use incus_unraid.Packages.Caches.{
  max_apt_cache_entries, max_failure_entries, Kind, pypi, brew, apt, FailureEntry, State, shrink,
  check_recent_failure, record_failure, store_index, fresh_data, cache_of, dedupe_in_flight,
  fetch_shared, get_index, Fetched, parsed, answered, broken, settle_fetch, finish_fetch, Step,
  asked, searched, ended, Reachable, start, then_,
}

-- A fetch that runs is the one that its key's promise stands for, and the other way round; at most a hundred failures and
-- eight apt catalogues are kept.
pub record Sound (s : State) : Type 0 where
  pub promised : (i : ℕ) (k : Text) → lookup i s.running ≡ some k → lookup k s.in_flight ≡ some i
  pub runs : (k : Text) (i : ℕ) → lookup k s.in_flight ≡ some i → lookup i s.running ≡ some k
  pub numbered : (i : ℕ) (k : Text) → lookup i s.running ≡ some k → i < s.next
  pub failures : length s.recent_failures ≤ max_failure_entries
  pub apts : length s.apt_cache ≤ max_apt_cache_entries

length-shrink : {V : Type 0} (n : ℕ) (m : Assoc Text V) → length (shrink n m) ≤ n
unfolding shrink
length-shrink n [] = omega arith
length-shrink n (e ∷ m) = ground (arith, length-shrink n m)

check_recent_failure-length :
    (key : Text) (now : ℕ) (m : Assoc Text FailureEntry)
    → length (check_recent_failure key now m).1 ≤ length m
unfolding check_recent_failure
check_recent_failure-length key now m = elim (Option-cases (lookup key m)) [
  | inl e ↦ rw (e, check_recent_failure) (omega arith)
  | inr (f, e) ↦ rw (e, check_recent_failure) (ground (arith, length-delete key m))
]

dedupe_in_flight-Sound : (key : Text) (s : State) → Sound s → Sound (dedupe_in_flight key s).1
unfolding dedupe_in_flight
dedupe_in_flight-Sound key s i = elim (Option-cases (lookup key s.in_flight)) [
  | inr (p, e) ↦ rw (e, dedupe_in_flight) i
  | inl e ↦
      rw (e, dedupe_in_flight)
        (record {
          promised = λ j k h.
              let old = sym (lookup-insert s.next j key s.running) ∙ h in
              lookup-insert key k s.next s.in_flight
              ∙ ground (arith, eq_text_iff key k, i.promised j k);
          runs = λ k j h.
              let old = sym (lookup-insert key k s.next s.in_flight) ∙ h in
              lookup-insert s.next j key s.running
              ∙ ground (arith, eq_text_iff key k, i.runs k j, i.numbered j k);
          numbered = λ j k h.
              let old = sym (lookup-insert s.next j key s.running) ∙ h in
              ground (arith, i.numbered j k);
          failures = i.failures;
          apts = i.apts;
        })
]

fetch_shared-Sound : (key : Text) (now : ℕ) (s : State) → Sound s → Sound (fetch_shared key now s).1
unfolding fetch_shared
fetch_shared-Sound key now s i =
    let few = i.failures in
    let fewer = check_recent_failure-length key now s.recent_failures in
    let kept : Sound
        (record s { recent_failures = (check_recent_failure key now s.recent_failures).1 }) =
      record {
        promised = i.promised;
        runs = i.runs;
        numbered = i.numbered;
        failures = omega arith;
        apts = i.apts;
      } in
    elim (Option-cases (check_recent_failure key now s.recent_failures).0) [
      | inl e ↦ rw (e, fetch_shared) (dedupe_in_flight-Sound key _ kept)
      | inr (m, e) ↦ rw (e, fetch_shared) kept
    ]

get_index-Sound :
    (kind : Kind) (map_key key : Text) (now : ℕ) (s : State)
    → Sound s
    → Sound (get_index kind map_key key now s).1
unfolding get_index
get_index-Sound kind map_key key now s i =
    elim (Option-cases (fresh_data (lookup map_key (cache_of kind s)) now)) [
      | inl e ↦ rw (e, get_index) (fetch_shared-Sound key now s i)
      | inr (d, e) ↦ rw (e, get_index) i
    ]

settle_fetch-Sound :
    (key : Text) (f : Fetched) (now : ℕ) (s : State) → Sound s → Sound (settle_fetch key f now s)
unfolding settle_fetch store_index record_failure
settle_fetch-Sound key (parsed pypi m d) now s i = record {
  promised = i.promised;
  runs = i.runs;
  numbered = i.numbered;
  failures = i.failures;
  apts = i.apts;
}
settle_fetch-Sound key (parsed brew m d) now s i = record {
  promised = i.promised;
  runs = i.runs;
  numbered = i.numbered;
  failures = i.failures;
  apts = i.apts;
}
settle_fetch-Sound key (parsed apt m d) now s i = record {
  promised = i.promised;
  runs = i.runs;
  numbered = i.numbered;
  failures = i.failures;
  apts =
      length-shrink max_apt_cache_entries
        (insert m (record { data_ = d; fetched_at = now }) s.apt_cache);
}
settle_fetch-Sound key answered now s i = i
settle_fetch-Sound key (broken m) now s i = record {
  promised = i.promised;
  runs = i.runs;
  numbered = i.numbered;
  failures =
      length-shrink max_failure_entries
        (insert key (record { message = m; failed_at = now }) s.recent_failures);
  apts = i.apts;
}

settle_fetch-running :
    (key : Text) (f : Fetched) (now : ℕ) (s : State)
    → (settle_fetch key f now s).running ≡ s.running
unfolding settle_fetch store_index
settle_fetch-running key (parsed pypi m d) now s = refl
settle_fetch-running key (parsed brew m d) now s = refl
settle_fetch-running key (parsed apt m d) now s = refl
settle_fetch-running key answered now s = refl
settle_fetch-running key (broken m) now s = refl

-- A fetch and its promise go together.
dropped-Sound :
    (promise : ℕ) (key : Text) (s : State)
    → lookup promise s.running ≡ some key
    → Sound s
    → Sound (record s { in_flight = delete key s.in_flight; running = delete promise s.running })
dropped-Sound promise key s l i =
    let mine = i.promised promise key l in
    record {
      promised = λ j k h.
          let old = sym (lookup-delete promise j s.running) ∙ h in
          lookup-delete key k s.in_flight ∙ ground (arith, eq_text_iff key k, i.promised j k);
      runs = λ k j h.
          let old = sym (lookup-delete key k s.in_flight) ∙ h in
          lookup-delete promise j s.running ∙ ground (arith, eq_text_iff key k, i.runs k j);
      numbered = λ j k h.
          let old = sym (lookup-delete promise j s.running) ∙ h in ground (arith, i.numbered j k);
      failures = i.failures;
      apts = i.apts;
    }

Step-Sound : (s s' : State) → Step s s' → Sound s → Sound s'
unfolding finish_fetch
Step-Sound _ _ (asked kind map_key key now s) i = get_index-Sound kind map_key key now s i
Step-Sound _ _ (searched key now s) i = fetch_shared-Sound key now s i
Step-Sound _ _ (ended promise key f now s l) i =
    dropped-Sound promise key (settle_fetch key f now s)
      (ap (lookup promise) (settle_fetch-running key f now s) ∙ l)
      (settle_fetch-Sound key f now s i)

pub Reachable-Sound : (s : State) → Reachable s → Sound s
unfolding lookup
Reachable-Sound _ start = record {
  promised = λ i k h. absurd (cc);
  runs = λ k i h. absurd (cc);
  numbered = λ i k h. absurd (cc);
  failures = omega arith;
  apts = omega arith;
}
Reachable-Sound _ (then_ s s' r h) = Step-Sound s s' h (Reachable-Sound s r)

-- In every state that the service can reach, two running fetches of one key are the same fetch, at most a hundred
-- failures are remembered, and at most eight apt catalogues are kept.
pub one_fetch :
    (s : State) (i j : ℕ) (key : Text)
    → Reachable s
    → lookup i s.running ≡ some key
    → lookup j s.running ≡ some key
    → (i ≡ j)
      × (length s.recent_failures ≤ max_failure_entries)
      × (length s.apt_cache ≤ max_apt_cache_entries)
one_fetch s i j key r a b =
    let inv = Reachable-Sound s r in
    let first = inv.promised i key a in
    let second = inv.promised j key b in (ground arith, inv.failures, inv.apts)
