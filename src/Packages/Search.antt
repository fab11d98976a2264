-- ===== src/Packages/Search.antt =====
-- unraid-api-plugin-incus/src/incus-package-search.service.ts: finding, scoring and merging. The numbers of JavaScript are
-- a parameter, with `<` and the logarithm: `number n` is (n - 300) / 20, so that the penalty of 0.15 for a character is a
-- step of 3 and the largest, 15, is one of 300; `log_score` is Math.log10(x + 1) * 30 for the x that npm writes. Lower-casing
-- is a parameter too.
use incus_unraid.Prelude.{
  ℕ, zero, suc, ◌+◌, ◌-◌, ◌*◌, min, Bool, true, false, ◌&&◌, ◌||◌, not, Option, none, some, List,
  [], ◌∷◌, ◌++◌, map, ltb, nat_beq, length, take, if◌then◌else◌, is_alnum, Text, codes, eq_text,
  starts_with, trim,
}
use incus_unraid.Images.Definition.{is_inherited}

abbrev pub results_per_source : ℕ
results_per_source = 30

abbrev pub merged_results_cap : ℕ
merged_results_cap = 40

pub data Ecosystem : Type 0 where
  apt npm pypi brew : Ecosystem

-- A result; `score` is npm's own number as npm writes it, stashed in it.
pub record Found : Type 0 where
  pub ecosystem : Ecosystem
  pub name : Text
  pub description : Option Text
  pub version : Option Text
  pub score : Option Text

pub record SearchError : Type 0 where
  pub ecosystem : Ecosystem
  pub message : Text

-- s.includes(q)
unfoldable pub includes : Text → Text → Bool
includes [] q = starts_with [] q
includes (c ∷ s) q = starts_with (c ∷ s) q || includes s q

-- \w
abbrev pub is_word : ℕ → Bool
is_word c = is_alnum c || nat_beq c 95

abbrev pub begins_with_word : Text → Bool
begins_with_word [] = false
begins_with_word (c ∷ s) = is_word c

-- \b at a place, with whether a word character stands in front of it
abbrev pub is_boundary : Bool → Text → Bool
is_boundary before s = if before then not (begins_with_word s) else begins_with_word s

-- new RegExp(`\b${escapeRegExp(q)}`).test(s)
unfoldable pub includes_at_boundary : Bool → Text → Text → Bool
includes_at_boundary before [] q = is_boundary before [] && starts_with [] q
includes_at_boundary before (c ∷ s) q =
    (is_boundary before (c ∷ s) && starts_with (c ∷ s) q) || includes_at_boundary (is_word c) s q

-- The loop of searchPypi, searchBrew and searchApt: `room` results are left before it breaks off.
unfoldable pub collect : {A : Type 0} → (A → Bool) → ℕ → List A → List A
collect matches zero items = []
collect matches (suc room) [] = []
collect matches (suc room) (item ∷ items) =
    let found = item ∷ collect matches room items in
    let rest = collect matches (suc room) items in if matches item then found else rest

-- RESULTS_PER_SOURCE * 3
abbrev pub collected_cap : ℕ
collected_cap = results_per_source * 3

-- delete clean.__score
abbrev pub clean : Found → Found
clean r = record r { score = none }

module _ {R : Type 0} (to_lower_case : Text → Text) (less : R → R → Bool) (number : ℕ → R)
    (log_score : Text → R) where
  unfoldable pub described : Option Text → Text → Bool
  described none query = false
  described (some description) query = includes (to_lower_case description) query

  unfoldable pub search_names : Text → List Text → List Text
  unfolding collect
  search_names query names =
      collect (λ name. includes (to_lower_case name) query) collected_cap names

  -- searchBrew and searchApt, on their index
  unfoldable pub search_index : Text → List Found → List Found
  unfolding collect
  search_index query index =
      collect (λ p. includes (to_lower_case p.name) query || described p.description query)
        collected_cap index

  unfoldable pub local_match_score : Text → Option Text → Text → ℕ
  local_match_score name description query =
      let n = to_lower_case name in
      let score : ℕ =
        if eq_text n query
        then 2000
        else if starts_with n query
        then 1600
        else if includes_at_boundary false n query
        then 1200
        else if includes n query
        then 800
        else if described description query
        then 400
        else 0 in
      score + 300 - min 300 (3 * length n)

  -- Math.min(100, x)
  unfoldable pub capped : R → R
  capped x = if less (number 2300) x then number 2300 else x

  unfoldable pub score_of : Text → Found → R
  unfolding capped
  score_of query r = elim r.score [
    | some s ↦ capped (log_score s)
    | none ↦ number (local_match_score r.name r.description query)
  ]

  -- One result into a list sorted by falling score, behind those of the same score.
  unfoldable pub place : Text → Found → List Found → List Found
  place query r [] = r ∷ []
  place query r (x ∷ sorted) =
      let rest = x ∷ place query r sorted in
      if less (score_of query x) (score_of query r) then r ∷ x ∷ sorted else rest

  unfoldable pub sort_into : Text → List Found → List Found → List Found
  sort_into query [] sorted = sorted
  sort_into query (r ∷ results) sorted = sort_into query results (place query r sorted)

  unfoldable pub merge_ranked : List Found → Text → List Found
  merge_ranked results query = map clean (sort_into query results [])

-- What a source comes to.
pub data Settled : Type 0 where
  fulfilled : List Found → Settled
  rejected : Text → Settled

unfoldable pub results_of : List (Ecosystem × Settled) → List Found
results_of [] = []
results_of ((e, fulfilled found) ∷ sources) = found ++ results_of sources
results_of ((e, rejected message) ∷ sources) = results_of sources

unfoldable pub errors_of : List (Ecosystem × Settled) → List SearchError
errors_of [] = []
errors_of ((e, fulfilled found) ∷ sources) = errors_of sources
errors_of ((e, rejected message) ∷ sources) =
    record { ecosystem = e; message = message } ∷ errors_of sources

-- A string that is given and not empty.
abbrev pub is_given : Option Text → Bool
is_given (some (c ∷ s)) = true
is_given _ = false

-- distro && release && APT_MIRRORS[distro]; a name that every object inherits is found in the table, too
unfoldable pub has_apt : Option Text → Option Text → Bool
unfolding eq_text
has_apt none release = false
has_apt (some distro) release =
    is_given release
    && (eq_text distro (codes "debian") || eq_text distro (codes "ubuntu") || is_inherited distro)

-- The sources in their order, with what each comes to.
unfoldable pub sources_of : Bool → (Ecosystem → Settled) → List (Ecosystem × Settled)
sources_of with_apt run =
    (npm, run npm)
    ∷ (pypi, run pypi)
    ∷ (brew, run brew)
    ∷ (if with_apt then (apt, run apt) ∷ [] else [])

unfoldable pub search_all :
    {R : Type 0}
    → (Text → Text)
    → (R → R → Bool)
    → (ℕ → R)
    → (Text → R)
    → Text
    → Option Text
    → Option Text
    → (Text → Ecosystem → Settled)
    → List Found × List SearchError
search_all to_lower_case less number log_score query distro release run =
    let q = to_lower_case (trim query) in
    let sources = sources_of (has_apt distro release) (run q) in
    if ltb (length q) 2 then ([], []) else (
      take merged_results_cap
          (merge_ranked to_lower_case less number log_score (results_of sources) q),
      errors_of sources,
    )
