-- ===== src/Tests/Packages.antt =====
-- The theorems on package-catalog.worker.ts and incus-package-search.service.ts at concrete inputs.
use incus_unraid.Prelude.{
  ℕ, ◌≤◌, ◌≡◌, refl, some, List, [], ◌∷◌, All, codes, eq_text, has_char, is_space, trim, join,
  lookup, insert, length, nat_eq, text_eq,
}
use incus_unraid.Packages.Catalog.{parse_apt}
use incus_unraid.Packages.Stanzas.{
  Line, field, continued, IsLine, last_field, packages_of, file_lines, parse_apt-packages,
}
use incus_unraid.Packages.Caches.{
  State, empty, get_index, fetch_shared, dedupe_in_flight, check_recent_failure, fresh_data, brew,
  asked, then_, start, max_failure_entries, max_apt_cache_entries,
}
use incus_unraid.Packages.Bounded.{one_fetch}

abbrev stanza : List Line
stanza =
    field (codes "Package") (codes "curl")
    ∷ field (codes "Description") (codes "tool")
    ∷ continued (codes "more")
    ∷ field (codes "Version") (codes "8.1")
    ∷ []

stanzas-IsLine : All (All IsLine) (stanza ∷ [])
unfolding is_space has_char trim
stanzas-IsLine = (
  (
    (refl, refl, refl, refl, refl),
    ((refl, refl, refl, refl, refl), (refl, ((refl, refl, refl, refl, refl), tt))),
  ),
  tt,
)

parse_apt-packages_example :
    parse_apt (join (codes "\n") (file_lines (stanza ∷ [])))
    ≡ record {
      name = codes "curl";
      description = some (codes "tool");
      version = some (codes "8.1");
    }
      ∷ []
unfolding packages_of last_field eq_text
parse_apt-packages_example = parse_apt-packages (stanza ∷ []) stanzas-IsLine

abbrev fetching : State
fetching = (get_index brew (codes "all") (codes "brew:index") 5 empty).1

abbrev promise : ℕ
promise = 0

one_fetch_example :
    (promise ≡ promise)
    × (length fetching.recent_failures ≤ max_failure_entries)
    × (length fetching.apt_cache ≤ max_apt_cache_entries)
unfolding get_index fetch_shared dedupe_in_flight check_recent_failure fresh_data lookup insert
one_fetch_example =
    one_fetch fetching promise promise (codes "brew:index")
      (then_ empty fetching start (asked brew (codes "all") (codes "brew:index") 5 empty)) refl refl
