-- ===== src/Tests/Sync.antt =====
-- The theorems on config-sync.service.ts at concrete inputs.
use incus_unraid.Prelude.{
  ◌≤◌, Text, codes, true, false, none, some, List, [], ◌∷◌, ◌≡◌, refl, has_char, Option, lookup,
  ◌⊎◌, eq_text, text_eq, if◌then◌else◌, arith,
}
use incus_unraid.Config.{enabled, jail_cpu, Object, bool, text, get, eq_key}
use incus_unraid.ConfigSync.Mapping.{map_shell_to_ts, format_shell_value}
use incus_unraid.ConfigSync.Shell.{
  parse_shell_config, update_shell_config, shell_key, target, find_key,
}
use incus_unraid.ConfigSync.Update.{IsInertUpdate}
use incus_unraid.ConfigSync.Agreement.{update-agrees}
use incus_unraid.ConfigSync.Reads.{update-reads}
use incus_unraid.ConfigSync.Transaction.{Paths, paths_of, write_config_pair}
use incus_unraid.ConfigSync.Atomic.{IsDistinct}
use incus_unraid.ConfigSync.Outcomes.{Ends, write_config_pair-Ends}
use incus_unraid.ConfigSync.Lock.{
  Round, created, threw, held, acquire, undecided, busy, acquire_bounds, acquire-undecided,
  acquire-busy,
}
use incus_unraid.Tests.Disk.{Memory, memory}
use incus_unraid.ConfigSync.Mapping.{is_config_different}
use incus_unraid.ConfigSync.Service.{SyncService, Lock, merged}
use incus_unraid.ConfigSync.Compared.{Agrees, Differs, is_config_different_lem}
use incus_unraid.ConfigSync.Applied.{merged-agrees}
use incus_unraid.Config.{spread}

abbrev one_cpu : Object
one_cpu = (jail_cpu, text (codes "1")) ∷ []

abbrev two_cpus : Object
two_cpus = (jail_cpu, text (codes "2")) ∷ []

abbrev old_file : Text
old_file = codes "# jails\nSERVICE=\"disabled\" # off\nJAIL_CPU=2"

abbrev changes : Object
changes = (enabled, bool true) ∷ (jail_cpu, text (codes "4")) ∷ []

changes-IsInert : IsInertUpdate changes
unfolding has_char format_shell_value
changes-IsInert = ((refl, refl), ((refl, refl), tt))

update-agrees_example :
    get jail_cpu (map_shell_to_ts (parse_shell_config (update_shell_config old_file changes)))
    ≡ text (codes "4")
unfolding get lookup eq_key shell_key
update-agrees_example =
    update-agrees old_file changes jail_cpu (codes "JAIL_CPU") changes-IsInert (tt, (tt, tt)) refl

update-reads_example :
    lookup (codes "JAIL_CPU") (parse_shell_config (update_shell_config old_file changes))
    ≡ some (codes "4")
unfolding get lookup eq_key target find_key eq_text format_shell_value
update-reads_example = update-reads old_file changes (codes "JAIL_CPU") changes-IsInert

abbrev paths : Paths
paths = paths_of (codes "incus.cfg") (codes "incus.json") (codes "7")

paths-IsDistinct : IsDistinct paths
unfolding paths_of eq_text
paths-IsDistinct = record {
  cfg_json = (refl, refl);
  cfg_cfg_stage = (refl, refl);
  cfg_json_stage = (refl, refl);
  cfg_cfg_backup = (refl, refl);
  cfg_json_backup = (refl, refl);
  json_cfg_stage = (refl, refl);
  json_json_stage = (refl, refl);
  json_cfg_backup = (refl, refl);
  json_json_backup = (refl, refl);
  stages = (refl, refl);
  cfg_stage_cfg_backup = (refl, refl);
  cfg_stage_json_backup = (refl, refl);
  json_stage_cfg_backup = (refl, refl);
  json_stage_json_backup = (refl, refl);
  backups = (refl, refl);
}

abbrev before : Memory
before p = if eq_text p (codes "incus.cfg") then some (codes "JAIL_CPU=2") else none

write_config_pair-Ends_example :
    Ends memory paths
      (codes "JAIL_CPU='4'")
      (codes "{}")
      before
      (write_config_pair memory paths (codes "JAIL_CPU='4'") (codes "{}") before)
write_config_pair-Ends_example =
    write_config_pair-Ends memory paths (codes "JAIL_CPU='4'") (codes "{}") paths-IsDistinct before

-- A fresh lock, a stale one that is removed, and then the create succeeds.
abbrev rounds : List Round
rounds = held 10 true ∷ held 20000 true ∷ created ∷ []

acquire_bounds_example : ((acquire 5 0 rounds).waits ≤ 5) × ((acquire 5 0 rounds).unlinks ≤ 1)
acquire_bounds_example = acquire_bounds 5 0 rounds

acquire-undecided_example :
    ((acquire 5 0 (held 20000 false ∷ threw ∷ [])).result ≡ undecided)
    × ((acquire 5 0 (held 20000 false ∷ threw ∷ [])).waits ≡ 0)
acquire-undecided_example =
    acquire-undecided 5 0 (held 20000 false ∷ threw ∷ []) (omega arith, (tt, tt))

acquire-busy_example :
    (acquire 1 0 (held 10 true ∷ held 20000 true ∷ held 30 true ∷ [])).result ≡ busy
acquire-busy_example =
    acquire-busy 1 0 (held 10 true ∷ held 20000 true ∷ held 30 true ∷ []) (tt, (tt, (tt, tt)))
      (omega arith) (omega arith)

merged-agrees_example :
    get jail_cpu (merged old_file changes)
    ≡ get jail_cpu (map_shell_to_ts (parse_shell_config (update_shell_config old_file changes)))
unfolding eq_key shell_key lookup
merged-agrees_example =
    merged-agrees old_file changes jail_cpu (codes "JAIL_CPU") (refl, refl, (refl, refl, tt))
      changes-IsInert (tt, (tt, tt)) refl

abbrev lock : Lock
lock = record { path = codes "incus.cfg.lock"; token = codes "1-a" }

abbrev service : SyncService memory
service = record { disk = before; is_syncing = false; served = [] }

abbrev json_text : Object → Text
json_text o = codes "{}"

abbrev json_parse : Text → Option Object
json_parse t = none

is_config_different_lem_example :
    (((is_config_different one_cpu two_cpus ≡ true) × Differs one_cpu two_cpus)
      ⊎ ((is_config_different one_cpu two_cpus ≡ false) × Agrees one_cpu two_cpus))
    × (is_config_different
          (spread one_cpu (map_shell_to_ts ((codes "JAIL_CPU", codes "2") ∷ [])))
          (map_shell_to_ts ((codes "JAIL_CPU", codes "2") ∷ []))
        ≡ false)
is_config_different_lem_example =
    is_config_different_lem one_cpu two_cpus ((codes "JAIL_CPU", codes "2") ∷ [])
