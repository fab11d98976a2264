-- ===== src/ConfigSync/Synced.antt =====
-- unraid-api-plugin-incus/src/config-sync.service.ts, syncCfgToJSON: what a sync leaves in the two files and in memory.
use incus_unraid.Prelude.{true, false, ◌≡◌, ◌≢◌, ◌⊎◌, Option, none, some, List, Text, eq_text}
use incus_unraid.Config.{Object, spread}
use incus_unraid.ConfigSync.Files.{FileSystem}
use incus_unraid.ConfigSync.Mapping.{map_shell_to_ts}
use incus_unraid.ConfigSync.Shell.{parse_shell_config}
use incus_unraid.ConfigSync.Compared.{Agrees, Differs}
use incus_unraid.ConfigSync.Transaction.{Paths, write_file_atomic}
use incus_unraid.ConfigSync.Lock.{Round, acquired, acquire}
use incus_unraid.ConfigSync.Service.{SyncService, Lock, current_json}

module _ (fs : FileSystem) (json_text : Object → Text) (json_parse : Text → Option Object) where
  open fs use {
    Disk, content, write_file, write_file-done, write_file-else, rename_file, rename_file-done,
    rename_file-else, rename_file-failed,
  }

  -- The configuration that a sync of the text `old` of incus.cfg makes of what incus.json holds.
  abbrev pub synced : Paths → Text → Disk → Object
  synced ps old d =
      spread (current_json json_parse (content d ps.json))
        (map_shell_to_ts (parse_shell_config old))

  -- What incus.json holds, and what is read of incus.cfg
  abbrev pub current : Paths → Disk → Object
  current ps d = current_json json_parse (content d ps.json)

  abbrev pub mapped : Text → Object
  mapped old = map_shell_to_ts (parse_shell_config old)

  -- Why a sync under the lock changes nothing: incus.cfg is gone, incus.json has all of its values, or it has not, and the
  -- write of the merged configuration fails.
  abbrev pub Idle : Paths → Text → Disk → Type 0
  Idle ps tmp d =
      (content d ps.cfg ≡ none)
      ⊎ ((old : Text) × (content d ps.cfg ≡ some old)
          × (Agrees (current ps d) (mapped old)
              ⊎ (Differs (current ps d) (mapped old)
                  × ((write_file_atomic fs ps.json tmp (json_text (synced ps old d)) d).0
                      ≡ false))))

  -- Whether incus.json and the value in memory are as they were, for one of these reasons, or incus.json lacked a value of
  -- incus.cfg and both hold the merged configuration.
  abbrev pub InStep : Paths → Text → SyncService fs → SyncService fs → Type 0
  InStep ps tmp s s' =
      ((content s'.disk ps.json ≡ content s.disk ps.json)
        × (s'.served ≡ s.served)
        × Idle ps tmp s.disk)
      ⊎ ((old : Text) × (content s.disk ps.cfg ≡ some old)
          × Differs (current ps s.disk) (mapped old)
          × (content s'.disk ps.json ≡ some (json_text (synced ps old s.disk)))
          × (s'.served ≡ synced ps old s.disk))

  -- What a sync under the lock leaves: incus.cfg as it was, isSyncing reset, and `InStep`.
  abbrev pub Under : Paths → Text → SyncService fs → SyncService fs → Type 0
  Under ps tmp s s' =
      (content s'.disk ps.cfg ≡ content s.disk ps.cfg)
      × (s'.is_syncing ≡ false)
      × InStep ps tmp s s'

  -- How a sync ends, with what it found
  abbrev pub SyncEnds :
      Paths → Text → List Round → SyncService fs → SyncService fs → SyncService fs → Type 0
  SyncEnds ps tmp rounds later s r =
      (((s.is_syncing ≡ true) ⊎ (content s.disk ps.cfg ≡ none)) × (r ≡ s))
      ⊎ (((s.is_syncing ≡ false)
            × ((old : Text) × (content s.disk ps.cfg ≡ some old))
            × ((acquire 0 0 rounds).result ≢ acquired)
            × (r ≡ later))
          ⊎ ((s.is_syncing ≡ false)
              × ((old : Text) × (content s.disk ps.cfg ≡ some old))
              × ((acquire 0 0 rounds).result ≡ acquired)
              × Under ps tmp later r))

  module _ (lock : Lock) (ps : Paths) (tmp : Text) (tmp_cfg : eq_text tmp ps.cfg ≡ false)
      (tmp_json : eq_text tmp ps.json ≡ false) (json_cfg : eq_text ps.json ps.cfg ≡ false)
      (cfg_lock : eq_text lock.path ps.cfg ≡ false)
      (json_lock : eq_text lock.path ps.json ≡ false) where
    abbrev ended : SyncService fs → SyncService fs
    ended s = record s { is_syncing = false }
