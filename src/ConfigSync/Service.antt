-- ===== src/ConfigSync/Service.antt =====
-- unraid-api-plugin-incus/src/config-sync.service.ts: applyConfigUpdate, syncCfgToJSON and releaseCfgLock. What happens
-- while a call waits for the lock is an argument: the service with its disk as the call finds them then. What
-- acquireCfgLock sees is the list of its rounds; the lock file with its token stands on the disk that it leaves.
use incus_unraid.Prelude.{
  Bool, true, false, Option, none, some, List, [], if◌then◌else◌, Text, eq_text, insert,
}
use incus_unraid.Config.{
  key_eq, ts_auth_key, ts_auth_key_configured, Object, bool, text, get, spread, truthy,
}
use incus_unraid.ConfigSync.Files.{FileSystem}
use incus_unraid.ConfigSync.Mapping.{map_shell_to_ts, is_config_different}
use incus_unraid.ConfigSync.Shell.{parse_shell_config, update_shell_config}
use incus_unraid.ConfigSync.Transaction.{
  Paths, Outcome, saved, write_config_pair, write_file_atomic,
}
use incus_unraid.ConfigSync.Lock.{
  Round, Result, acquired, busy, undecided, acquire, cfg_lock_max_retries,
}

-- merged, with the key's presence set anew
unfoldable pub merged : Text → Object → Object
merged cfg_content input =
    let both = spread (map_shell_to_ts (parse_shell_config cfg_content)) input in
    insert ts_auth_key_configured (bool (truthy (get ts_auth_key both))) both

-- { ...merged, tsAuthKey: "" }
unfoldable pub without_key : Object → Object
without_key o = insert ts_auth_key (text []) o

-- What applyConfigUpdate comes to: the value that it returns, or where it throws: incus.cfg is `missing` before
-- the lock, or `unreadable` under it.
pub data Reply : Type 0 where
  updated : Object → Reply
  missing locked unreadable : Reply
  failed : Outcome → Reply
  waiting : Reply

-- What is read of incus.json: an object, or {} where the file is missing or does not parse.
abbrev pub current_json : (Text → Option Object) → Option Text → Object
current_json json_parse none = []
current_json json_parse (some content) = elim (json_parse content) [ none ↦ [] | some o ↦ o ]

-- The lock file and the token in it.
pub record Lock : Type 0 where
  pub path : Text
  pub token : Text

module _ (fs : FileSystem) where
  open fs use {Disk, content}

  -- `served` is ConfigService's value of "incus".
  pub record SyncService : Type 0 where
    pub disk : Disk
    pub is_syncing : Bool
    pub served : Object

  -- releaseCfgLock, on the lock file: it goes where it still holds the token; a throw is caught
  unfoldable pub release_cfg_lock : Text → Text → Disk → Disk
  release_cfg_lock path token d = elim (content d path) [
    | none ↦ d
    | some holder ↦ if eq_text holder token then (fs.unlink path d).1 else d
  ]

  unfoldable pub unlock : Lock → SyncService → SyncService
  unfolding release_cfg_lock
  unlock lock s = record s { disk = release_cfg_lock lock.path lock.token s.disk }

module _ (fs : FileSystem) (json_text : Object → Text) (json_parse : Text → Option Object) where
  open fs use {Disk, content}

  -- The end of the `try` of applyConfigUpdate, with its `finally`.
  unfoldable pub finish_update : Object → Outcome × Disk → SyncService fs → Reply × SyncService fs
  finish_update merged (saved, d) s =
      (updated (without_key merged), record s { disk = d; is_syncing = false; served = merged })
  finish_update merged (outcome, d) s = (failed outcome, record s { disk = d; is_syncing = false })

  -- applyConfigUpdate with the lock held: `incus.cfg` is read again
  unfoldable pub update_locked : Paths → Object → SyncService fs → Reply × SyncService fs
  update_locked ps input s = elim (content s.disk ps.cfg) [
    | none ↦ (unreadable, record s { is_syncing = false })
    | some cfg_content ↦
        finish_update (merged cfg_content input)
          (write_config_pair fs ps (update_shell_config cfg_content input)
            (json_text (merged cfg_content input)) s.disk)
          s
  ]

  unfoldable pub with_lock :
      Result → Lock → Paths → Object → SyncService fs → Reply × SyncService fs
  with_lock acquired lock ps input s =
      let (reply, s') = update_locked ps input (record s { is_syncing = true }) in
      (reply, unlock fs lock s')
  with_lock busy lock ps input s = (locked, s)
  with_lock undecided lock ps input s = (waiting, s)

  unfoldable pub apply_config_update :
      Lock → Paths → Object → List Round → SyncService fs → SyncService fs → Reply × SyncService fs
  apply_config_update lock ps input rounds later s = elim (content s.disk ps.cfg) [
    | none ↦ (missing, s)
    | some _ ↦ with_lock (acquire cfg_lock_max_retries 0 rounds).result lock ps input later
  ]

  -- The write of syncCfgToJSON; what throws is caught.
  unfoldable pub write_synced : Paths → Text → Object → SyncService fs → SyncService fs
  write_synced ps tmp new_json s =
      let (returned, d) = write_file_atomic fs ps.json tmp (json_text new_json) s.disk in
      if returned then record s { disk = d; served = new_json } else record s { disk = d }

  -- The `try` of syncCfgToJSON, with its `finally`.
  unfoldable pub sync_locked : Paths → Text → SyncService fs → SyncService fs
  sync_locked ps tmp s = elim (content s.disk ps.cfg) [
    | none ↦ record s { is_syncing = false }
    | some cfg_content ↦
        let mapped = map_shell_to_ts (parse_shell_config cfg_content) in
        let current = current_json json_parse (content s.disk ps.json) in
        if is_config_different current mapped
        then record (write_synced ps tmp (spread current mapped) s) { is_syncing = false }
        else record s { is_syncing = false }
  ]

  unfoldable pub sync_cfg_to_json :
      Lock → Paths → Text → List Round → SyncService fs → SyncService fs → SyncService fs
  sync_cfg_to_json lock ps tmp rounds later s =
      if s.is_syncing then s else elim (content s.disk ps.cfg) [
        | none ↦ s
        | some _ ↦ elim (acquire 0 0 rounds).result [
          | acquired ↦ unlock fs lock (sync_locked ps tmp (record later { is_syncing = true }))
          | _ ↦ later
        ]
      ]
