-- ===== src/ConfigSync/Applied.antt =====
-- unraid-api-plugin-incus/src/config-sync.service.ts, applyConfigUpdate: what an update leaves in the two files, in memory
-- and in the answer.
use mathlib.Core.Path.{subst}
use incus_unraid.Prelude.{
  true, false, ◌≡◌, refl, sym, ◌∙◌, inl, inr, Option, some, [], Text, eq_text, Bool-cases,
  Option-cases,
}
use incus_unraid.Config.{
  ConfigKey, ts_auth_key, ts_auth_key_configured, Object, bool, text, get, get-insert, spread,
  truthy, eq_key, eq_key_iff, key_eq,
}
use incus_unraid.ConfigSync.Files.{FileSystem}
use incus_unraid.ConfigSync.Mapping.{key_map, map_shell_to_ts}
use incus_unraid.ConfigSync.Shell.{parse_shell_config, update_shell_config, shell_key}
use incus_unraid.ConfigSync.Update.{IsInertUpdate}
use incus_unraid.ConfigSync.Agreement.{IsTypedUpdate, update-agrees}
use incus_unraid.ConfigSync.Transaction.{Paths, rolled_back}
use incus_unraid.ConfigSync.Atomic.{IsDistinct}
use incus_unraid.ConfigSync.Merged.{IsFull, get-spread}
use incus_unraid.ConfigSync.Service.{
  merged, Reply, updated, missing, unreadable, locked, failed, waiting, SyncService, Lock,
  release_cfg_lock, unlock,
}

no_shell_key : (name : Text) → shell_key ts_auth_key_configured key_map ≡ some name → ⊥
unfolding shell_key eq_key
no_shell_key name h = absurd (cc)

get-merged :
    (k : ConfigKey) (name content : Text) (input : Object)
    → shell_key k key_map ≡ some name
    → get k (merged content input)
      ≡ get k (spread (map_shell_to_ts (parse_shell_config content)) input)
unfolding merged
get-merged k name content input e =
    let both = spread (map_shell_to_ts (parse_shell_config content)) input in
    elim (Bool-cases (eq_key ts_auth_key_configured k)) [
      | inr n ↦
          get-insert ts_auth_key_configured k (bool (truthy (get ts_auth_key both))) both
          ∙ rw n refl
      | inl y ↦ absurd (
          no_shell_key name (
            subst (λ j. shell_key j key_map ≡ some name)
              (sym ((eq_key_iff ts_auth_key_configured k).0 y)) e))
    ]

-- Where an update holds no `undefined` and no key twice, and its values have no single quote and no line break and the types
-- of their fields, the configuration that applyConfigUpdate puts in memory and in incus.json and the one read back from
-- the incus.cfg that it writes have the same value at every key that has a shell key.
pub merged-agrees :
    (content : Text) (input : Object) (k : ConfigKey) (name : Text)
    → IsFull input
    → IsInertUpdate input
    → IsTypedUpdate input
    → shell_key k key_map ≡ some name
    → get k (merged content input)
      ≡ get k (map_shell_to_ts (parse_shell_config (update_shell_config content input)))
merged-agrees content input k name full inert typed e =
    get-merged k name content input e
    ∙ get-spread k (map_shell_to_ts (parse_shell_config content)) input full
    ∙ sym (update-agrees content input k name inert typed e)

module _ (fs : FileSystem) (json_text : Object → Text) (json_parse : Text → Option Object) where
  open fs use {Disk, content, unlink-else}

  pub release-content :
      (lock : Lock) (s : SyncService fs) (p : Text)
      → eq_text lock.path p ≡ false
      → content (unlock fs lock s).disk p ≡ content s.disk p
  unfolding unlock release_cfg_lock
  release-content lock s p h = elim (Option-cases (content s.disk lock.path)) [
    | inl e ↦ rw (e, release_cfg_lock) refl
    | inr (holder, e) ↦ elim (Bool-cases (eq_text holder lock.token)) [
      | inl t ↦ rw (e, release_cfg_lock) (rw t (unlink-else lock.path s.disk p h))
      | inr t ↦ rw (e, release_cfg_lock) (rw t refl)
    ]
  ]

  -- What an update that found the service `s` at its call and `later` with the lock leaves, by its reply.
  abbrev pub UpdateEnds :
      Paths → Object → SyncService fs → SyncService fs → Reply × SyncService fs → Type 0
  UpdateEnds ps input later s (updated answer, s') =
      (old : Text) × (content later.disk ps.cfg ≡ some old)
      × (content s'.disk ps.cfg ≡ some (update_shell_config old input))
      × (content s'.disk ps.json ≡ some (json_text (merged old input)))
      × (s'.served ≡ merged old input)
      × (s'.is_syncing ≡ false)
      × (get ts_auth_key answer ≡ text [])
  UpdateEnds ps input later s (failed rolled_back, s') =
      (content s'.disk ps.cfg ≡ content later.disk ps.cfg)
      × (content s'.disk ps.json ≡ content later.disk ps.json)
      × (s'.served ≡ later.served)
      × (s'.is_syncing ≡ false)
  UpdateEnds ps input later s (failed _, s') = (s'.served ≡ later.served) × (s'.is_syncing ≡ false)
  UpdateEnds ps input later s (unreadable, s') =
      (s'.served ≡ later.served) × (s'.is_syncing ≡ false)
  UpdateEnds ps input later s (missing, s') = s' ≡ s
  UpdateEnds ps input later s (locked, s') = s' ≡ later
  UpdateEnds ps input later s (waiting, s') = s' ≡ later

  module _ (lock : Lock) (ps : Paths) (apart : IsDistinct ps)
      (cfg_lock : eq_text lock.path ps.cfg ≡ false)
      (json_lock : eq_text lock.path ps.json ≡ false) where
    abbrev unlocked : Reply × SyncService fs → Reply × SyncService fs
    unlocked (reply, s) = (reply, unlock fs lock s)

    abbrev syncing : SyncService fs → SyncService fs
    syncing s = record s { is_syncing = true }
