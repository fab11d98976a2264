-- ===== src/ConfigSync.antt =====
-- unraid-api-plugin-incus/src/config-sync.service.ts: `Mapping` and `Shell` read and write incus.cfg, with
-- `Quoting` to `Agreement` on what is read back; `Files`, `Transaction`, `Atomic` and `Outcomes` are the replacement of
-- both files, `Lock` the lock around it.
-- `Service` is what applyConfigUpdate and syncCfgToJSON do with these, `Applied`, `Merged` and `Synced` how they end, `Compared`
-- what counts as a difference. `Accepted` is about the updates that the settings form accepts.
pub mod Mapping
pub mod Shell
pub mod Quoting
pub mod Names
pub mod Lines
pub mod Written
pub mod Update
pub mod RoundTrip
pub mod Reads
pub mod Agreement
pub mod Files
pub mod Transaction
pub mod Atomic
pub mod Outcomes
pub mod Lock
pub mod Service
pub mod Merged
pub mod Compared
pub mod Applied
pub mod Synced
pub mod Accepted
