-- ===== src/Images.antt =====
-- unraid-api-plugin-incus/src/incus-image-builder.service.ts, json-store.ts and
-- incus-builder-presets.service.ts: `Registry` is the JSON file of images and of presets, `Unique` and `Master`
-- what its operations keep, `Queue` the builds that wait, `BuildLog` the log of a build, `Logged` what is written to it, `Build` the child
-- process and its timers, `Standing`, `Built` and `Ended` that it ends, once, `Environment` and
-- `Secrets` the variables that it sees,
-- `Definition` the file given to distrobuilder.
pub mod Registry
pub mod Unique
pub mod Master
pub mod Queue
pub mod BuildLog
pub mod Logged
pub mod Build
pub mod Standing
pub mod Built
pub mod Ended
pub mod Environment
pub mod Secrets
pub mod Definition
