-- ===== src/Exec.antt =====
-- unraid-api-plugin-incus/src/incus-exec.service.ts: `Sessions` is the terminal sessions and
-- `Leaks` the invariant they keep, `Jobs` the two tables of background jobs, `RunOnce` one command in a container, `Background` what runs behind a job.
pub mod Sessions
pub mod Leaks
pub mod Jobs
pub mod RunOnce
pub mod Background
