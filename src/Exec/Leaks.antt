-- ===== src/Exec/Leaks.antt =====
-- unraid-api-plugin-incus/src/incus-exec.service.ts: the invariant of the terminal sessions. `Owned`
-- states it, `Touched`, `Cleaned` and `Started` keep it, and `Steps` goes through the events.
pub mod Owned
mod Touched
mod Cleaned
mod Started
pub mod Steps
