-- ===== src/Jails.antt =====
-- unraid-api-plugin-incus/src/incus.service.ts: `Calls` is the state of the service and its calls of the daemon,
-- `Operations` launching and deleting containers, `Workspace` their workspace, limits and details; `Sent`, `Deleted`,
-- `Launched` and `Contained` prove what reaches the daemon.
pub mod Calls
pub mod Operations
pub mod Workspace
pub mod Sent
pub mod Deleted
pub mod Launched
pub mod Contained
