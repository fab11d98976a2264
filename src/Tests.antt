-- ===== src/Tests.antt =====
-- Runs of the operations on small inputs, and the theorems at concrete inputs.
mod Runs
mod Disk
mod Sync
mod Inputs
mod Exec
mod Client
mod Codex
mod Images
mod Paths
mod Jails
mod Packages
