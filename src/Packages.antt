-- ===== src/Packages.antt =====
-- unraid-api-plugin-incus/src/package-catalog.worker.ts and incus-package-search.service.ts: `Catalog` reads a Debian
-- package index, with `Stanzas` on what it finds; `Caches` is the memory of failures and of running fetches, with
-- `Bounded` on its invariants; `Search` finds and ranks, with `Ranked` on the order.
pub mod Catalog
pub mod Stanzas
pub mod Caches
pub mod Bounded
pub mod Search
pub mod Ranked
