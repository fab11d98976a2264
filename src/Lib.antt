-- ===== src/Lib.antt =====
-- A model of two parts of the repository. The first is the server side of the Unraid plugin for Incus:
-- unraid-api-plugin-incus/src, a set of NestJS services that a GraphQL resolver calls. The plugin keeps two
-- files in step (incus.cfg, a shell file that root sources at every array start, and incus.json), talks HTTP
-- to the Incus daemon over a unix socket, opens terminals in containers, runs commands and builds images in
-- the background, and checks what a settings form sends. The second is the client of the Codex plugin,
-- unraid-codex/web-src/src/protocol.ts: a React hook that talks JSON-RPC to the Codex app server over a web
-- socket and keeps the state that the chat window shows.
--
-- Files. Each names the source file that it models in its first lines.
--   Prelude        strings as lists of UTF-16 code units with the string methods that the sources use,
--                  insertion-ordered maps, lists by native numbers; no model of its own.
--   Config         config.entity.ts: the keys and the defaults of the configuration.
--   ConfigSync     config-sync.service.ts. Mapping has keyMap, mapShellToTS, formatShellValue and
--                  isConfigDifferent; Shell has parseShellConfig and updateShellConfig; Transaction has
--                  writeConfigPair and writeFileAtomic over the file system of Files; Lock has acquireCfgLock; Service has applyConfigUpdate and syncCfgToJSON.
--                  Quoting, Names, Lines, Written, Update, RoundTrip, Reads and Agreement prove what an update
--                  reads back as; Atomic and Outcomes what a transaction leaves on the disk,
--                  Applied, Merged and Synced how an update and a sync end, Compared what a sync
--                  takes for a difference.
--   Json           JSON values as the services read them.
--   UnixClient     incus-unix-client.service.ts: Exchange has requestRaw as the events of one HTTP exchange,
--                  Requests the calls that are built on it; Collected and Errors are the proofs.
--   Exec           incus-exec.service.ts: Sessions has the terminal sessions with their sockets and timers and
--                  the relation of their events; Jobs, RunOnce and Background the background jobs; Leaks and
--                  Jobs/Evicted the proofs.
--   Images         json-store.ts, incus-builder-presets.service.ts and incus-image-builder.service.ts: Registry
--                  has the stored lists, Queue the running and waiting builds, BuildLog the log of a build, Build the
--                  events of runBuild, Environment the variables that a build sees, Definition the checks on a build
--                  and its YAML text; Unique, Master, Logged, Standing, Built, Ended, Secrets and
--                  Definition/Injection are the proofs.
--   Entity         config.entity.ts: the checks on paths; Regex and Inputs have the patterns and validators of the
--                  settings form; Resolve proves where the accepted paths lead, Inert and Clean which
--                  characters are left out. ConfigSync/Accepted joins them to the update of incus.cfg.
--   Jails          incus.service.ts: Calls has callAndWait and the snapshot behind listJails, Operations and
--                  Workspace the other methods; Sent, Deleted, Launched and Contained prove what is sent.
--   Packages       package-catalog.worker.ts and incus-package-search.service.ts: Catalog has parseApt, Caches the
--                  caches and the running fetches, Search the scoring and merging; Stanzas, Bounded and Ranked
--                  are the proofs.
--   Codex          protocol.ts of the Codex plugin: Values has the JSON objects, State CodexState, Timeline
--                  flattenTurns, upsertTimeline and addApprovalResolution, Notifications and Dispatch
--                  handleNotification, Client rpc and handleMessage, Actions the events of the socket and what the
--                  page calls, Requests the answers to requests, Steps all of them in any order, Session
--                  establishSession and listAll; Kept, Once, Handled, Acted, Runs, Stream, Distinct, Echo, Answers
--                  and Apps are the proofs.
--   Tests          runs at concrete inputs.
--
-- What is a parameter. The file system of config-sync.service.ts is a record of four calls, each of which may
-- fail, with the documented effect of a call on the paths it names (ConfigSync/Files). The daemon is the
-- function that answers a request with events (UnixClient/Requests), JSON.parse and the decoding of bytes are
-- functions beside it; incus.service.ts takes them with node:path, the clock, the settings and the shape of
-- replies as one record (Jails/Calls). The package search takes lower-casing, the numbers with their order and the
-- logarithm of mergeRanked. The log of a build takes redactBuildLogText, the decoding of a chunk and the UTF-8 encoding, the Codex client and the
-- environment of a build `new URL`. Times, random identifiers and what other processes do are arguments: the
-- rounds of the lock's loop, the events of a reply, the steps of the session service.
--
-- Bounds. Loops are structural on the text, the list or the events that they read, and listAll on the twenty
-- pages that it counts itself. Fuel stands only in the digits of a number, which has fewer digits than its
-- successor says. The lock's loop has no bound of its own in the source, so it is run on the list of what its
-- rounds observe, and is undecided where that list ends first.
--
-- Not modelled: the Vue front end and its bundles, the shell scripts and the plugin file, the React components
-- of the Codex plugin, and what node:fs, node:http, ws and NestJS do. The key `__proto__`, which an object
-- does not store, is taken as any other.
pub mod Prelude
pub mod Config
pub mod ConfigSync
pub mod Json
pub mod UnixClient
pub mod Exec
pub mod Images
pub mod Entity
pub mod Jails
pub mod Packages
pub mod Codex
pub mod Tests
