-- ===== src/UnixClient.antt =====
-- unraid-api-plugin-incus/src/incus-unix-client.service.ts: `Exchange` is one HTTP exchange,
-- `Requests` the calls built on it, `Collected` what an exchange collects and when its promise
-- settles, `Errors` the replies that become errors.
pub mod Exchange
pub mod Requests
pub mod Collected
pub mod Errors
