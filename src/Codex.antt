-- ===== src/Codex.antt =====
-- unraid-codex/web-src/src/protocol.ts: the chat client of the Codex app server. Values to Steps are the model, from the JSON
-- objects of the messages to the events in any order; Session is the set-up of a session. Kept, Once, Handled, Acted and Runs
-- prove what every run keeps, Stream, Distinct and Echo what becomes of the timeline, Answers and Apps how requests are answered.
pub mod Values
pub mod State
pub mod Timeline
pub mod Notifications
pub mod Dispatch
pub mod Client
pub mod Actions
pub mod Requests
pub mod Steps
pub mod Kept
pub mod Once
pub mod Handled
pub mod Acted
pub mod Runs
pub mod Stream
pub mod Distinct
pub mod Echo
pub mod Answers
pub mod Apps
pub mod Session
