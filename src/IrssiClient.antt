-- ===== src/IrssiClient.antt =====
-- server/irssiClient.ts: the client of one user, between the adapter of fe-web and the browsers.
pub mod State
pub mod Markers
pub mod Callbacks
pub mod Translate
pub mod Commands
pub mod Loading
pub mod Browsers
pub mod History
pub mod Requests
pub mod Run
pub mod Broadcasts
pub mod Uniform
pub mod OneLine
pub mod Seen
pub mod Parts
mod Tests
pub mod Settled
