-- ===== src/FeWebSocket.antt =====
-- server/feWebClient/feWebSocket.ts: the connection to irssi's fe-web module.
pub mod Sending
pub mod Connection
pub mod Scheduled
pub mod Laws
pub mod Handlers
mod Tests
