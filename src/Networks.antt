-- ===== src/Networks.antt =====
-- server/models/network.ts: an IRC network as a user configured it.
pub mod State
pub mod Validate
pub mod Secure
pub mod Channels
mod Tests
