-- ===== src/FeWebAdapter.antt =====
-- server/feWebClient/feWebAdapter.ts: from the messages of irssi's fe-web module to the networks and
-- channels of The Lounge.
pub mod Network
pub mod Users
pub mod State
pub mod Talk
pub mod Notices
pub mod NickChange
pub mod Nicklist
pub mod Lifecycle
pub mod Dispatch
pub mod Quiet
pub mod Order
pub mod Tells
pub mod Comparator
pub mod Delivery
pub mod Renames
mod Tests
