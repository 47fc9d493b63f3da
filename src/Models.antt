-- ===== src/Models.antt =====
-- The server's data: server/models and the enumerations of shared/types.
pub mod Msg
pub mod Prefix
pub mod User
pub mod Chan
