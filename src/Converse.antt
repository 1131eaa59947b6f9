-- ===== src/Converse.antt =====
-- The chat server under converse/exe_server/src.
pub mod Link
pub mod Writers
pub mod Models
pub mod Replay
pub mod Failover
pub mod Client
pub mod Text
pub mod Sqlite
pub mod Service
