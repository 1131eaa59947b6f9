-- ===== src/Mousedb.antt =====
-- The key-value server under mousedb/.
pub mod Hlc
pub mod Arena
pub mod Concurrent
pub mod Filter
pub mod Varint
pub mod KvStore
pub mod Wal
pub mod Database
pub mod Tables
pub mod SpinMutex
pub mod Wire
pub mod Peers
