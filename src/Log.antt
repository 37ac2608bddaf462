-- ===== src/Log.antt =====
-- src/log.rs: the write-ahead log.
pub mod Overlay
pub mod Reader
pub mod Record
pub mod Files
