-- ===== src/Db.antt =====
-- src/db.rs: the stages of the commit pipeline.
pub mod Enact
pub mod Logs
pub mod Commit
