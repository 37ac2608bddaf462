-- ===== src/Tests.antt =====
-- Runs of the model on concrete tables and records, and the theorems applied to them.
pub mod Data
mod Index
mod Files
mod Log
mod Value
mod Chain
mod Column
mod Btree
mod Commit
mod Search
mod Open
mod Reindex
