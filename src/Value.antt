-- ===== src/Value.antt =====
-- src/table.rs and src/file.rs: the value tables.
pub mod Entry
pub mod Table
pub mod Key
pub mod Parts
pub mod Write
