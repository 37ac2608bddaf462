-- ===== src/Index.antt =====
-- src/index.rs: the hash index. `Address` and `Entry` are its 64-bit words, `Key` the part of a
-- hashed key that it looks at, `TableId` the name of one table, `Chunk` a page of 64 entries and
-- `Table` the memory-mapped table under the log.
pub mod Address
pub mod Entry
pub mod Chunk
pub mod TableId
pub mod Table
