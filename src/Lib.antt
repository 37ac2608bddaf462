-- ===== src/Lib.antt =====
-- parity-db is an embedded key-value database: a write-ahead log in front of memory-mapped index
-- tables and of value tables, with a pipeline of threads that carries a commit through them. This
-- library models the index (src/index.rs), the log (src/log.rs), the value tables (src/table.rs),
-- the columns with hashed keys that are made of them (src/column.rs), and of src/db.rs the commit queue
-- and the loop that applies a log record, and the nodes of a B-tree (src/btree).
--
-- The parts, and how they work together:
--   Prelude, Word, Bytes, Outcome, HashMap: the conditional, tests and lists; `u64` shifts and the
--     loop over a mask; `to_le_bytes`, slices, and the bytes of a map by offset; `Result` and
--     src/error.rs; `std::collections::HashMap` with integer keys; KeyMap: the maps with keys of bytes.
--   Index.Address, Index.Entry, Index.TableId, Index.Chunk, Index.Table: `Address`, `Entry`,
--     `TableId`, the 512-byte page and `IndexTable`. `get`, `write_insert_plan` and
--     `write_remove_plan` are functions of the table and of a log, given by an instance of `LogQuery`;
--     a plan returns the record with the changed page. Index.Table.Enact has `enact_plan`,
--     `validate_plan` and `skip_plan`, which read a page from the log and bring it to the map.
--   Log.Overlay: `LogOverlays`, `LogChange`, `LogWriter` and their queries. Log.Reader: `LogReader`
--     over the bytes of a log file. Log.Record: `flush_to_file`, which writes those bytes.
--   Log.Files: `Log`, with `begin_record`, `end_record` and `end_read`; Log.Files.Queues has the steps that
--     move a log file on (`flush_one`, `replay_next`, `clean_logs`, `read_next`, `kill_logs`),
--     Log.Files.Queues.Owned puts them all into one step relation, and Log.Files.Open has `open`.
--   Value.Entry and Value.Table: a slot buffer and `ValueTable` (src/table.rs), its header, the list of
--     its free slots, and the counters of the values; src/file.rs on the bytes of the file, and in Value.Table.Enact `enact_plan`,
--     which writes them. The content of an uninitialised buffer is the parameter `uninit`.
--   Value.Key, Value.Parts, Value.Write: the keys of src/table.rs, `for_parts` with `get`, `query`, `size`
--     and `has_key_at`, and `overwrite_chain` with the plans that call it. Value.Parts.Slot and Value.Parts.Chain
--     say what the slots of a value hold, as the log has them.
--   Column: `HashColumn` and `Column` of src/column.rs, with the index tables and the value tables as its
--     fields. Column.Compression is src/compress.rs, with the codecs of lz4 and snappy as the parameter `Codecs`;
--     Column.Values has `compress`, `get_value`, `write_existing_value_plan` and `write_new_value_plan`;
--     Column.Search the searches of a key; Column.Plan `write_plan` and `write_reindex_plan`; Column.Reindex
--     `reindex`, `drop_index` and `validate_plan`; Column.Open and Value.Table.Open the value tables that
--     `open` gives. The hash blake2b is a parameter.
--   Db.Enact: the loop of `enact_logs` over the actions of one record. What the columns do with an
--     action is a parameter, `Handlers`; Tests.Log fills it with an index table. Db.Logs: `enact_logs`
--     itself, with the validation that the replay of an opened database does first (`Validators`);
--     Db.Logs.Validated is about that loop. The log queue is counted down only outside of validation.
--   Db.Commit: `commit` and `commit_raw`; Db.Commit.Process: `process_commits`, `get` and `get_size`. The columns
--     with the log are the interface `Store`, of whose operations nothing is assumed. Db.Commit.Changed says what a
--     commit asks for, Db.Commit.Reads what the columns are when some commits are written in order (`write_all`),
--     and Db.Commit.Reads.Run puts commits and their processing into one relation.
--   Btree: the nodes of src/btree/node.rs in memory. Btree.Slots has the loops over an array of a node, which the source
--     writes once for the separators and once for the children; Btree.Operations the methods of `Node`; Btree.Insert
--     `insert_node`, and the end of `insert` in a leaf as the same function without a child; Btree.Codec the bytes of a
--     node (`write_node_plan` as far as its loop, `from_encoded`) and of the header; Btree.Search `position`, the `get` of
--     a node, of src/btree/btree.rs and of `BTreeTable`, and Btree.Search.Listing the keys of a tree in order.
--   Tests: the theorems at concrete tables and records.
--
-- State: a struct is a record of the same fields, passed and returned. A memory map is a function from
-- offsets to bytes. A file under a `LogReader` is a list of bytes and a position; a hasher is the list
-- of bytes that it was given, and `crc32fast` is the interface `Crc32` from such a list to a number
-- of 32 bits. A `HashMap` is an association list, which is also its order of iteration. `Result` has
-- two outcomes more than that of src/error.rs: `panic` for a failed assertion or an index out of range,
-- and `stuck` for a loop that has run out of its fuel.
--
-- Bounds and fuel: words are native numbers with `% 2 ^ w` where the source can overflow; a shift takes
-- its amount modulo 64. The index bits of a table are 1 to 49, so that an entry has room for an address
-- and a partial key. A mask has 64 bits, and its loop 64 rounds of fuel. The loop over a record has the
-- length of the file and one as fuel, because each round reads a byte at least.
--
-- The chain of a value is followed, by `clear_chain`, `for_parts` and `overwrite_chain`, for as many slots
-- as the caller gives fuel. A slot of more than 40 bytes holds a byte of the value at least, so that more
-- fuel than its bytes, its key and its counter is enough. A search in a chunk takes 65 tries, one for each of its 64 entries and
-- one for the end. `write_plan_new` and `write_reindex_plan` take fuel for the new indexes that they start.
-- The file of a value table grows for as many rounds as its capacity is short of the slot at most. The search in a B-tree takes fuel for its levels; a tree that can be listed with some fuel is searched with the same.
--
-- Not modelled: the dispatch of `enact_plan` in a column, and `iter_while`; what the changes of a
-- B-tree write to the value tables, its rebalancing and its iterators; threads and locks (each operation is one step under its lock; `flush_one` has no outcome where it
-- waits); failing file operations of `Log`; `fsync` and the other calls of the operating system,
-- `madvise`, the counters of the statistics, migration, the admin tool.
pub mod Btree
pub mod Bytes
pub mod Column
pub mod Db
pub mod HashMap
pub mod Index
pub mod KeyMap
pub mod Log
pub mod Outcome
pub mod Prelude
pub mod Tests
pub mod Value
pub mod Word
