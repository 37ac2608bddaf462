-- ===== src/Log/Record.antt =====
-- src/log.rs, `LogChange::flush_to_file`: a record as the bytes of the log file.
pub mod Heads
pub mod Items
pub mod End
use blockchain_parity_db.Prelude.{ℕ, ◌+◌, ◌*◌, List, [], ◌∷◌, ◌++◌, length}
use blockchain_parity_db.Bytes.{Bytes, to_le, slice}
use blockchain_parity_db.HashMap.{HashMap}
use blockchain_parity_db.Word.{mask_bits}
use blockchain_parity_db.Index.Chunk.{Chunk, entry_bytes}
use blockchain_parity_db.Index.TableId.{TableId}
use blockchain_parity_db.Log.Overlay.{
  IndexChange, ValueChange, IndexLogOverlay, ValueLogOverlay, LogChange,
}
use blockchain_parity_db.Log.Reader.{
  Crc32, begin_record_tag, insert_index_tag, insert_value_tag, end_record_tag, drop_table_tag,
}

-- `while mask != 0`: the entries of the chunk at the places given
unfoldable pub masked_entries : List ℕ → Chunk → Bytes
masked_entries [] chunk = []
masked_entries (i ∷ is) chunk = slice (i * entry_bytes) entry_bytes chunk ++ masked_entries is chunk

unfoldable pub index_payload : IndexChange → Bytes
index_payload c = to_le 8 c.modified_mask ++ masked_entries (mask_bits c.modified_mask) c.chunk

-- The tag, the table and the page of an insertion
unfoldable pub page_head : ℕ → TableId → ℕ → Bytes
page_head tag table index = to_le 1 tag ++ (to_le 2 table ++ to_le 8 index)

abbrev pub index_head : TableId → ℕ → Bytes
index_head = page_head insert_index_tag

abbrev pub value_head : TableId → ℕ → Bytes
value_head = page_head insert_value_tag

unfoldable pub drop_head : TableId → Bytes
drop_head table = to_le 1 drop_table_tag ++ to_le 2 table

unfoldable pub begin_head : ℕ → Bytes
begin_head record_id = to_le 1 begin_record_tag ++ to_le 8 record_id

-- The loops over one table's pages
unfoldable pub index_pages : TableId → IndexLogOverlay → Bytes
index_pages table [] = []
index_pages table ((index, c) ∷ m) =
    index_head table index ++ (index_payload c ++ index_pages table m)

unfoldable pub value_pages : TableId → ValueLogOverlay → Bytes
value_pages table [] = []
value_pages table ((index, v) ∷ m) = value_head table index ++ (v.entry ++ value_pages table m)

-- The loops over the tables
unfoldable pub index_tables : HashMap IndexLogOverlay → Bytes
index_tables [] = []
index_tables ((table, m) ∷ ms) = index_pages table m ++ index_tables ms

unfoldable pub value_tables : HashMap ValueLogOverlay → Bytes
value_tables [] = []
value_tables ((table, m) ∷ ms) = value_pages table m ++ value_tables ms

unfoldable pub drops : List TableId → Bytes
drops [] = []
drops (table ∷ ts) = drop_head table ++ drops ts

-- All that goes through `write`, and into the checksum
unfoldable pub record_body : LogChange → Bytes
record_body log =
    begin_head log.record_id
    ++ (index_tables log.local_index
        ++ (value_tables log.local_values ++ (drops log.dropped_tables ++ to_le 1 end_record_tag)))

module _ ⦃crc : Crc32⦄ where
  -- The bytes appended to the file; `bytes` is their number.
  unfoldable pub flush_to_file : LogChange → Bytes
  flush_to_file log = record_body log ++ to_le 4 (crc.checksum (record_body log))

  unfoldable pub flushed_bytes : LogChange → ℕ
  flushed_bytes log = length (record_body log) + 4
