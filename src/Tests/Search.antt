-- ===== src/Tests/Search.antt =====
-- The search for a key of which the index has an entry, but its slot was removed.
use blockchain_parity_db.Prelude.{
  ℕ, ◌≤◌, ◌≡◌, refl, ◌∙◌, inl, inr, false, ◌&&◌, some, Bool, Bool-cases, List, ◌==◌, if◌then◌else◌,
  replicate, length, arith,
}
use blockchain_parity_db.Bytes.{slice, blank, read_bytes, length-to_le, length-read_bytes}
use blockchain_parity_db.Outcome.{ok}
use blockchain_parity_db.Word.{shl, shr}
use blockchain_parity_db.Index.TableId
use blockchain_parity_db.Index.Address
use blockchain_parity_db.Index.Entry
use blockchain_parity_db.Index.Chunk.{empty_chunk, read_entry, holds_key}
use blockchain_parity_db.Index.Chunk.Entries.{read_entry-write_entry}
use blockchain_parity_db.Index.Table.{Key, current_chunk}
use blockchain_parity_db.Index.Table.Insert.{chunk_of}
use blockchain_parity_db.Index.Table.Remove.{read_entry-empty_chunk}
use blockchain_parity_db.Log.Overlay.{
  LogWriter, LogWriter_query, writer_with_index, insert_index, insert_value,
}
use blockchain_parity_db.Log.Overlay.Queries.{
  with_index-insert_index, with_index-insert_value, value-insert_value,
}
use blockchain_parity_db.Value.Entry as Slot
use blockchain_parity_db.Value.Key.{partial}
use blockchain_parity_db.Value.Table.{ValueTable}
use blockchain_parity_db.Value.Table.FreeList.{tombstone_to}
use blockchain_parity_db.Value.Parts.{has_key_at, partial_key_at, same_key, for_parts, parts_loop}
use blockchain_parity_db.Value.Parts.Chain.{Holds, load-Holds}
use blockchain_parity_db.Column.{table_at}
use blockchain_parity_db.Column.FirstMatch.{
  FirstMatch, IsCandidate, Tells, has_key, search_index-FirstMatch,
}
use blockchain_parity_db.Column.Search.{search_index}
use blockchain_parity_db.Tests.Data.{writer, table, page, empty_chunk-IsChunk}
use blockchain_parity_db.Tests.Column.{small_slots}

abbrev zero_key : Key
zero_key = replicate 32 0

abbrev eight_tables : List ValueTable
eight_tables = replicate 8 small_slots

abbrev indexed : LogWriter
indexed =
    insert_value 0 0 (tombstone_to 0) (insert_index 16 (chunk_of table zero_key) 3 page writer)

indexed-Holds : Holds small_slots indexed 0 (tombstone_to 0)
indexed-Holds dest =
    value-insert_value 0 0 0 0 (tombstone_to 0)
      (insert_index 16 (chunk_of table zero_key) 3 page writer) dest
    ∙ ground arith

indexed-chunk : current_chunk table (chunk_of table zero_key) indexed ≡ some page
unfolding current_chunk
indexed-chunk =
    let there : writer_with_index indexed 16 (chunk_of table zero_key) ≡ some page =
      with_index-insert_value 0 0 16 (chunk_of table zero_key) (tombstone_to 0)
        (insert_index 16 (chunk_of table zero_key) 3 page writer)
      ∙ (with_index-insert_index 16 (chunk_of table zero_key) 3 16 (chunk_of table zero_key) page
            writer
          ∙ same_place_lem (chunk_of table zero_key)) in
    rw (there, current_chunk) refl
  where
    same_place_lem :
        (n : ℕ)
        → (if 16 == 16 && n == n then some page else writer_with_index writer 16 n) ≡ some page
    same_place_lem n = ground arith

-- A removed slot has no key.
removed-has_key_at : has_key_at blank 1 small_slots 0 (partial zero_key) indexed ≡ ok false
unfolding has_key_at partial_key_at for_parts parts_loop Slot.is_tombstone Slot.has_marker Slot.new
    slice same_key
removed-has_key_at =
    let room : length (tombstone_to 0) ≤ length (read_bytes blank 0 0x8000) =
      omega (arith, length-read_bytes blank 0 0x8000, length-to_le 8 0) in
    let loaded =
      load-Holds small_slots indexed 0 (tombstone_to 0) (read_bytes blank 0 0x8000) indexed-Holds
        room in
    rw loaded refl

-- The entry at place 3 has the address 7, tier 7 and slot 0.
candidate-place : (i : ℕ) → IsCandidate blank 1 zero_key table eight_tables indexed page i → i ≡ 3
unfolding holds_key Entry.is_empty
candidate-place i c = elim (Bool-cases (3 == i)) [
  | inl here ↦ ground (arith, here)
  | inr there ↦
      let empty_there : read_entry page i ≡ 0 =
        read_entry-write_entry 7 3 i empty_chunk (omega arith) empty_chunk-IsChunk (omega arith)
        ∙ rw there (read_entry-empty_chunk i) in
      absurd (not_held i empty_there c)
]
  where
    not_held :
        (j : ℕ)
        → read_entry page j ≡ 0
        → IsCandidate blank 1 zero_key table eight_tables indexed page j
        → ⊥
    not_held j e h = let h' = rw e at h in cc

read_entry-page : read_entry page 3 ≡ 7
read_entry-page =
    read_entry-write_entry 7 3 3 empty_chunk (omega arith) empty_chunk-IsChunk (omega arith)
    ∙ ground arith

has_key-runs : has_key blank 1 zero_key table eight_tables indexed page 3 ≡ ok false
unfolding table_at Entry.address Entry.last_address Entry.address_bits Address.size_tier
    Address.offset TableId.index_bits shl shr
has_key-runs = rw read_entry-page removed-has_key_at

abbrev no_key : ℕ → Bool
no_key i = false

indexed-Tells : Tells blank 1 zero_key table eight_tables indexed page no_key
indexed-Tells i room cand = let at_three = candidate-place i cand in rw at_three has_key-runs

search_index-FirstMatch_example :
    FirstMatch blank 1 zero_key table eight_tables indexed page no_key 0
      (search_index blank 1 65 zero_key table eight_tables indexed)
search_index-FirstMatch_example =
    search_index-FirstMatch blank 1 zero_key table eight_tables indexed page no_key indexed-chunk
      indexed-Tells
