-- ===== src/Tests/Index.antt =====
-- Lookups, insertions and removals in a table of 16 index bits.
use blockchain_parity_db.Prelude.{
  ℕ, ◌+◌, ◌*◌, ◌/◌, ◌^◌, ◌≤◌, ◌<◌, ◌≡◌, ◌⊎◌, refl, true, false, none, some, arith, replicate,
}
use blockchain_parity_db.Outcome.{ok}
use blockchain_parity_db.Word.{mask_bits, ones, mask_bits-ones}
use blockchain_parity_db.Index.Address
use blockchain_parity_db.Index.Entry
use blockchain_parity_db.Index.Entry.Prefix.{recover_prefix-new, reindex_prefix}
use blockchain_parity_db.Index.Chunk.Search.{IsFirst, Nowhere, find_entry_cases}
use blockchain_parity_db.Index.Chunk.Entries.{IsChunk, write_entry-IsChunk}
use blockchain_parity_db.Index.Chunk.{
  chunk_entries, chunk_len, empty_chunk, read_entry, write_entry, find_entry, holds_key,
}
use blockchain_parity_db.Index.Table.{
  written, need_reindex, skipped, meta_size, total_chunks, total_entries, file_size, chunk_offset,
  write_insert_plan, write_remove_plan, put_entry, current_chunk, index_from_partial, first_empty,
  add_entry, plan_insert_chunk,
}
use blockchain_parity_db.Index.Table.Vacancy.{IsFirstEmpty, IsFull}
use blockchain_parity_db.Index.Table.Insert.{
  IsPlaced, source, bits_of, chunk_of, key_of, entry_of, write_insert_plan_cases,
  get-write_insert_plan, write_insert_plan-replace,
}
use blockchain_parity_db.Index.Table.Remove.{IsCleared, write_remove_plan_effect}
use blockchain_parity_db.Index.Table.Enact.Bounds.{chunk_offset-le-file_size, validate_plan_beyond}
use blockchain_parity_db.Index.TableId
use blockchain_parity_db.Bytes.{to_le, from_le, to_be, from_be, slice, splice}
use blockchain_parity_db.HashMap
use blockchain_parity_db.Word.{shl, shr, mask_rounds, trailing_zeros, clear_bit}
use blockchain_parity_db.Log.Overlay.{
  LogWriter, at_table, put_table, mask_of, changed_index, insert_index, writer_with_index,
  overlays_with_index,
}
use blockchain_parity_db.Log.Reader.{LogReader, new, read, read_word, advance}
use blockchain_parity_db.Index.Table.Enact.{validate_plan, skip_entries, skip_plan}
use blockchain_parity_db.Tests.Data.{table, key, writer, page, empty_chunk-IsChunk}

program : Unit {0}
unfolding shl shr mask_bits mask_rounds trailing_zeros clear_bit to_le from_le to_be from_be slice
    splice HashMap.get HashMap.insert HashMap.get_or_default at_table put_table mask_of
    changed_index insert_index writer_with_index overlays_with_index Address.new Entry.new
    Entry.address_bits Entry.last_address Entry.partial_key Entry.extract_key Entry.is_empty
    Entry.chunk_index TableId.index_bits empty_chunk read_entry write_entry holds_key
    index_from_partial total_chunks total_entries current_chunk first_empty put_entry add_entry
    plan_insert_chunk write_insert_plan read read_word advance new skip_entries skip_plan
program = tt

recover_prefix-new_example :
    Entry.recover_prefix 16
      (Entry.chunk_index 16 0x1234_5678_9abc_def0)
      (Entry.new 261 (Entry.extract_key 0x1234_5678_9abc_def0 16) 16)
    ≡ 0x1234_5678_9abc_def0 / 2 ^ 14 * 2 ^ 14
recover_prefix-new_example =
    recover_prefix-new 16 0x1234_5678_9abc_def0 261 (omega arith) (omega arith) (omega arith)
      (omega arith)

reindex_prefix_example :
    let found =
      Entry.recover_prefix 16
        (Entry.chunk_index 16 0x1234_5678_9abc_def0)
        (Entry.new 261 (Entry.extract_key 0x1234_5678_9abc_def0 16) 16) in
    (Entry.chunk_index 17 found ≡ Entry.chunk_index 17 0x1234_5678_9abc_def0)
    × (Entry.extract_key found 17 ≡ Entry.extract_key 0x1234_5678_9abc_def0 17)
reindex_prefix_example =
    reindex_prefix 16 17 0x1234_5678_9abc_def0 261 (omega arith) (omega arith) (omega arith)
      (omega arith) (omega arith) (omega arith)

find_entry_cases_example :
    ((i : ℕ) × IsFirst 16 (Entry.extract_key 7 16) 2 62 page i
      × (find_entry 16 7 2 page ≡ (read_entry page i, i)))
    ⊎ (Nowhere 16 (Entry.extract_key 7 16) 2 62 page × (find_entry 16 7 2 page ≡ (Entry.empty, 0)))
find_entry_cases_example = find_entry_cases 16 7 2 page (omega arith)

mask_bits-ones_example : mask_bits 0x28 ≡ ones 0 64 0x28
mask_bits-ones_example = mask_bits-ones 0x28 (omega arith)

sixteen : bits_of table ≡ 16
sixteen = rw (TableId.index_bits_lem 16) (omega arith)

used_bits : 0 < bits_of table
used_bits = rw sixteen (omega arith)

few_bits : bits_of table ≤ 49
few_bits = rw sixteen (omega arith)

-- Nothing has changed the table's pages.
source-writer : source table (chunk_of table key) writer ≡ empty_chunk
unfolding program
source-writer = refl

source-IsChunk : IsChunk (source table (chunk_of table key) writer)
source-IsChunk = rw source-writer empty_chunk-IsChunk

-- The record with the key's entry for `a` at place 0 of its page
abbrev placed : ℕ → LogWriter
placed a = put_entry table (chunk_of table key) (entry_of table key a) 0 empty_chunk writer

run_insert : write_insert_plan table key 261 none writer ≡ ok (written, placed 261)
unfolding program
run_insert = refl

write_insert_plan_cases_example :
    let c = source table (chunk_of table key) writer in
    ((Entry.last_address (bits_of table) < 261)
      × (write_insert_plan table key 261 none writer ≡ ok (need_reindex, writer)))
    ⊎ ((261 ≤ Entry.last_address (bits_of table))
        × (IsFull 0 chunk_entries c
              × (write_insert_plan table key 261 none writer ≡ ok (need_reindex, writer))
            ⊎ ((i : ℕ) × IsFirstEmpty 0 chunk_entries c i
                × (write_insert_plan table key 261 none writer
                    ≡ ok (
                      written,
                      put_entry table (chunk_of table key) (entry_of table key 261) i c writer,
                    )))))
write_insert_plan_cases_example = write_insert_plan_cases table key 261 writer

get-write_insert_plan_example :
    (i : ℕ) × (i < chunk_entries)
    × (Entry.is_empty (read_entry (source table (chunk_of table key) writer) i) ≡ true)
    × IsPlaced table key 261 i writer (placed 261)
get-write_insert_plan_example =
    get-write_insert_plan table key 261 writer (placed 261) used_bits few_bits (omega arith)
      source-IsChunk run_insert

source-placed :
    source table (chunk_of table key) (placed 261)
    ≡ write_entry (entry_of table key 261) 0 empty_chunk
unfolding program
source-placed = refl

placed-IsChunk : IsChunk (source table (chunk_of table key) (placed 261))
placed-IsChunk =
    rw source-placed
      (write_entry-IsChunk (entry_of table key 261) 0 empty_chunk (omega arith) empty_chunk-IsChunk)

same_key :
    Entry.partial_key
      (read_entry (source table (chunk_of table key) (placed 261)) 0)
      (bits_of table)
    ≡ key_of table key
unfolding program
same_key = refl

fits : 517 ≤ Entry.last_address (bits_of table)
unfolding program
fits = omega arith

write_insert_plan-replace_example :
    (w' : LogWriter) × (write_insert_plan table key 517 (some 0) (placed 261) ≡ ok (written, w'))
    × IsPlaced table key 517 0 (placed 261) w'
write_insert_plan-replace_example =
    write_insert_plan-replace table key 517 0 (placed 261) used_bits few_bits (omega arith) fits
      (omega arith) placed-IsChunk same_key

write_remove_plan_effect_example :
    let held =
      holds_key
        (bits_of table)
        (key_of table key)
        (read_entry (source table (chunk_of table key) (placed 261)) 0) in
    ((held ≡ true)
      × ((w' : LogWriter) × (write_remove_plan table key 0 (placed 261) ≡ ok (written, w'))
          × IsCleared table key 0 (placed 261) w'))
    ⊎ ((held ≡ false) × (write_remove_plan table key 0 (placed 261) ≡ ok (skipped, placed 261)))
write_remove_plan_effect_example =
    write_remove_plan_effect table key 0 (placed 261) (omega arith) placed-IsChunk

-- The chunks of two keys
abbrev one_chunk : ℕ
one_chunk = Entry.chunk_index 16 0x1234_5678_9abc_def0

abbrev last_chunk : ℕ
last_chunk = Entry.chunk_index 16 0xffff_ffff_ffff_ffff

chunk_offset-le-file_size_example :
    (meta_size ≤ chunk_offset last_chunk)
    × (chunk_offset last_chunk + chunk_len ≤ file_size 16)
    × ((last_chunk ≡ one_chunk)
        ⊎ ((chunk_offset last_chunk + chunk_len ≤ chunk_offset one_chunk)
            ⊎ (chunk_offset one_chunk + chunk_len ≤ chunk_offset last_chunk)))
chunk_offset-le-file_size_example =
    chunk_offset-le-file_size 16 0xffff_ffff_ffff_ffff 0x1234_5678_9abc_def0 (omega arith)
      (omega arith) (omega arith)

-- The payload of a change of no entries
abbrev reader : LogReader
reader = new (replicate 8 0) 0 true

chunks : total_chunks (TableId.index_bits table.id) ≤ 65536
unfolding program
chunks = omega arith

entries : 65536 < total_entries (TableId.index_bits table.id)
unfolding program
entries = omega arith

read_payload : skip_plan reader ≡ ok (advance (replicate 8 0) reader)
unfolding program
read_payload = refl

validate_plan_beyond_example :
    (validate_plan 65536 table reader ≡ ok (advance (replicate 8 0) reader))
    × (file_size (TableId.index_bits table.id) ≤ chunk_offset 65536)
validate_plan_beyond_example =
    validate_plan_beyond table 65536 reader (advance (replicate 8 0) reader) chunks entries
      read_payload
