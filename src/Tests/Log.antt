-- ===== src/Tests/Log.antt =====
-- A record with one changed page and one dropped table: its bytes, and reading them back.
use blockchain_parity_db.Prelude.{
  ℕ, ◌+◌, ◌<◌, ◌≡◌, ◌≢◌, refl, ap, true, none, some, [], ◌∷◌, ◌++◌, ◌&&◌, ◌==◌, if◌then◌else◌,
  arith,
}
use mathlib.Core.List.{append-nil}
use blockchain_parity_db.Bytes.{Bytes, Memory, to_le, slice, splice}
use blockchain_parity_db.Word.{mask_bits, mask_rounds, trailing_zeros, clear_bit, shl}
use blockchain_parity_db.Outcome.{ok, err, corruption, ◌>>=◌}
use blockchain_parity_db.Index.Chunk.{chunk_entries, read_entry, write_entry, empty_chunk}
use blockchain_parity_db.Index.Table.{
  IndexTable, chunk_offset, chunk_at, total_entries, total_chunks,
}
use blockchain_parity_db.Index.Table.Enact.{enact_plan, or_blank}
use blockchain_parity_db.Index.Table.Enact.Payload.{
  write_masked, enact_plan-index_payload, validate_plan-index_payload,
}
use blockchain_parity_db.Index.TableId
use blockchain_parity_db.Index.Table.Enact.Effect.{elem, enact_plan_effect}
use blockchain_parity_db.Log.Overlay.{
  insert_index, insert_value, writer_with_index, writer_value, copy_min,
}
use blockchain_parity_db.Log.Overlay.Queries.{with_index-insert_index, value-insert_value}
use blockchain_parity_db.Log.Reader.{LogReader, begin_record, new, next, advance}
use blockchain_parity_db.Log.Reader.Stands.{Stands}
use blockchain_parity_db.Log.Record.{
  index_payload, record_body, index_tables, index_pages, page_head, drop_head, begin_head,
  masked_entries, value_tables, drops, flush_to_file, flushed_bytes,
}
use blockchain_parity_db.Log.Record.Items.{
  Item, index_item, value_item, drop_item, items, Fits, noted_index, noted_values,
}
use blockchain_parity_db.Db.Enact.{Handlers, enact_record}
use blockchain_parity_db.Db.Enact.Replay.{All, apply_all, Enacts}
use blockchain_parity_db.Db.Enact.RoundTrip.{
  written_with, enact_record-flush_to_file, enact_record_mismatch,
}
use blockchain_parity_db.Index.Table.Enact.{validate_plan}
use blockchain_parity_db.Log.Files.{reading, end_read}
use blockchain_parity_db.Log.Files.Queues.{put_back}
use blockchain_parity_db.Db.Logs.{Validators, Db, enact_logs}
use blockchain_parity_db.Db.Logs.Validated.{Checks}
use blockchain_parity_db.Db.Logs.Replayed.{enact_logs-flush_to_file}
use blockchain_parity_db.Tests.Files.{new_log}
use blockchain_parity_db.Tests.Data.{table, writer, page, page-IsChunk, change, log, sum_crc}

with_index-insert_index_example :
    writer_with_index (insert_index 16 5 3 page writer) 16 6
    ≡ (if 16 == 16 && 5 == 6 then some page else writer_with_index writer 16 6)
with_index-insert_index_example = with_index-insert_index 16 5 3 16 6 page writer

value-insert_value_example :
    writer_value (insert_value 2 5 (1 ∷ 2 ∷ []) writer) 2 5 (0 ∷ 0 ∷ 0 ∷ []) ≡ (
      if 2 == 2 && 5 == 5
      then some (copy_min (0 ∷ 0 ∷ 0 ∷ []) (1 ∷ 2 ∷ []))
      else writer_value writer 2 5 (0 ∷ 0 ∷ 0 ∷ []))
value-insert_value_example = value-insert_value 2 5 2 5 (1 ∷ 2 ∷ []) writer (0 ∷ 0 ∷ 0 ∷ [])

-- A reader at the start of a file
at_start : (bs : Bytes) → Stands (new bs 0 true) bs
unfolding new
at_start bs = record { bound = omega arith; ahead = refl }

at_whole : (bs : Bytes) → Stands (new bs 0 true) (bs ++ [])
at_whole bs = rw (append-nil bs) (at_start bs)

enact_plan_effect_example :
    (m : Memory) × (enact_plan 5 table (new (index_payload change) 0 true)
      ≡ ok (
        record table { map = some m },
        advance (index_payload change) (new (index_payload change) 0 true),
      ))
    × ((j : ℕ)
        → j < chunk_entries
        → read_entry (chunk_at 5 m) j ≡ (
            if elem j (mask_bits 8)
            then read_entry page j
            else read_entry (chunk_at 5 (or_blank none)) j))
    × ((other : ℕ) → 5 ≢ other → chunk_at other m ≡ chunk_at other (or_blank none))
enact_plan_effect_example =
    enact_plan_effect 5 table change [] (omega arith) page-IsChunk (at_whole (index_payload change))

-- One index table, which a dropped table empties
abbrev handlers : Handlers IndexTable
handlers = record {
  enact_index = λ id index t r. enact_plan index t r;
  enact_value = λ id index t r. err (corruption "no value tables");
  drop_index = λ id record_id t. ok table;
}

abbrev applied : Item → IndexTable → IndexTable
applied (index_item id index c) t = record t {
  map =
      some (write_masked (mask_bits c.modified_mask) (chunk_offset index) c.chunk (or_blank t.map));
}
applied (value_item id index v) t = t
applied (drop_item id) t = table

fits : All Fits (items log)
fits = ((omega arith, omega arith, omega arith), (omega arith, tt))

enacts : All (Enacts handlers applied 1) (items log)
enacts = (
  λ t r rest st. enact_plan-index_payload 5 t change rest (omega arith) page-IsChunk st,
  (λ t. refl, tt),
)

enact_record-flush_to_file_example :
    let r = new (flush_to_file log) 0 true in
    (start : LogReader) × (e : LogReader) × (next r ≡ ok (begin_record, start))
    × (start.record_id ≡ 1)
    × (enact_record handlers table start ≡ ok (apply_all applied (items log) table, e))
    × Stands e []
    × (e.record_id ≡ 1)
    × (e.read_bytes ≡ 0 + flushed_bytes log)
    × (e.cleared.index ≡ [] ++ noted_index (items log))
    × (e.cleared.values ≡ [] ++ noted_values (items log))
unfolding new
enact_record-flush_to_file_example =
    enact_record-flush_to_file handlers applied log [] table (omega arith) fits enacts refl
      (at_whole (flush_to_file log))

-- The record's bytes add up to more than nothing.
bad_sum : 0 ≢ sum_crc.checksum (record_body log)
unfolding record_body index_tables index_pages page_head drop_head begin_head value_tables drops
    index_payload to_le masked_entries mask_bits mask_rounds trailing_zeros clear_bit shl slice
    splice write_entry empty_chunk
bad_sum e = omega (arith, e)

enact_record_mismatch_example :
    (start : LogReader) × (next (new (written_with log 0 []) 0 true) ≡ ok (begin_record, start))
    × (enact_record handlers table start ≡ err (corruption "Log record CRC-32 mismatch"))
unfolding new
enact_record_mismatch_example =
    enact_record_mismatch handlers applied log 0 [] table (omega arith) fits (omega arith) enacts
      refl (at_start (written_with log 0 [])) refl bad_sum

-- A database that is about to apply the record
abbrev database : Db IndexTable
database = record {
  log = record new_log {
    reading =
        some (record { id = 0; file = record { content = flush_to_file log ++ []; position = 0 } });
    reading_state = reading;
  };
  tables = table;
  last_enacted = 0;
  enacted_bytes = 0;
}

abbrev validators : Validators IndexTable
validators = record {
  validate_index = λ id index t r. validate_plan index table r;
  validate_value = λ id index t r. err (corruption "no value tables");
}

many_entries : 5 < total_entries (TableId.index_bits table.id)
unfolding total_entries total_chunks TableId.index_bits shl
many_entries = omega arith

checks : All (Checks validators 1) (items log)
checks = (
  λ t r rest st.
      ap (λ z. z >>= λ (r' : LogReader). ok (t, r'))
        (validate_plan-index_payload 5 table change rest many_entries (omega arith) page-IsChunk
          st),
  (λ t. refl, tt),
)

-- The database validates the record and then applies it.
enact_logs-flush_to_file_example :
    (d' : Db IndexTable) × (e : LogReader) × (enact_logs handlers validators true database
      ≡ ok (true, d'))
    × (d'.tables ≡ apply_all applied (items log) table)
    × (d'.last_enacted ≡ 1)
    × (d'.enacted_bytes ≡ 0)
    × (d'.log ≡ end_read e.cleared 1 (put_back e database.log))
    × Stands e []
enact_logs-flush_to_file_example =
    enact_logs-flush_to_file handlers validators applied log [] database
      (record { id = 0; file = record { content = flush_to_file log ++ []; position = 0 } }) true
      (omega arith) fits enacts (λ mode. refl) (λ mode. checks) refl refl
      (at_start (flush_to_file log ++ []))
