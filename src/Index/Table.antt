-- ===== src/Index/Table.antt =====
-- src/index.rs, `IndexTable`: the memory-mapped table behind the log, its lookups and the plans of
-- an insertion and a removal. A chunk is read from the record under way or the overlays if it is
-- there, from the map otherwise; a plan writes to the record only.
pub mod Vacancy
pub mod Insert
pub mod Remove
pub mod Enact
use mathlib.Core.Option
use blockchain_parity_db.Prelude.{
  ℕ, zero, suc, ◌+◌, ◌-◌, ◌*◌, ◌%◌, Bool, true, false, Option, none, some, List, [], ◌∷◌, take, ltb,
  ◌==◌, if◌then◌else◌,
}
use blockchain_parity_db.Bytes.{Bytes, Memory, from_be, read_bytes}
use blockchain_parity_db.Outcome.{Result, ok, panic, assert}
use blockchain_parity_db.Word.{shl}
use blockchain_parity_db.Index.Address.{Address}
use blockchain_parity_db.Index.Entry
use blockchain_parity_db.Index.Entry.{Entry}
use blockchain_parity_db.Index.TableId
use blockchain_parity_db.Index.TableId.{TableId}
use blockchain_parity_db.Index.Chunk.{
  Chunk, chunk_entries, chunk_len, empty_chunk, read_entry, write_entry, transmute_chunk, holds_key,
  find_entry,
}
use blockchain_parity_db.Log.Overlay.{LogQuery, LogWriter, LogWriter_query, insert_index}

abbrev pub meta_size : ℕ
meta_size = 16 * 1024

-- `Key`, 32 bytes
abbrev pub Key : Type 0
Key = Bytes

-- `TableKey::index_from_partial`
unfoldable pub index_from_partial : Bytes → ℕ
index_from_partial partial = from_be (take 8 partial)

pub data PlanOutcome : Type 0 where
  written need_reindex skipped : PlanOutcome

-- The map is `None` until the first record is enacted on the table.
pub record IndexTable : Type 0 where
  pub id : TableId
  pub map : Option Memory

unfoldable pub total_chunks : ℕ → ℕ
total_chunks index_bits = shl 1 index_bits

unfoldable pub total_entries : ℕ → ℕ
total_entries index_bits = total_chunks index_bits * chunk_entries

unfoldable pub file_size : ℕ → ℕ
file_size index_bits = total_entries index_bits * 8 + meta_size

-- Where the chunk begins in the file
unfoldable pub chunk_offset : ℕ → ℕ
chunk_offset index = meta_size + index * chunk_len

unfoldable pub chunk_at : ℕ → Memory → Chunk
chunk_at index map = read_bytes map (chunk_offset index) chunk_len

-- `create_new`
unfoldable pub create_new : TableId → IndexTable
create_new id = record { id = id; map = none }

module _ {L : Type 0} ⦃query : LogQuery L⦄ where
  -- The chunk that every operation starts from: `log.with_index`, or else the map
  unfoldable pub current_chunk : IndexTable → ℕ → L → Option Chunk
  current_chunk t index log = elim (query.with_index log t.id index) [
    | some chunk ↦ some chunk
    | none ↦ Option.map (chunk_at index) t.map
  ]

  unfoldable pub get : IndexTable → Key → ℕ → L → Entry × ℕ
  get t key sub_index log =
      let prefix = index_from_partial key in
      let bits = TableId.index_bits t.id in
      elim (current_chunk t (Entry.chunk_index bits prefix) log) [
        | some chunk ↦ find_entry bits prefix sub_index chunk
        | none ↦ (Entry.empty, 0)
      ]

  unfoldable pub entries : IndexTable → ℕ → L → List Entry
  entries t index log = elim (current_chunk t index log) [
    | some chunk ↦ transmute_chunk chunk
    | none ↦ transmute_chunk empty_chunk
  ]

-- `for i in at..at + n` of `plan_insert_chunk`: the first empty entry
unfoldable pub first_empty : ℕ → ℕ → Chunk → Option ℕ
first_empty zero at chunk = none
first_empty (suc n) at chunk =
    let rest = first_empty n (at + 1) chunk in
    if Entry.is_empty (read_entry chunk at) then some at else rest

-- The chunk with the entry at `i` replaced goes into the record.
unfoldable pub put_entry : IndexTable → ℕ → Entry → ℕ → Chunk → LogWriter → LogWriter
put_entry t index entry i chunk log =
    insert_index t.id index (i % 256) (write_entry entry i chunk) log

-- `if let Some(i) = sub_index`
unfoldable pub replace_entry :
    IndexTable → ℕ → Entry → Chunk → ℕ → LogWriter → Result (PlanOutcome × LogWriter)
replace_entry t index entry chunk i log =
    let bits = TableId.index_bits t.id in
    assert (ltb i chunk_entries) (
      assert (Entry.partial_key (read_entry chunk i) bits == Entry.partial_key entry bits)
        (ok (PlanOutcome.written, put_entry t index entry i chunk log)))

-- The loop over the chunk, and what follows it
unfoldable pub add_entry :
    IndexTable → ℕ → Entry → Chunk → LogWriter → Result (PlanOutcome × LogWriter)
add_entry t index entry chunk log = elim (first_empty chunk_entries 0 chunk) [
  | some i ↦ ok (PlanOutcome.written, put_entry t index entry i chunk log)
  | none ↦ ok (PlanOutcome.need_reindex, log)
]

unfoldable pub plan_insert_chunk :
    IndexTable → ℕ → Address → Chunk → Option ℕ → LogWriter → Result (PlanOutcome × LogWriter)
plan_insert_chunk t key_prefix address source sub_index log =
    let bits = TableId.index_bits t.id in
    let index = Entry.chunk_index bits key_prefix in
    let new_entry = Entry.new address (Entry.extract_key key_prefix bits) bits in
    if ltb (Entry.last_address bits) address
    then ok (PlanOutcome.need_reindex, log)
    else elim sub_index [
      | some i ↦ replace_entry t index new_entry source i log
      | none ↦ add_entry t index new_entry source log
    ]

unfoldable pub write_insert_plan :
    IndexTable → Key → Address → Option ℕ → LogWriter → Result (PlanOutcome × LogWriter)
write_insert_plan t key address sub_index log =
    let prefix = index_from_partial key in
    elim (current_chunk t (Entry.chunk_index (TableId.index_bits t.id) prefix) log) [
      | some chunk ↦ plan_insert_chunk t prefix address chunk sub_index log
      | none ↦ plan_insert_chunk t prefix address empty_chunk sub_index log
    ]

unfoldable pub plan_remove_chunk :
    IndexTable → ℕ → Chunk → ℕ → LogWriter → Result (PlanOutcome × LogWriter)
plan_remove_chunk t key_prefix source i log =
    let bits = TableId.index_bits t.id in
    let index = Entry.chunk_index bits key_prefix in
    assert (ltb i chunk_entries) (
      if holds_key bits (Entry.extract_key key_prefix bits) (read_entry source i)
      then ok (PlanOutcome.written, put_entry t index Entry.empty i source log)
      else ok (PlanOutcome.skipped, log))

unfoldable pub write_remove_plan :
    IndexTable → Key → ℕ → LogWriter → Result (PlanOutcome × LogWriter)
write_remove_plan t key sub_index log =
    let prefix = index_from_partial key in
    elim (current_chunk t (Entry.chunk_index (TableId.index_bits t.id) prefix) log) [
      | some chunk ↦ plan_remove_chunk t prefix chunk sub_index log
      | none ↦ ok (PlanOutcome.skipped, log)
    ]
