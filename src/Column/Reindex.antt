-- ===== src/Column/Reindex.antt =====
-- src/column.rs: the entries of the oldest index, batch by batch, for the new one, and the end of an old
-- index; and the actions of a record that is validated.
pub mod Progress
use blockchain_parity_db.Prelude.{
  ℕ, zero, suc, ◌+◌, ◌-◌, Option, none, some, List, [], ◌∷◌, ◌++◌, length, replicate, ltb, ◌==◌,
  if◌then◌else◌,
}
use blockchain_parity_db.Bytes.{to_be}
use blockchain_parity_db.Outcome.{Result, ok, err, stuck, corruption, ◌>>=◌}
use blockchain_parity_db.Index.TableId
use blockchain_parity_db.Index.TableId.{TableId}
use blockchain_parity_db.Index.Address.{Address}
use blockchain_parity_db.Index.Entry
use blockchain_parity_db.Index.Entry.{Entry, recover_prefix}
use blockchain_parity_db.Index.Table.{Key, IndexTable, entries, total_chunks}
use blockchain_parity_db.Index.Table.Enact
use blockchain_parity_db.Log.Overlay.{LogOverlays, LogOverlays_query}
use blockchain_parity_db.Log.Reader.{LogReader, LogAction}
use blockchain_parity_db.Value.Table.Counter
use blockchain_parity_db.Column.{HashColumn, max_reindex_batch, table_at}
use blockchain_parity_db.Column.Plan.{trigger_reindex}

-- `recover_key_prefix`: eight bytes of the key, and zeros
unfoldable pub recover_key_prefix : IndexTable → ℕ → Entry → Key
recover_key_prefix t chunk entry =
    to_be 8 (recover_prefix (TableId.index_bits t.id) chunk entry) ++ replicate 24 0

pub record ReindexBatch : Type 0 where
  pub drop_index_id : Option TableId
  pub batch : List (Key × Address)

-- `for entry in entries.iter()`
unfoldable pub plan_entries : IndexTable → ℕ → List Entry → List (Key × Address)
plan_entries source chunk [] = []
plan_entries source chunk (e ∷ es) =
    let rest = plan_entries source chunk es in
    if Entry.is_empty e
    then rest
    else (recover_key_prefix source chunk e, Entry.address e (TableId.index_bits source.id)) ∷ rest

-- `while source_index < total_chunks && plan.len() < MAX_REINDEX_BATCH`, with `left` chunks left
unfoldable pub plan_chunks :
    ℕ → IndexTable → LogOverlays → ℕ → List (Key × Address) → ℕ × List (Key × Address)
plan_chunks zero source log source_index plan = (source_index, plan)
plan_chunks (suc left) source log source_index plan =
    let rest =
      plan_chunks left source log (source_index + 1)
        (plan ++ plan_entries source source_index (entries source source_index log)) in
    if ltb (length plan) max_reindex_batch then rest else (source_index, plan)

-- The batch of an old index of which not all chunks are done; the index ends with the last one.
unfoldable pub reindex_from : IndexTable → HashColumn → LogOverlays → ReindexBatch × HashColumn
reindex_from source c log =
    let total = total_chunks (TableId.index_bits source.id) in
    let (source_index, plan) = plan_chunks (total - c.progress) source log c.progress [] in
    if c.progress == total then (record { drop_index_id = none; batch = [] }, c) else (
      record {
        drop_index_id = if source_index == total then some source.id else none;
        batch = plan;
      },
      record c { progress = source_index },
    )

unfoldable pub reindex_queue :
    List IndexTable → HashColumn → LogOverlays → ReindexBatch × HashColumn
reindex_queue [] c log = (record { drop_index_id = none; batch = [] }, c)
reindex_queue (source ∷ queue) c log = reindex_from source c log

unfoldable pub reindex : HashColumn → LogOverlays → ReindexBatch × HashColumn
reindex c log = reindex_queue c.queue c log

-- The oldest index, if it is that with the id. Its file is removed, too.
unfoldable pub drop_front : TableId → List IndexTable → HashColumn → HashColumn
drop_front id [] c = c
drop_front id (t ∷ queue) c = if t.id == id then record c { queue = queue; progress = 0 } else c

unfoldable pub drop_index : TableId → HashColumn → HashColumn
drop_index id c = drop_front id c.queue c

-- `reindex.queue.iter().find(...)`
unfoldable pub find_table : TableId → List IndexTable → Option IndexTable
find_table id [] = none
find_table id (t ∷ ts) = let rest = find_table id ts in if t.id == id then some t else rest

-- A table that is not there starts a reindex, until it is there.
unfoldable pub validate_index :
    ℕ → TableId → ℕ → HashColumn → LogReader → Result (HashColumn × LogReader)
validate_index zero table index c r = stuck
validate_index (suc tries) table index c r =
    let again = validate_index tries table index (trigger_reindex c) r in
    elim (find_table table (c.index ∷ c.queue)) [
      | some t ↦ do r' ← Enact.validate_plan index t r; ok (c, r')
      | none ↦ again
    ]

unfoldable pub validate_plan :
    ℕ → LogAction → HashColumn → LogReader → Result (HashColumn × LogReader)
validate_plan tries (LogAction.insert_index table index) c r = validate_index tries table index c r
validate_plan tries (LogAction.insert_value table index) c r = do
  t ← table_at (TableId.size_tier table) c.value
  r' ← Counter.validate_plan index t r
  ok (c, r')
validate_plan tries LogAction.begin_record c r = err (corruption "Unexpected log action")
validate_plan tries (LogAction.drop_table table) c r = err (corruption "Unexpected log action")
validate_plan tries LogAction.end_record c r = err (corruption "Unexpected log action")
