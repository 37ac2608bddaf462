-- ===== src/Column/Plan.antt =====
-- src/column.rs, `HashColumn::write_plan`: a key set or removed, in a record under way. A chunk that
-- has no room starts a new index; the fuel `tries` bounds how many are started for one key.
use blockchain_parity_db.Prelude.{
  ℕ, zero, suc, ◌+◌, ◌%◌, ◌^◌, Bool, true, false, Option, none, some, List, [], ◌∷◌, ◌++◌, ◌==◌,
  if◌then◌else◌,
}
use blockchain_parity_db.Bytes.{Bytes, Memory}
use blockchain_parity_db.Outcome.{Result, ok, panic, stuck, ◌>>=◌}
use blockchain_parity_db.Index.TableId
use blockchain_parity_db.Index.Address.{Address}
use blockchain_parity_db.Index.Table.{
  Key, PlanOutcome, create_new, write_insert_plan, write_remove_plan,
}
use blockchain_parity_db.Log.Overlay.{LogWriter}
use blockchain_parity_db.Value.Key.{partial}
use blockchain_parity_db.Value.Table
use blockchain_parity_db.Value.Table.{ValueTable}
use blockchain_parity_db.Column.Compression.{Codecs}
use blockchain_parity_db.Column.Values.{write_existing_value_plan, write_new_value_plan}
use blockchain_parity_db.Column.Search.{Existing, search_index, search_all_indexes}
use blockchain_parity_db.Column.{HashColumn, as_ref}

-- A new index with one more bit; the old one is the last of the queue.
unfoldable pub trigger_reindex : HashColumn → HashColumn
trigger_reindex c =
    let id = c.index.id in
    record c {
      index = create_new (TableId.new (TableId.col id) ((TableId.index_bits id + 1) % 2 ^ 8));
      queue = c.queue ++ c.index ∷ [];
    }

-- Whether a plan has to go on with a new index
abbrev pub needs_reindex : PlanOutcome → Bool
needs_reindex PlanOutcome.written = false
needs_reindex PlanOutcome.need_reindex = true
needs_reindex PlanOutcome.skipped = false

-- `if index.id == tables.index.id`
unfoldable pub same_place : HashColumn → Existing → Option ℕ
same_place c e = if e.table.id == c.index.id then some e.sub_index else none

-- What follows `write_existing_value_plan`
unfoldable pub plan_existing :
    HashColumn
    → Key
    → Bool
    → Existing
    → Option PlanOutcome × Option Address
    → LogWriter
    → Result (PlanOutcome × LogWriter)
plan_existing c key is_set e (some outcome, address) log = ok (outcome, log)
plan_existing c key is_set e (none, none) log = panic
plan_existing c key true e (none, some address) log =
    write_insert_plan c.index key address (same_place c e) log
plan_existing c key false e (none, some address) log = do
  (outcome, log') ← write_remove_plan e.table key e.sub_index log
  ok (PlanOutcome.skipped, log')

abbrev pub is_some {ℓ} : {A : Type ℓ} → Option A → Bool
is_some none = false
is_some (some a) = true

module _ (codecs : Codecs) (uninit : Memory) (fuel : ℕ) where
  unfoldable pub write_plan_existing :
      HashColumn
      → Key
      → Option Bytes
      → LogWriter
      → Existing
      → Result (PlanOutcome × HashColumn × LogWriter)
  write_plan_existing c key value log e = do
    (planned, tables, log') ←
        write_existing_value_plan codecs uninit fuel (partial key) (as_ref c) e.address value log
          c.collect_stats
    (outcome, log'') ← plan_existing c key (is_some value) e planned log'
    ok (outcome, record c { value = tables }, log'')

  unfoldable pub write_plan_new :
      ℕ → HashColumn → Key → Bytes → LogWriter → Result (PlanOutcome × HashColumn × LogWriter)
  write_plan_new zero c key value log = stuck
  write_plan_new (suc tries) c key value log = do
    (address, tables, log') ←
        write_new_value_plan codecs uninit fuel (partial key) (as_ref c) value log
    let c' = record c { value = tables }
    (outcome, log'') ← write_insert_plan c.index key address none log'
    if needs_reindex outcome
        then (do
          (again, c'', log₃) ← write_plan_new tries (trigger_reindex c') key value log''
          ok (PlanOutcome.need_reindex, c'', log₃))
        else ok (PlanOutcome.written, c', log'')

  unfoldable pub plan_for :
      ℕ
      → HashColumn
      → Key
      → Option Bytes
      → LogWriter
      → Option Existing
      → Result (PlanOutcome × HashColumn × LogWriter)
  plan_for tries c key value log (some existing) = write_plan_existing c key value log existing
  plan_for tries c key (some value) log none = write_plan_new tries c key value log
  plan_for tries c key none log none = ok (PlanOutcome.skipped, c, log)

  unfoldable pub write_plan :
      ℕ
      → HashColumn
      → Key
      → Option Bytes
      → LogWriter
      → Result (PlanOutcome × HashColumn × LogWriter)
  write_plan tries c key value log = do
    existing ← search_all_indexes uninit fuel tries key c log
    plan_for tries c key value log existing

  -- An entry of an old index, for the new one
  unfoldable pub write_reindex_plan :
      ℕ → HashColumn → Key → Address → LogWriter → Result (PlanOutcome × HashColumn × LogWriter)
  write_reindex_plan zero c key address log = stuck
  write_reindex_plan (suc tries) c key address log = do
    found ← search_index uninit fuel (suc tries) key c.index c.value log
    if is_some found then ok (PlanOutcome.skipped, c, log) else (do
      (outcome, log') ← write_insert_plan c.index key address none log
      if needs_reindex outcome
          then (do
            (again, c', log'') ← write_reindex_plan tries (trigger_reindex c) key address log'
            ok (PlanOutcome.need_reindex, c', log''))
          else ok (PlanOutcome.written, c, log'))

-- `complete_plan` of every value table
unfoldable pub complete_tables : List ValueTable → LogWriter → List ValueTable × LogWriter
complete_tables [] log = ([], log)
complete_tables (t ∷ ts) log =
    let (t', log') = Table.complete_plan t log in
    let (ts', log'') = complete_tables ts log' in (t' ∷ ts', log'')

unfoldable pub complete_plan : HashColumn → LogWriter → HashColumn × LogWriter
complete_plan c log =
    let (tables, log') = complete_tables c.value log in (record c { value = tables }, log')

unfoldable pub refresh_tables : List ValueTable → Result (List ValueTable)
refresh_tables [] = ok []
refresh_tables (t ∷ ts) = do t' ← Table.refresh_metadata t; ts' ← refresh_tables ts; ok (t' ∷ ts')

unfoldable pub refresh_metadata : HashColumn → Result HashColumn
refresh_metadata c = do tables ← refresh_tables c.value; ok (record c { value = tables })
