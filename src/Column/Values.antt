-- ===== src/Column/Values.antt =====
-- src/column.rs, `Column`: the values of a column, each in the first size tier that it fits, and the
-- plans that write them.
use blockchain_parity_db.Prelude.{
  ℕ, ◌+◌, ◌-◌, Bool, true, false, not, ◌&&◌, Option, none, some, List, [], ◌∷◌, set, length, ltb,
  ◌==◌, if◌then◌else◌,
}
use blockchain_parity_db.Bytes.{Bytes, Memory}
use blockchain_parity_db.Outcome.{Result, ok, panic, ◌>>=◌}
use blockchain_parity_db.Index.Address
use blockchain_parity_db.Index.Address.{Address}
use blockchain_parity_db.Index.Table.{PlanOutcome}
use blockchain_parity_db.Log.Overlay.{LogQuery, LogWriter, LogWriter_query}
use blockchain_parity_db.Value.Key.{TableKey, TableKeyQuery}
use blockchain_parity_db.Value.Table.{ValueTable}
use blockchain_parity_db.Value.Table.Chain.{write_remove_plan, write_inc_ref, write_dec_ref}
use blockchain_parity_db.Value.Parts
use blockchain_parity_db.Value.Parts.{query}
use blockchain_parity_db.Value.Write.{value_size, fits_slot, write_insert_plan, write_replace_plan}
use blockchain_parity_db.Column.Compression.{Codecs, Compress, compress, decompress}
use blockchain_parity_db.Column.{TablesRef, table_at}

-- `tables.iter().position(...)`, and `tables.len() - 1` if no tier has room
unfoldable pub first_tier : TableKey → ℕ → ℕ → List ValueTable → Option ℕ
first_tier key len tier [] = none
first_tier key len tier (t ∷ ts) =
    let rest = first_tier key len (tier + 1) ts in
    if fits_slot len (value_size t key) then some tier else rest

unfoldable pub target_tier : TableKey → ℕ → List ValueTable → ℕ
target_tier key len ts = elim (first_tier key len 0 ts) [ some tier ↦ tier | none ↦ length ts - 1 ]

module _ (codecs : Codecs) where
  -- The bytes to write, with whether they are compressed: only if the value is over the threshold and
  -- gets shorter
  unfoldable pub compressed_value : Compress → Bytes → Bytes × Bool
  compressed_value z value =
      let cvalue = compress codecs z value in
      if ltb z.threshold (length value) && ltb (length cvalue) (length value)
      then (cvalue, true)
      else (value, false)

  -- `Column::compress`, with the `unwrap_or` of its callers
  unfoldable pub compress_for : TablesRef → TableKey → Bytes → (Bytes × Bool) × ℕ
  compress_for ts key value =
      let (bytes, compressed) = compressed_value ts.compression value in
      ((bytes, compressed), target_tier key (length bytes) ts.tables)

  unfoldable pub plain_value :
      Compress → ℕ → Option (Bytes × Bool × ℕ) → Result (Option (ℕ × Bytes))
  plain_value z tier none = ok none
  plain_value z tier (some (value, compressed, rc)) = do
    plain ← if compressed then decompress codecs z value else ok value
    ok (some (tier, plain))

  module _ (uninit : Memory) (fuel : ℕ) where
    unfoldable pub get_value :
        {L : Type 0}
        → ⦃log_query : LogQuery L⦄ → TableKeyQuery
        → Address
        → TablesRef
        → L
        → Result (Option (ℕ × Bytes))
    get_value key address ts log = do
      t ← table_at (Address.size_tier address) ts.tables
      (found, k) ← query uninit fuel t key (Address.offset address) log
      plain_value ts.compression (Address.size_tier address) found

    -- What the statistics of an existing value read: its size and, if it is compressed, the value
    unfoldable pub read_compressed :
        ValueTable → TableKey → ℕ → Compress → Bool → LogWriter → Result (Unit {0})
    read_compressed t key offset z false log = ok tt
    read_compressed t key offset z true log = do
      found ← Parts.get uninit fuel t key offset log
      elim found [ none ↦ panic | some (value, flag) ↦ do plain ← decompress codecs z value; ok tt ]

    unfoldable pub read_stats :
        Bool → ValueTable → TableKey → ℕ → Compress → LogWriter → Result (Unit {0})
    read_stats false t key offset z log = ok tt
    read_stats true t key offset z log = do
      sized ← Parts.size uninit fuel t key offset log
      elim sized [
        | none ↦ ok tt
        | some (size, compressed) ↦ read_compressed t key offset z compressed log
      ]

    unfoldable pub replace_value :
        TableKey
        → TablesRef
        → Address
        → Bytes
        → Bool
        → LogWriter
        → Result ((Option PlanOutcome × Option Address) × List ValueTable × LogWriter)
    replace_value key ts address val collect_stats log = do
      let tier = Address.size_tier address
      let ((cval, compressed), target) = compress_for ts key val
      t ← table_at tier ts.tables
      read ← read_stats collect_stats t key (Address.offset address) ts.compression log
      if tier == target
          then (do
            (t', log') ←
                write_replace_plan uninit fuel t (Address.offset address) key cval log compressed
            ok ((some PlanOutcome.written, none), set ts.tables tier t', log'))
          else (do
            (t', log') ← write_remove_plan uninit fuel (Address.offset address) t log
            let removed = set ts.tables tier t'
            target_table ← table_at target removed
            (new_offset, t'', log'') ←
                write_insert_plan uninit fuel target_table key cval log' compressed
            ok ((none, some (Address.new new_offset target)), set removed target t'', log''))

    unfoldable pub set_value :
        TableKey
        → TablesRef
        → Address
        → Bytes
        → Bool
        → LogWriter
        → Result ((Option PlanOutcome × Option Address) × List ValueTable × LogWriter)
    set_value key ts address val collect_stats log =
        if ts.ref_counted
        then (do
          t ← table_at (Address.size_tier address) ts.tables
          log' ← write_inc_ref uninit (Address.offset address) t log
          ok ((some PlanOutcome.written, none), ts.tables, log'))
        else if ts.preimage
        then ok ((some PlanOutcome.skipped, none), ts.tables, log)
        else replace_value key ts address val collect_stats log

    -- Whether the value is gone
    unfoldable pub delete_value :
        TablesRef → ValueTable → ℕ → LogWriter → Result (Bool × ValueTable × LogWriter)
    delete_value ts t offset log =
        if ts.ref_counted
        then (do
          (stays, t', log') ← write_dec_ref uninit fuel offset t log
          ok (not stays, t', log'))
        else (do (t', log') ← write_remove_plan uninit fuel offset t log; ok (true, t', log'))

    unfoldable pub write_existing_value_plan :
        TableKey
        → TablesRef
        → Address
        → Option Bytes
        → LogWriter
        → Bool
        → Result ((Option PlanOutcome × Option Address) × List ValueTable × LogWriter)
    write_existing_value_plan key ts address (some val) log collect_stats =
        set_value key ts address val collect_stats log
    write_existing_value_plan key ts address none log collect_stats = do
      let tier = Address.size_tier address
      t ← table_at tier ts.tables
      read ← read_stats collect_stats t key (Address.offset address) ts.compression log
      (remove, t', log') ← delete_value ts t (Address.offset address) log
      ok (
        if remove then (none, some address) else (some PlanOutcome.written, none),
        set ts.tables tier t',
        log',
      )

    unfoldable pub write_new_value_plan :
        TableKey → TablesRef → Bytes → LogWriter → Result (Address × List ValueTable × LogWriter)
    write_new_value_plan key ts val log = do
      let ((cval, compressed), target) = compress_for ts key val
      t ← table_at target ts.tables
      (offset, t', log') ← write_insert_plan uninit fuel t key cval log compressed
      ok (Address.new offset target, set ts.tables target t', log')
