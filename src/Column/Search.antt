-- ===== src/Column/Search.antt =====
-- src/column.rs: the search for a key in the index tables of a column. An index entry only has a part
-- of the key, so that each entry is compared with the key in its value table.
use blockchain_parity_db.Prelude.{
  ℕ, zero, suc, ◌+◌, ◌%◌, ◌^◌, Option, none, some, List, [], ◌∷◌, length, if◌then◌else◌,
}
use blockchain_parity_db.Bytes.{Bytes, Memory}
use blockchain_parity_db.Outcome.{Result, ok, stuck, ◌>>=◌}
use blockchain_parity_db.Index.TableId
use blockchain_parity_db.Index.Address
use blockchain_parity_db.Index.Address.{Address}
use blockchain_parity_db.Index.Entry
use blockchain_parity_db.Index.Entry.{Entry}
use blockchain_parity_db.Index.Table
use blockchain_parity_db.Index.Table.{Key, IndexTable}
use blockchain_parity_db.Log.Overlay.{LogQuery, LogWriter, LogWriter_query}
use blockchain_parity_db.Value.Key.{partial, check}
use blockchain_parity_db.Value.Table.{ValueTable}
use blockchain_parity_db.Value.Parts.{has_key_at}
use blockchain_parity_db.Column.Compression.{Codecs}
use blockchain_parity_db.Column.Values.{get_value}
use blockchain_parity_db.Column.{TablesRef, HashColumn, as_ref, table_at}

-- The table, the place in its chunk and the address of a key
pub record Existing : Type 0 where
  pub table : IndexTable
  pub sub_index : ℕ
  pub address : Address

-- `v.len() as u32`
abbrev pub len_of : Option Bytes → Option ℕ
len_of none = none
len_of (some value) = some (length value % 2 ^ 32)

module _ (codecs : Codecs) (uninit : Memory) (fuel : ℕ) where
  module _ {L : Type 0} ⦃log_query : LogQuery L⦄ where
    -- `while !entry.is_empty()`, from an entry on
    unfoldable pub value_loop :
        ℕ → Key → IndexTable → TablesRef → L → Entry × ℕ → Result (Option (ℕ × Bytes))
    value_loop zero key index ts log (entry, sub_index) = stuck
    value_loop (suc tries) key index ts log (entry, sub_index) =
        let next = value_loop tries key index ts log (Table.get index key (sub_index + 1) log) in
        if Entry.is_empty entry then ok none else (do
          value ←
              get_value codecs uninit fuel (check (partial key))
                (Entry.address entry (TableId.index_bits index.id)) ts log
          elim value [ some result ↦ ok (some result) | none ↦ next ])

    unfoldable pub get_in_index : ℕ → Key → IndexTable → TablesRef → L → Result (Option (ℕ × Bytes))
    get_in_index tries key index ts log =
        value_loop tries key index ts log (Table.get index key 0 log)

    -- The index, then the older ones
    unfoldable pub get_in_queue : ℕ → Key → List IndexTable → TablesRef → L → Result (Option Bytes)
    get_in_queue tries key [] ts log = ok none
    get_in_queue tries key (index ∷ queue) ts log = do
      found ← get_in_index tries key index ts log
      elim found [
        | some (tier, value) ↦ ok (some value)
        | none ↦ get_in_queue tries key queue ts log
      ]

    -- `HashColumn::get`
    unfoldable pub get : ℕ → HashColumn → Key → L → Result (Option Bytes)
    get tries c key log = get_in_queue tries key (c.index ∷ c.queue) (as_ref c) log

    unfoldable pub get_size : ℕ → HashColumn → Key → L → Result (Option ℕ)
    get_size tries c key log = do value ← get tries c key log; ok (len_of value)

module _ (uninit : Memory) (fuel : ℕ) where
  unfoldable pub search_loop :
      ℕ → Key → IndexTable → List ValueTable → LogWriter → Entry × ℕ → Result (Option Existing)
  search_loop zero key index tables log (entry, sub_index) = stuck
  search_loop (suc tries) key index tables log (entry, sub_index) =
      let next = search_loop tries key index tables log (Table.get index key (sub_index + 1) log) in
      let address = Entry.address entry (TableId.index_bits index.id) in
      if Entry.is_empty entry then ok none else (do
        t ← table_at (Address.size_tier address) tables
        there ← has_key_at uninit fuel t (Address.offset address) (partial key) log
        if there
            then ok (some (record { table = index; sub_index = sub_index; address = address }))
            else next)

  unfoldable pub search_index :
      ℕ → Key → IndexTable → List ValueTable → LogWriter → Result (Option Existing)
  search_index tries key index tables log =
      search_loop tries key index tables log (Table.get index key 0 log)

  -- `search_all_indexes`: the table first, then the queue
  unfoldable pub search_queue :
      ℕ → Key → List IndexTable → List ValueTable → LogWriter → Result (Option Existing)
  search_queue tries key [] tables log = ok none
  search_queue tries key (index ∷ queue) tables log = do
    found ← search_index tries key index tables log
    elim found [
      | some existing ↦ ok (some existing)
      | none ↦ search_queue tries key queue tables log
    ]

  unfoldable pub search_all_indexes : ℕ → Key → HashColumn → LogWriter → Result (Option Existing)
  search_all_indexes tries key c log = search_queue tries key (c.index ∷ c.queue) c.value log
