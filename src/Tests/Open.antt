-- ===== src/Tests/Open.antt =====
-- The tiers of a column that is new.
use blockchain_parity_db.Prelude.{ℕ, ◌≡◌, refl, true, Option, none, List, [], arith}
use blockchain_parity_db.Bytes.{Bytes}
use blockchain_parity_db.Outcome.{Result, ok, err, panic, stuck}
use blockchain_parity_db.Index.TableId
use blockchain_parity_db.Value.Table.{ValueTable}
use blockchain_parity_db.Value.Table.Open.{
  open_value_table, open_sized, blank_table, with_header, preallocate,
}
use blockchain_parity_db.Column.Stored.{IsTiers}
use blockchain_parity_db.Column.Open.{size_tiers, open_tables, open_tables-IsTiers}

abbrev tables_of : Result (List ValueTable) → List ValueTable
tables_of (ok ts) = ts
tables_of (err why) = []
tables_of panic = []
tables_of stuck = []

abbrev no_files : ℕ → Option Bytes
no_files tier = none

abbrev new_tables : List ValueTable
new_tables = tables_of (open_tables size_tiers 0 0 true 8 no_files)

new_tables-runs : open_tables size_tiers 0 0 true 8 no_files ≡ ok new_tables
unfolding open_tables open_value_table open_sized blank_table with_header preallocate TableId.new
new_tables-runs = refl

open_tables-IsTiers_example : IsTiers new_tables
open_tables-IsTiers_example =
    open_tables-IsTiers 0 true 8 no_files new_tables (omega arith) new_tables-runs
