-- ===== src/Db/Enact.antt =====
-- src/db.rs, the loop of `enact_logs` over the actions of one record. What an action does to the
-- tables is left to `Handlers`: the columns' `enact_plan` and `drop_index`.
pub mod Replay
pub mod RoundTrip
use blockchain_parity_db.Prelude.{ℕ, zero, suc, ◌+◌, length}
use blockchain_parity_db.Outcome.{Result, ok, err, stuck, corruption, ◌>>=◌}
use blockchain_parity_db.Index.TableId.{TableId}
use blockchain_parity_db.Log.Reader.{
  Crc32, LogReader, LogAction, begin_record, insert_index, insert_value, drop_table, end_record,
  next,
}

-- The tables `S`, and how an action changes them: an insertion reads its payload from the log.
pub record Handlers (S : Type 0) : Type 0 where
  pub enact_index : TableId → ℕ → S → LogReader → Result (S × LogReader)
  pub enact_value : TableId → ℕ → S → LogReader → Result (S × LogReader)
  pub drop_index : TableId → ℕ → S → Result S

module _ {S : Type 0} (h : Handlers S) where
  -- One action, with the rest of the loop as `loop`
  unfoldable pub enact_action :
      LogAction → (S → LogReader → Result (S × LogReader)) → S → LogReader → Result (S × LogReader)
  enact_action begin_record loop s r = err (corruption "Bad log record")
  enact_action end_record loop s r = ok (s, r)
  enact_action (insert_index table index) loop s r = do
    (s', r') ← h.enact_index table index s r
    loop s' r'
  enact_action (insert_value table index) loop s r = do
    (s', r') ← h.enact_value table index s r
    loop s' r'
  enact_action (drop_table table) loop s r = do s' ← h.drop_index table r.record_id s; loop s' r

  module _ ⦃crc : Crc32⦄ where
    unfoldable pub enact_loop : ℕ → S → LogReader → Result (S × LogReader)
    enact_loop zero s r = stuck
    enact_loop (suc fuel) s r = do (action, r') ← next r; enact_action action (enact_loop fuel) s r'

    -- Each round reads a byte at least.
    unfoldable pub enact_record : S → LogReader → Result (S × LogReader)
    enact_record s r = enact_loop (length r.file + 1) s r
