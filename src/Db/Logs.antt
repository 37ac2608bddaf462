-- ===== src/Db/Logs.antt =====
-- src/db.rs: `enact_logs`, which takes the next record from the log and applies it, and the functions
-- around it. An error ends a call; what it has changed by then is not part of the outcome.
pub mod Validated
pub mod Replayed
use blockchain_parity_db.Prelude.{
  ℕ, zero, suc, ◌+◌, ◌-◌, ◌%◌, ◌^◌, Bool, true, false, Option, none, some, length, ltb, ◌==◌,
  if◌then◌else◌,
}
use blockchain_parity_db.Outcome.{Error, Result, ok, err, panic, stuck, corruption, ◌>>=◌}
use blockchain_parity_db.Index.TableId.{TableId}
use blockchain_parity_db.Log.Reader.{
  Crc32, LogReader, LogAction, begin_record, insert_index, insert_value, drop_table, end_record,
  next, reset,
}
use blockchain_parity_db.Log.Files.{Log, clear_replay_logs, end_read}
use blockchain_parity_db.Log.Files.Queues.{
  flush_one, replay_next, clean_logs, num_dirty_logs, put_back, read_next,
}
use blockchain_parity_db.Db.Enact.{Handlers, enact_record}

-- The columns' `validate_plan`
pub record Validators (S : Type 0) : Type 0 where
  pub validate_index : TableId → ℕ → S → LogReader → Result LogReader
  pub validate_value : TableId → ℕ → S → LogReader → Result LogReader

-- Of `DbInner`, what these functions use. `enacted_bytes` is what has been taken from the log queue;
-- the 64-bit sum that the source keeps is the bytes put there less these.
pub record Db (S : Type 0) : Type 0 where
  pub log : Log
  pub tables : S
  pub last_enacted : ℕ
  pub enacted_bytes : ℕ

abbrev pub keep_logs : ℕ
keep_logs = 16

module _ {S : Type 0} where
  -- `clear_replay_logs`, and the end of the replay
  unfoldable pub give_up : Db S → Bool × Db S
  give_up d = (false, record d { log = clear_replay_logs d.log })

  -- `flush_logs`, without the signals to other threads
  unfoldable pub flush_logs : ℕ → Db S → Option (Bool × Db S)
  flush_logs min_log_size d = elim (flush_one min_log_size d.log) [
    | none ↦ none
    | some ((flush_next, read_next, cleanup_next), log) ↦ some (flush_next, record d { log = log })
  ]

  unfoldable pub clean_some : ℕ → Db S → Result (Bool × Db S)
  clean_some n d = do (more, log) ← clean_logs n d.log; ok (more, record d { log = log })

  -- `DbInner::clean_logs`
  unfoldable pub clean_db_logs : Bool → Db S → Result (Bool × Db S)
  clean_db_logs sync_data d =
      let keep = if sync_data then 0 else keep_logs in
      if ltb keep (num_dirty_logs d.log)
      then clean_some (num_dirty_logs d.log - keep) d
      else ok (false, d)

  -- `clean_all_logs`
  unfoldable pub clean_all_logs : Db S → Result (Bool × Db S)
  clean_all_logs d = clean_some (num_dirty_logs d.log) d

  module _ ⦃crc : Crc32⦄ (h : Handlers S) (v : Validators S) where
    unfoldable pub validate_action :
        LogAction → (LogReader → Result LogReader) → S → LogReader → Result LogReader
    validate_action begin_record loop s r = err (corruption "Unexpected log header")
    validate_action end_record loop s r = ok r
    validate_action (insert_index table index) loop s r = do
      r' ← v.validate_index table index s r
      loop r'
    validate_action (insert_value table index) loop s r = do
      r' ← v.validate_value table index s r
      loop r'
    validate_action (drop_table table) loop s r = loop r

    unfoldable pub validate_loop : ℕ → S → LogReader → Result LogReader
    validate_loop zero s r = stuck
    validate_loop (suc fuel) s r = do
      (action, r') ← next r
      validate_action action (validate_loop fuel s) s r'

    -- The second loop, `end_read`, and the log queue, which a validation does not count down
    unfoldable pub apply_record : Bool → Db S → Log → LogReader → Result (Bool × Db S)
    apply_record mode d log r = do
      (tables, e) ← enact_record h d.tables r
      ok (
        true,
        record {
          log = end_read e.cleared e.record_id (put_back e log);
          tables = tables;
          last_enacted = e.record_id;
          enacted_bytes = if mode then d.enacted_bytes else d.enacted_bytes + e.read_bytes;
        },
      )

    -- `reset` and `next` bring the reader behind the head of the record again.
    unfoldable pub after_validation : Db S → Log → Result LogReader → Result (Bool × Db S)
    after_validation d log (ok r) = do (action, r') ← next (reset r); apply_record true d log r'
    after_validation d log (err e) = ok (give_up (record d { log = log }))
    after_validation d log panic = panic
    after_validation d log stuck = stuck

    unfoldable pub validate_record : Db S → Log → LogReader → Result (Bool × Db S)
    validate_record d log r =
        if r.record_id == (d.last_enacted + 1) % 2 ^ 64
        then after_validation d log (validate_loop (length r.file + 1) d.tables r)
        else ok (give_up (record d { log = log }))

    unfoldable pub after_read : Bool → Db S → Result (Option LogReader × Log) → Result (Bool × Db S)
    after_read mode d (ok (some r, log)) =
        if mode then validate_record d log r else apply_record mode d log r
    after_read mode d (ok (none, log)) = ok (false, record d { log = log })
    after_read mode d (err (Error.corruption what)) =
        if mode then ok (give_up d) else err (corruption what)
    after_read mode d (err e) = err e
    after_read mode d panic = panic
    after_read mode d stuck = stuck

    unfoldable pub enact_logs : Bool → Db S → Result (Bool × Db S)
    enact_logs mode d = after_read mode d (read_next mode d.log)
