-- ===== src/Db/Logs/Replayed.antt =====
-- `enact_logs`, in validation or not, on a log whose file holds a record that was written by `flush_to_file`.
use blockchain_parity_db.Prelude.{
  ◌+◌, ◌%◌, ◌^◌, ◌<◌, ◌≡◌, ◌==◌, ==_iff, if◌then◌else◌, refl, sym, ap, ◌∙◌, Bool, true, false,
  Option, some, [], ◌++◌, arith,
}
use blockchain_parity_db.Bytes.{Bytes}
use blockchain_parity_db.Outcome.{Result, ok, ◌>>=◌}
use blockchain_parity_db.Log.Overlay.{LogChange}
use blockchain_parity_db.Log.Reader.{Crc32, LogReader, LogAction, new, next, reset}
use blockchain_parity_db.Log.Reader.Stands.{Stands}
use blockchain_parity_db.Log.Record.{flush_to_file, flushed_bytes}
use blockchain_parity_db.Log.Record.Items.{Item, items, Fits}
use blockchain_parity_db.Log.Files.{Log, Numbered, reading, end_read}
use blockchain_parity_db.Log.Files.Queues.{read_next, first_action, put_back}
use blockchain_parity_db.Db.Enact.{Handlers, enact_record}
use blockchain_parity_db.Db.Enact.Replay.{All, Enacts, apply_all}
use blockchain_parity_db.Db.Enact.RoundTrip.{enact_record-flush_to_file, enact_record-behind}
use blockchain_parity_db.Db.Logs.{
  Validators, Db, apply_record, after_validation, validate_record, after_read, enact_logs,
}
use blockchain_parity_db.Db.Logs.Validated.{Checks, validate_loop-flush_to_file}

module _ ⦃crc : Crc32⦄ where
  read_next-reading :
      (v : Bool) (s : Log) (f : Numbered)
      → s.reading_state ≡ reading
      → s.reading ≡ some f
      → read_next v s ≡ first_action (next (new f.file.content f.file.position v)) s
  unfolding read_next
  read_next-reading v s f r e = go _ refl
    where
      go :
          (u : Result (Option LogReader × Log))
          → first_action (next (new f.file.content f.file.position v)) s ≡ u
          → read_next v s ≡ u
      go u p = rw (r, e, read_next) p

  -- The state after a record, `e` being the reader behind it
  abbrev enacted : {S : Type 0} → Bool → Db S → S → LogReader → Db S
  enacted mode d tables e = record {
    log = end_read e.cleared e.record_id (put_back e d.log);
    tables = tables;
    last_enacted = e.record_id;
    enacted_bytes = if mode then d.enacted_bytes else d.enacted_bytes + e.read_bytes;
  }

  apply_record-enact_record :
      {S : Type 0} (h : Handlers S) (v : Validators S) (mode : Bool) (d : Db S) (r e : LogReader)
      {tables : S}
      → enact_record h d.tables r ≡ ok (tables, e)
      → apply_record h v mode d d.log r ≡ ok (true, enacted mode d tables e)
  unfolding apply_record
  apply_record-enact_record h v mode d r e p =
      ap (λ x. x >>= λ (y : _ × LogReader). ok (true, enacted mode d (y.0) (y.1))) p

  module _ {S : Type 0} (h : Handlers S) (v : Validators S) (apply : Item → S → S) (log : LogChange)
      (rest : Bytes) (d : Db S) (f : Numbered) (id_fits : log.record_id < 2 ^ 64)
      (fits : All Fits (items log)) (does : All (Enacts h apply log.record_id) (items log))
      (state : d.log.reading_state ≡ reading) (there : d.log.reading ≡ some f) where
    -- The reader with which the second loop begins
    record Begun (mode : Bool) : Type 0 where
      r : LogReader
      fresh : r.crc32 ≡ []
      none_read : r.read_bytes ≡ 0
      ahead : Stands r (flush_to_file log ++ rest)
      goes_on :
          enact_logs h v mode d
          ≡ (next r >>= λ (x : LogAction × LogReader). apply_record h v mode d d.log (x.1))

    begun_running :
        Stands (new f.file.content f.file.position false) (flush_to_file log ++ rest) → Begun false
    unfolding enact_logs after_read first_action new
    begun_running st =
        let (start, e, begins, named, replays, behind, counted, same_file) =
          enact_record-behind h apply log rest d.tables id_fits fits does refl st in
        record {
          r = new f.file.content f.file.position false;
          fresh = refl;
          none_read = refl;
          ahead = st;
          goes_on =
              ap (after_read h v false d) (
                read_next-reading false d.log f state there ∙ ap (λ x. first_action x d.log) begins)
              ∙ ap (λ z. z >>= λ (x : LogAction × LogReader). apply_record h v false d d.log (x.1))
                  (sym begins);
        }

    begun_validating :
        log.record_id ≡ (d.last_enacted + 1) % 2 ^ 64
        → All (Checks v log.record_id) (items log)
        → Stands (new f.file.content f.file.position true) (flush_to_file log ++ rest)
        → Begun true
    unfolding enact_logs after_read first_action new validate_record after_validation reset
    begun_validating id_next checks st =
        let (start, e, begins, named, validates, behind) =
          validate_loop-flush_to_file h v log rest d.tables _ id_fits fits checks refl refl st in
        let is_next : start.record_id == (d.last_enacted + 1) % 2 ^ 64 ≡ true =
          (==_iff start.record_id ((d.last_enacted + 1) % 2 ^ 64)).1 (named ∙ id_next) in
        record {
          r = reset e;
          fresh = refl;
          none_read = refl;
          ahead = behind;
          goes_on =
              ap (after_read h v true d)
                (read_next-reading true d.log f state there ∙ ap (λ x. first_action x d.log) begins)
              ∙ rw (is_next, validates) refl;
        }

    begun :
        (mode : Bool)
        → (mode ≡ true → log.record_id ≡ (d.last_enacted + 1) % 2 ^ 64)
        → (mode ≡ true → All (Checks v log.record_id) (items log))
        → Stands (new f.file.content f.file.position mode) (flush_to_file log ++ rest)
        → Begun mode
    begun true id_next checks st = begun_validating (id_next refl) (checks refl) st
    begun false id_next checks st = begun_running st

  -- `enact_logs` applies the next record of the file that is read: the tables change by exactly the
  -- record's actions in their order, its id is the last enacted, and the file stands behind the record.
  -- While the database runs, the record's bytes are taken from the queue; in validation they are not.
  -- Ids, places and masks fit their words, and the handlers read the payload that an action has; in
  -- validation the id is the next one, and the validators, too, read the payload.
  pub enact_logs-flush_to_file :
      {S : Type 0} (h : Handlers S) (v : Validators S) (apply : Item → S → S) (log : LogChange)
      (rest : Bytes) (d : Db S) (f : Numbered) (mode : Bool)
      → log.record_id < 2 ^ 64
      → All Fits (items log)
      → All (Enacts h apply log.record_id) (items log)
      → (mode ≡ true → log.record_id ≡ (d.last_enacted + 1) % 2 ^ 64)
      → (mode ≡ true → All (Checks v log.record_id) (items log))
      → d.log.reading_state ≡ reading
      → d.log.reading ≡ some f
      → Stands (new f.file.content f.file.position mode) (flush_to_file log ++ rest)
      → (d' : Db S) × (e : LogReader) × (enact_logs h v mode d ≡ ok (true, d'))
        × (d'.tables ≡ apply_all apply (items log) d.tables)
        × (d'.last_enacted ≡ log.record_id)
        × (d'.enacted_bytes
            ≡ (if mode then d.enacted_bytes else d.enacted_bytes + flushed_bytes log))
        × (d'.log ≡ end_read e.cleared log.record_id (put_back e d.log))
        × Stands e rest
  enact_logs-flush_to_file h v apply log rest d f mode id_fits fits does id_next checks state there
        st =
      let b = begun h v apply log rest d f id_fits fits does state there mode id_next checks st in
      let (start, e, begins, named, replays, ahead, same, counted, pages, values) =
        enact_record-flush_to_file h apply log rest d.tables id_fits fits does b.fresh b.ahead in
      (
        enacted mode d (apply_all apply (items log) d.tables) e,
        e,
        b.goes_on
            ∙ ap (λ z. z >>= λ (x : LogAction × LogReader). apply_record h v mode d d.log (x.1))
                begins
            ∙ apply_record-enact_record h v mode d start e replays,
        refl,
        same,
        ap (λ n. if mode then d.enacted_bytes else d.enacted_bytes + n)
            (omega (arith, counted, b.none_read)),
        ap (λ n. end_read e.cleared n (put_back e d.log)) same,
        ahead,
      )
