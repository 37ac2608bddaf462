-- ===== src/Db/Logs/Validated.antt =====
-- The first loop of `enact_logs`, in validation: over a record that was written by `flush_to_file` it ends,
-- and `reset` brings the reader back in front of the record.
use blockchain_parity_db.Prelude.{
  ℕ, zero, suc, ◌+◌, ◌-◌, ◌^◌, ◌<◌, ◌≡◌, sym, ap, ◌∙◌, [], ◌++◌, length, length-drop, length-append,
  arith,
}
use blockchain_parity_db.Bytes.{Bytes, to_le, length-to_le}
use blockchain_parity_db.Outcome.{ok, bind_ok, bind_bind, ◌>>=◌}
use blockchain_parity_db.Log.Overlay.{LogChange}
use blockchain_parity_db.Log.Reader.{
  Crc32, LogReader, LogAction, begin_record, insert_index, insert_value, drop_table, end_record,
  next, reset,
}
use blockchain_parity_db.Log.Reader.Stands.{Stands}
use blockchain_parity_db.Log.Record.{record_body, flush_to_file, flushed_bytes}
use blockchain_parity_db.Log.Record.Items.{Item, items, Fits}
use blockchain_parity_db.Db.Enact.{Handlers, enact_action, enact_loop, enact_record}
use blockchain_parity_db.Db.Enact.Replay.{All, Enacts}
use blockchain_parity_db.Db.Enact.RoundTrip.{enact_record-behind}
use blockchain_parity_db.Db.Logs.{Validators, validate_action, validate_loop}

-- Validators as handlers that leave the tables as they are
abbrev pub checking : {S : Type 0} → Validators S → Handlers S
checking v = record {
  enact_index = λ table index s r. v.validate_index table index s r >>= λ r'. ok (s, r');
  enact_value = λ table index s r. v.validate_value table index s r >>= λ r'. ok (s, r');
  drop_index = λ table id s. ok s;
}

-- The validators read the payload that an action has.
abbrev pub Checks : {S : Type 0} → Validators S → ℕ → Item → Type 0
Checks v = Enacts (checking v) (λ x s. s)

module _ ⦃crc : Crc32⦄ {S : Type 0} (h : Handlers S) (v : Validators S) where
  -- An action that the second loop gets past, with the rest of it, is one that the first does.
  action_ok :
      (action : LogAction) (fuel : ℕ) (s : S) (r : LogReader) (out : S × LogReader)
      → ((r₁ : LogReader)
          → enact_loop (checking v) fuel s r₁ ≡ ok out
          → validate_loop h v fuel s r₁ ≡ ok (out.1))
      → enact_action (checking v) action (enact_loop (checking v) fuel) s r ≡ ok out
      → validate_action h v action (validate_loop h v fuel s) s r ≡ ok (out.1)
  unfolding enact_action validate_action
  action_ok begin_record fuel s r out loop e = cc
  action_ok end_record fuel s r out loop e = let same : (s, r) ≡ out = cc in ap (λ x. ok (x.1)) same
  action_ok (insert_index table index) fuel s r out loop e =
      let read = v.validate_index table index s r in
      let (r₁, e₁, e₂) =
        bind_ok read (λ r₁. enact_loop (checking v) fuel s r₁)
          (sym (bind_bind read (λ r'. ok (s, r')) (λ x. enact_loop (checking v) fuel (x.0) (x.1)))
            ∙ e) in
      ap (λ z. z >>= validate_loop h v fuel s) e₁ ∙ loop r₁ e₂
  action_ok (insert_value table index) fuel s r out loop e =
      let read = v.validate_value table index s r in
      let (r₁, e₁, e₂) =
        bind_ok read (λ r₁. enact_loop (checking v) fuel s r₁)
          (sym (bind_bind read (λ r'. ok (s, r')) (λ x. enact_loop (checking v) fuel (x.0) (x.1)))
            ∙ e) in
      ap (λ z. z >>= validate_loop h v fuel s) e₁ ∙ loop r₁ e₂
  action_ok (drop_table table) fuel s r out loop e = loop r e

  loop_ok :
      (fuel : ℕ) (s : S) (r : LogReader) (out : S × LogReader)
      → enact_loop (checking v) fuel s r ≡ ok out
      → validate_loop h v fuel s r ≡ ok (out.1)
  unfolding enact_loop validate_loop
  loop_ok zero s r out e = cc
  loop_ok (suc fuel) s r out e =
      let ((action, r₁), e₁, e₂) =
        bind_ok (next r)
          (λ (x : LogAction × LogReader).
            enact_action (checking v) (x.0) (enact_loop (checking v) fuel) s (x.1))
          e in
      ap
        (λ z. z >>= λ (x : LogAction × LogReader).
          validate_action h v (x.0) (validate_loop h v fuel s) s (x.1))
        e₁
      ∙ action_ok action fuel s r₁ out (λ r₂ e'. loop_ok fuel s r₂ out e') e₂

  flushed_length : (log : LogChange) → length (flush_to_file log) ≡ flushed_bytes log
  unfolding flush_to_file flushed_bytes
  flushed_length log =
      let sum = crc.checksum (record_body log) in
      omega (arith, length-append (record_body log) (to_le 4 sum), length-to_le 4 sum)

  reset-Stands :
      (log : LogChange) (rest : Bytes) (r e : LogReader)
      → Stands r (flush_to_file log ++ rest)
      → Stands e rest
      → r.read_bytes ≡ 0
      → e.read_bytes ≡ r.read_bytes + flushed_bytes log
      → e.file ≡ r.file
      → Stands (reset e) (flush_to_file log ++ rest)
  unfolding reset
  reset-Stands log rest r e before behind none_read counted same_file =
      let back : e.position - e.read_bytes ≡ r.position = omega (
        arith,
        before.bound,
        behind.bound,
        none_read,
        counted,
        ap length same_file,
        ap length before.ahead,
        ap length behind.ahead,
        length-drop r.position r.file,
        length-drop e.position e.file,
        length-append (flush_to_file log) rest,
        flushed_length log,
      ) in
      record {
        bound = omega (arith, back, before.bound, ap length same_file);
        ahead = rw (back, same_file) before.ahead;
      }

  -- Behind the beginning of a record that `flush_to_file` wrote, the first loop ends, and the reader that
  -- is reset stands in front of the record again.
  pub validate_loop-flush_to_file :
      (log : LogChange) (rest : Bytes) (s : S) (r : LogReader)
      → log.record_id < 2 ^ 64
      → All Fits (items log)
      → All (Checks v log.record_id) (items log)
      → r.crc32 ≡ []
      → r.read_bytes ≡ 0
      → Stands r (flush_to_file log ++ rest)
      → (start : LogReader) × (e : LogReader) × (next r ≡ ok (begin_record, start))
        × (start.record_id ≡ log.record_id)
        × (validate_loop h v (length start.file + 1) s start ≡ ok e)
        × Stands (reset e) (flush_to_file log ++ rest)
  unfolding enact_record
  validate_loop-flush_to_file log rest s r id_fits fits checks fresh none_read st =
      let (start, e, begins, named, replays, behind, counted, same_file) =
        enact_record-behind (checking v) (λ x s. s) log rest s id_fits fits checks fresh st in
      (
        start,
        e,
        begins,
        named,
        loop_ok (length start.file + 1) s start _ replays,
        reset-Stands log rest r e st behind none_read counted same_file,
      )
