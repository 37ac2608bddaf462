-- ===== src/Tests/Files.antt =====
-- The log of a new database: a record ended in it, and read from it.
use blockchain_parity_db.Prelude.{
  ℕ, ◌+◌, ◌^◌, ◌<◌, ◌≡◌, refl, true, none, List, [], ◌∷◌, if◌then◌else◌, replicate, arith,
}
use blockchain_parity_db.Bytes.{Bytes, from_le, slice}
use blockchain_parity_db.HashMap
use blockchain_parity_db.Outcome.{ok}
use blockchain_parity_db.Log.Overlay.{
  IndexChange, ValueChange, LogWriter, at_table, overlays_with_index, overlays_value,
  writer_with_index, writer_value,
}
use blockchain_parity_db.Log.Reader.{Cleared}
use blockchain_parity_db.Log.Files.{
  Log, Replayable, idle, begin_record, activate, append_record, end_record, end_read,
  publish_change,
}
use blockchain_parity_db.Log.Files.Open.{
  open_log_file, push_log, open_files, log_with, open_logs, open_logs-IsOwned,
}
use blockchain_parity_db.Log.Files.Published.{
  listed, unless, Distinct, publish_change-query, end_read-query,
}
use blockchain_parity_db.Log.Files.Queues.Owned.{
  IsOwned, done, then_step, begins, ends, Steps-IsOwned,
}
use blockchain_parity_db.Tests.Data.{overlays, log, sum_crc}

abbrev pub new_log : Log
new_log = record {
  overlays = overlays;
  appending = none;
  reading = none;
  reading_state = idle;
  flushing = none;
  next_record_id = 1;
  dirty = true;
  log_pool = [];
  cleanup_queue = [];
  replay_queue = [];
  next_log_id = 0;
  dropped = [];
}

new_log-IsOwned : IsOwned new_log
new_log-IsOwned = record { once = λ i. omega arith; fresh = λ i h. omega arith }

-- After `begin_record`, and after `end_record`
abbrev begun : Log
begun = (begin_record new_log).1

abbrev ended : Log
ended = (append_record log (activate begun)).1

ends_well : end_record log begun ≡ ok (append_record log (activate begun))
unfolding end_record begin_record
ends_well = refl

small_id : begun.next_log_id + 1 < 2 ^ 32
unfolding begin_record
small_id = omega arith

Steps-IsOwned_example : IsOwned ended
Steps-IsOwned_example =
    Steps-IsOwned (then_step (then_step done begins) (ends log small_id ends_well)) new_log-IsOwned

abbrev writer : LogWriter
writer = record { overlays = overlays; log = log }

once : Distinct log.local_index
unfolding HashMap.get
once = (refl, tt)

publish_change-query_example :
    ((t i : ℕ)
      → overlays_with_index (publish_change log overlays) t i ≡ writer_with_index writer t i)
    × ((t i : ℕ) (dest : Bytes)
        → overlays_value (publish_change log overlays) t i dest ≡ writer_value writer t i dest)
publish_change-query_example = publish_change-query writer once tt

-- The page of the record waits to be applied.
abbrev waiting : Log
waiting = record new_log { overlays = record overlays { index = log.local_index } }

abbrev pages : Cleared
pages = record { index = (16, 5) ∷ []; values = [] }

end_read-query_example :
    (at_table (end_read pages 1 waiting).overlays.index 16 5 ≡ (
      if listed 16 5 pages.index
      then unless (λ (x : IndexChange). x.record_id) 1 (at_table waiting.overlays.index 16 5)
      else at_table waiting.overlays.index 16 5))
    × (at_table (end_read pages 1 waiting).overlays.value 16 5 ≡ (
        if listed 16 5 pages.values
        then unless (λ (x : ValueChange). x.record_id) 1 (at_table waiting.overlays.value 16 5)
        else at_table waiting.overlays.value 16 5))
end_read-query_example = end_read-query pages 1 waiting 16 5 once

-- Two log files that records were left in, and an empty one
abbrev directory : List (ℕ × Bytes)
directory = (2, 1 ∷ replicate 8 0) ∷ (1, []) ∷ (0, 1 ∷ replicate 8 0) ∷ []

abbrev replay_of : ℕ → Replayable
replay_of id = record {
  id = id;
  record_id = 0;
  file = record { content = 1 ∷ replicate 8 0; position = 0 };
}

abbrev opened : Log
opened = log_with (replay_of 2 ∷ replay_of 0 ∷ [])

opens : open_logs directory ≡ ok opened
unfolding open_logs open_files open_log_file push_log from_le slice
opens = refl

open_logs-IsOwned_example : IsOwned opened
open_logs-IsOwned_example =
    open_logs-IsOwned directory opened (λ i. ground arith) (λ i h. ground arith) opens
