-- ===== src/Log/Files/Queues.antt =====
-- src/log.rs: how `Log` moves its files from one queue to the next, and takes a reader of one.
pub mod Held
pub mod Owned
use blockchain_parity_db.Prelude.{
  ℕ, zero, suc, ◌+◌, ◌-◌, ◌%◌, ◌^◌, Bool, true, false, not, ◌&&◌, Option, none, some, List, [], ◌∷◌,
  ◌++◌, length, take, drop, ltb, leb, ◌==◌, if◌then◌else◌,
}
use blockchain_parity_db.Bytes.{Bytes, from_le, slice}
use blockchain_parity_db.Outcome.{
  Error, Result, ok, err, panic, stuck, corruption, io, unexpected_eof, assert, ◌>>=◌,
}
use blockchain_parity_db.Log.Reader.{Crc32, LogReader, LogAction, new, next}
use blockchain_parity_db.Log.Files.{
  LogFile, empty_file, rewind, Appending, Numbered, Replayable, ReadingState, reading, idle, Log,
  max_log_pool_size, opt_list, ids, replay_ids,
}

-- The file that was read goes to the clean-up queue.
unfoldable pub retire : Log → Log
retire s = elim s.reading [
  | none ↦ s
  | some f ↦ record s {
    cleanup_queue = s.cleanup_queue ++ f ∷ [];
    reading = none;
    reading_state = idle;
  }
]

-- The file that was flushed is the one to read.
unfoldable pub start_reading : Log → Log
start_reading s = elim s.flushing [
  | none ↦ s
  | some f ↦ record s {
    reading = some (record { id = f.id; file = rewind f.file });
    reading_state = reading;
    flushing = none;
  }
]

unfoldable pub is_some {ℓ} : {A : Type ℓ} → Option A → Bool
is_some none = false
is_some (some a) = true

-- `map_or(0, |r| r.size)`
unfoldable pub current_size : Option Appending → ℕ
current_size none = 0
current_size (some a) = a.size

unfoldable pub to_flush : Option Appending → Option Numbered
to_flush none = none
to_flush (some a) = some (record { id = a.id; file = a.file })

-- The file that is appended to is the next to flush, if it is large enough.
unfoldable pub start_flushing : ℕ → Log → Log
start_flushing min_size s =
    if ltb 0 (current_size s.appending) && ltb min_size (current_size s.appending)
    then record s { flushing = to_flush s.appending; appending = none }
    else s

-- `flush_one`, once the reader is done if a file waits in `flushing`: it waits as long as
-- `reading_state` is `Reading`, which is `none` here.
unfoldable pub flush_rest : ℕ → Bool → Bool → Log → (Bool × Bool × Bool) × Log
flush_rest min_size read_next cleanup s =
    let s' = start_flushing min_size s in ((is_some s'.flushing, read_next, cleanup), s')

unfoldable pub flush_one : ℕ → Log → Option ((Bool × Bool × Bool) × Log)
flush_one min_size s = elim s.flushing [
  | none ↦ some (flush_rest min_size false false s)
  | some f ↦ elim s.reading_state [
    | reading ↦ none
    | idle ↦ some (flush_rest min_size true (is_some s.reading) (start_reading (retire s)))
  ]
]

-- The first file of the replay queue is the one to read.
unfoldable pub start_replay : List Replayable → Log → Option ℕ × Log
start_replay [] s = (none, record s { reading_state = idle })
start_replay (f ∷ fs) s = (
  some f.id,
  record s {
    reading = some (record { id = f.id; file = f.file });
    reading_state = reading;
    replay_queue = fs;
  },
)

-- Both outcomes set `reading_state`, whatever the file that was read leaves there.
unfoldable pub replay_next : Log → Option ℕ × Log
replay_next s = start_replay s.replay_queue (retire s)

-- `sort_by_key(|(id, _)| *id)`, a stable sort
unfoldable pub insert_by_id : Numbered → List Numbered → List Numbered
insert_by_id f [] = f ∷ []
insert_by_id f (g ∷ gs) =
    let rest = insert_by_id f gs in if leb f.id g.id then f ∷ (g ∷ gs) else g ∷ rest

unfoldable pub sort_by_id : List Numbered → List Numbered
sort_by_id [] = []
sort_by_id (f ∷ fs) = insert_by_id f (sort_by_id fs)

-- `seek(Start(0))` and `set_len(0)`
unfoldable pub cut : List Numbered → List Numbered
cut [] = []
cut (f ∷ fs) = record { id = f.id; file = empty_file } ∷ cut fs

-- `drain(0..count)` panics if there are fewer.
unfoldable pub clean_logs : ℕ → Log → Result (Bool × Log)
clean_logs count s =
    let pool = sort_by_id (s.log_pool ++ cut (take count s.cleanup_queue)) in
    let left = drop count s.cleanup_queue in
    if ltb (length s.cleanup_queue) count
    then panic
    else ok (
      ltb 0 (length left),
      record s {
        cleanup_queue = left;
        log_pool = take max_log_pool_size pool;
        dropped = s.dropped ++ ids (drop max_log_pool_size pool);
      },
    )

unfoldable pub num_dirty_logs : Log → ℕ
num_dirty_logs s = length s.cleanup_queue

-- `kill_logs`
unfoldable pub kill_logs : Log → Log
kill_logs s = record s {
  log_pool = [];
  reading = none;
  dropped = s.dropped ++ (ids s.log_pool ++ ids (opt_list s.reading));
}

-- The reader is dropped: the file that is read stands where the reader stopped.
unfoldable pub put_back : LogReader → Log → Log
put_back r s = elim s.reading [
  | none ↦ s
  | some f ↦ record s {
    reading =
        some (record { id = f.id; file = record { content = r.file; position = r.position } });
  }
]

module _ ⦃crc : Crc32⦄ where
  -- What `read_next` makes of the first action; the file that is read ends there, too.
  unfoldable pub first_action :
      Result (LogAction × LogReader) → Log → Result (Option LogReader × Log)
  first_action (ok (LogAction.begin_record, r)) s = ok (some r, s)
  first_action (ok (LogAction.insert_index table index, r)) s =
      err (corruption "Bad log record structure")
  first_action (ok (LogAction.insert_value table index, r)) s =
      err (corruption "Bad log record structure")
  first_action (ok (LogAction.drop_table table, r)) s = err (corruption "Bad log record structure")
  first_action (ok (LogAction.end_record, r)) s = err (corruption "Bad log record structure")
  first_action (err (Error.io unexpected_eof)) s = ok (none, record s { reading_state = idle })
  first_action (err e) s = err e
  first_action panic s = panic
  first_action stuck s = stuck

  unfoldable pub read_next : Bool → Log → Result (Option LogReader × Log)
  read_next validate s = elim s.reading_state [
    | idle ↦ ok (none, s)
    | reading ↦ elim s.reading [
      | none ↦ ok (none, s)
      | some f ↦ first_action (next (new f.file.content f.file.position validate)) s
    ]
  ]
