-- ===== src/Log/Files.antt =====
-- src/log.rs, `Log`: the overlays together with the log files and their way through the queues, from
-- the file that records are appended to, over the one that is flushed and the one that is read, to
-- the cleaned files of the pool. Each operation is one step, and calls of the operating system
-- succeed. A file is its bytes and the position of its handle.
pub mod Queues
pub mod Published
pub mod Open
use blockchain_parity_db.Prelude.{
  ℕ, zero, suc, ◌+◌, ◌-◌, ◌%◌, ◌^◌, Bool, true, false, not, ◌&&◌, Option, none, some, List, [], ◌∷◌,
  ◌++◌, length, take, drop, ltb, leb, ◌==◌, if◌then◌else◌,
}
use mathlib.Core.Option
use blockchain_parity_db.Bytes.{Bytes}
use blockchain_parity_db.HashMap
use blockchain_parity_db.HashMap.{HashMap}
use blockchain_parity_db.Outcome.{
  Result, ok, err, panic, stuck, corruption, io, unexpected_eof, assert, ◌>>=◌,
}
use blockchain_parity_db.Index.TableId
use blockchain_parity_db.Index.TableId.{TableId}
use blockchain_parity_db.Log.Overlay.{
  IndexChange, ValueChange, IndexLogOverlay, ValueLogOverlay, LogOverlays, LogChange, LogWriter,
  new_writer,
}
use blockchain_parity_db.Log.Reader.{Crc32, Cleared, LogReader, LogAction, new, next}
use blockchain_parity_db.Log.Record.{flush_to_file, flushed_bytes}

pub record LogFile : Type 0 where
  pub content : Bytes
  pub position : ℕ

-- A file that was made, or cut by `seek` and `set_len(0)`
abbrev pub empty_file : LogFile
empty_file = record { content = []; position = 0 }

-- `write_all`; the position is never behind the end.
unfoldable pub write_all : Bytes → LogFile → LogFile
write_all bs f = record {
  content = take f.position f.content ++ (bs ++ drop (f.position + length bs) f.content);
  position = f.position + length bs;
}

-- `seek(SeekFrom::Start(0))`
unfoldable pub rewind : LogFile → LogFile
rewind f = record f { position = 0 }

pub record Appending : Type 0 where
  pub id : ℕ
  pub file : LogFile
  pub size : ℕ

-- `Flushing` and `Reading`, and the pairs in the pool and in the clean-up queue
pub record Numbered : Type 0 where
  pub id : ℕ
  pub file : LogFile

-- A file of the replay queue, with the id of its first record
pub record Replayable : Type 0 where
  pub id : ℕ
  pub record_id : ℕ
  pub file : LogFile

pub data ReadingState : Type 0 where
  reading idle : ReadingState

-- `dropped` has the numbers of the files that were removed from the directory.
pub record Log : Type 0 where
  pub overlays : LogOverlays
  pub appending : Option Appending
  pub reading : Option Numbered
  pub reading_state : ReadingState
  pub flushing : Option Numbered
  pub next_record_id : ℕ
  pub dirty : Bool
  pub log_pool : List Numbered
  pub cleanup_queue : List Numbered
  pub replay_queue : List Replayable
  pub next_log_id : ℕ
  pub dropped : List ℕ

abbrev pub max_log_pool_size : ℕ
max_log_pool_size = 16

abbrev pub opt_list {ℓ} : {A : Type ℓ} → Option A → List A
opt_list none = []
opt_list (some a) = a ∷ []

abbrev pub ids : List Numbered → List ℕ
ids [] = []
ids (f ∷ fs) = f.id ∷ ids fs

abbrev pub replay_ids : List Replayable → List ℕ
replay_ids [] = []
replay_ids (f ∷ fs) = f.id ∷ replay_ids fs

unfoldable pub replay_record_id : Log → Option ℕ
replay_record_id s = elim s.replay_queue [ [] ↦ none | f ∷ fs ↦ some f.record_id ]

unfoldable pub clear_replay_logs : Log → Log
clear_replay_logs s = record s {
  reading = none;
  replay_queue = [];
  dropped = s.dropped ++ (ids (opt_list s.reading) ++ replay_ids s.replay_queue);
  overlays = record { index = []; value = []; last_record_id = [] };
  reading_state = ReadingState.idle;
  dirty = false;
}

-- `fetch_add(1)`
unfoldable pub begin_record : Log → LogWriter × Log
begin_record s = (
  new_writer s.overlays s.next_record_id,
  record s { next_record_id = (s.next_record_id + 1) % 2 ^ 64 },
)

-- The file to append to: the one in use, or the first of the pool, or a new one
unfoldable pub activate_pool : List Numbered → Log → Appending × Log
activate_pool [] s = (
  record { id = s.next_log_id; file = empty_file; size = 0 },
  record s { next_log_id = (s.next_log_id + 1) % 2 ^ 32 },
)
activate_pool (f ∷ fs) s =
    (record { id = f.id; file = f.file; size = 0 }, record s { log_pool = fs })

unfoldable pub activate : Log → Appending × Log
activate s = elim s.appending [ some a ↦ (a, s) | none ↦ activate_pool s.log_pool s ]

-- `entry(id).or_default().map.extend(overlay.map)`, table by table
unfoldable pub publish {ℓ} :
    {A : Type ℓ} → List (ℕ × HashMap A) → HashMap (HashMap A) → HashMap (HashMap A)
publish [] m = m
publish ((id, o) ∷ os) m =
    publish os (HashMap.insert id (HashMap.extend (HashMap.get_or_default [] id m) o) m)

unfoldable pub note_columns : List (ℕ × ValueLogOverlay) → ℕ → HashMap ℕ → HashMap ℕ
note_columns [] record_id m = m
note_columns ((id, o) ∷ os) record_id m =
    note_columns os record_id (HashMap.insert (TableId.col id) record_id m)

unfoldable pub publish_change : LogChange → LogOverlays → LogOverlays
publish_change log o = record {
  index = publish log.local_index o.index;
  value = publish log.local_values o.value;
  last_record_id = note_columns log.local_values log.record_id o.last_record_id;
}

module _ ⦃crc : Crc32⦄ where
  -- The number of bytes is what the writer of the log waits for.
  unfoldable pub append_record : LogChange → Appending × Log → ℕ × Log
  append_record log (a, s) = (
    flushed_bytes log,
    record s {
      appending = some (record {
        id = a.id;
        file = write_all (flush_to_file log) a.file;
        size = a.size + flushed_bytes log;
      });
      overlays = publish_change log s.overlays;
      dirty = true;
    },
  )

  unfoldable pub end_record : LogChange → Log → Result (ℕ × Log)
  end_record log s =
      assert ((log.record_id + 1) % 2 ^ 64 == s.next_record_id)
        (ok (append_record log (activate s)))

-- A page is forgotten if this record was the last to change it.
unfoldable pub forget {ℓ} : {A : Type ℓ} → (A → ℕ) → ℕ → ℕ → HashMap A → HashMap A
forget owner record_id index m = elim (HashMap.get index m) [
  | none ↦ m
  | some a ↦ if owner a == record_id then HashMap.remove index m else m
]

unfoldable pub forget_page {ℓ} :
    {A : Type ℓ} → (A → ℕ) → ℕ → ℕ → ℕ → HashMap (HashMap A) → HashMap (HashMap A)
forget_page owner record_id table index m = elim (HashMap.get table m) [
  | none ↦ m
  | some o ↦ HashMap.insert table (forget owner record_id index o) m
]

unfoldable pub forget_pages {ℓ} :
    {A : Type ℓ} → (A → ℕ) → ℕ → List (ℕ × ℕ) → HashMap (HashMap A) → HashMap (HashMap A)
forget_pages owner record_id [] m = m
forget_pages owner record_id ((table, index) ∷ ps) m =
    forget_pages owner record_id ps (forget_page owner record_id table index m)

-- `retain(|_, overlay| !overlay.map.is_empty())`
unfoldable pub retain_used {ℓ} : {A : Type ℓ} → HashMap (HashMap A) → HashMap (HashMap A)
retain_used [] = []
retain_used ((table, []) ∷ m) = retain_used m
retain_used ((table, a ∷ o) ∷ m) = (table, a ∷ o) ∷ retain_used m

unfoldable pub end_read : Cleared → ℕ → Log → Log
end_read cleared record_id s = record s {
  next_record_id =
      if leb s.next_record_id record_id then (record_id + 1) % 2 ^ 64 else s.next_record_id;
  overlays = record (s.overlays) {
    index =
        retain_used (
          forget_pages (λ (c : IndexChange). c.record_id) record_id cleared.index s.overlays.index);
    value =
        forget_pages (λ (c : ValueChange). c.record_id) record_id cleared.values s.overlays.value;
  };
}
