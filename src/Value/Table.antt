-- ===== src/Value/Table.antt =====
-- src/table.rs, `ValueTable`: the header, the free list of its slots, and the counter of a slot. A
-- slot is read from the record under way or the overlays if it is there, from the file otherwise. What
-- an uninitialised buffer holds is a parameter.
pub mod FreeList
pub mod Fresh
pub mod Open
pub mod Enact
pub mod Counter
pub mod Chain
pub mod Metadata
use blockchain_parity_db.Prelude.{
  ℕ, zero, ◌+◌, ◌-◌, ◌*◌, ◌%◌, ◌^◌, ◌<◌, Bool, true, false, ◌&&◌, Option, none, some, List, [], ◌∷◌,
  length, take, ltb, leb, ◌==◌, if◌then◌else◌,
}
use blockchain_parity_db.Bytes.{Bytes, Memory, read_bytes, to_le, from_le, slice, splice}
use blockchain_parity_db.Outcome.{Result, ok, err, panic, io, unexpected_eof, ◌>>=◌}
use blockchain_parity_db.Index.TableId.{TableId}
use blockchain_parity_db.Log.Overlay.{LogWriter, writer_value, insert_value}
use blockchain_parity_db.Value.Entry
use blockchain_parity_db.Value.Entry.{Entry, size_size, index_size}

-- `filled`, `last_removed` and `dirty_header` are atomics; the file is `None` until the table grows.
pub record ValueTable : Type 0 where
  pub id : TableId
  pub entry_size : ℕ
  pub file : Option Bytes
  pub filled : ℕ
  pub last_removed : ℕ
  pub dirty_header : Bool
  pub multipart : Bool
  pub ref_counted : Bool
  pub db_version : ℕ

abbrev pub locked_ref : ℕ
locked_ref = 2 ^ 32 - 1

-- `TableFile::read_at`: `read_exact_at` on the unwrapped file
unfoldable pub read_at : Option Bytes → ℕ → ℕ → Result Bytes
read_at none offset n = panic
read_at (some file) offset n =
    if ltb (length file) (offset + n) then err (io unexpected_eof) else ok (slice offset n file)

-- `Header`: two words
unfoldable pub header_last_removed : Bytes → ℕ
header_last_removed h = from_le (slice 0 index_size h)

unfoldable pub header_filled : Bytes → ℕ
header_filled h = from_le (slice index_size index_size h)

unfoldable pub set_last_removed : ℕ → Bytes → Bytes
set_last_removed n h = splice 0 (to_le 8 n) h

unfoldable pub set_filled : ℕ → Bytes → Bytes
set_filled n h = splice index_size (to_le 8 n) h

abbrev pub blank_header : Bytes
blank_header = 0 ∷ 0 ∷ 0 ∷ 0 ∷ 0 ∷ 0 ∷ 0 ∷ 0 ∷ 0 ∷ 0 ∷ 0 ∷ 0 ∷ 0 ∷ 0 ∷ 0 ∷ 0 ∷ []

-- The header goes into the record if it has changed.
unfoldable pub complete_plan : ValueTable → LogWriter → ValueTable × LogWriter
complete_plan t w =
    if t.dirty_header
    then (
      record t { dirty_header = false },
      insert_value t.id 0 (set_filled t.filled (set_last_removed t.last_removed blank_header)) w,
    )
    else (t, w)

unfoldable pub set_metadata : Bytes → ValueTable → ValueTable
set_metadata h t = record t {
  last_removed = header_last_removed h;
  filled = if header_filled h == 0 then 1 else header_filled h;
}

unfoldable pub refresh_metadata : ValueTable → Result ValueTable
refresh_metadata t = elim t.file [
  | none ↦ ok t
  | some file ↦ do h ← read_at (some file) 0 16; ok (set_metadata h t)
]

unfoldable pub fill_buf : Option Bytes → ℕ → Option Bytes → ℕ → Bytes → Result Entry
fill_buf (some bs) n file offset buf = ok (Entry.new bs)
fill_buf none n file offset buf = do bs ← read_at file offset n; ok (Entry.new (splice 0 bs buf))

-- The number behind the marker
unfoldable pub next_in : Entry → Result ℕ
next_in buf = do (next, buf') ← Entry.read_next (Entry.skip_size buf); ok next

module _ (uninit : Memory) where
  -- `new_uninit` of a buffer of `size` bytes, filled from the log or with `n` bytes from the file
  unfoldable pub read_buf : ℕ → ℕ → ValueTable → ℕ → LogWriter → Result Entry
  read_buf size n t index w =
      let buf = read_bytes uninit 0 size in
      fill_buf (writer_value w t.id index buf) n t.file (index * t.entry_size) buf

  unfoldable pub is_tombstone : ValueTable → ℕ → LogWriter → Result Bool
  is_tombstone t index w = do buf ← read_buf 40 40 t index w; ok (Entry.is_tombstone buf)

  unfoldable pub read_next_free : ValueTable → ℕ → LogWriter → Result ℕ
  read_next_free t index w = do buf ← read_buf 10 10 t index w; next_in buf

  unfoldable pub next_part_of : ValueTable → Entry → Result (Option ℕ)
  next_part_of t buf =
      if t.multipart && Entry.is_multi t.db_version buf
      then (do (next, buf') ← Entry.read_next (Entry.skip_size buf); ok (some next))
      else ok none

  unfoldable pub read_next_part : ValueTable → ℕ → LogWriter → Result (Option ℕ)
  read_next_part t index w = do buf ← read_buf 10 10 t index w; next_part_of t buf

  -- The removed slot at the head of the list, or a new one
  unfoldable pub next_free : ValueTable → LogWriter → Result (ℕ × ValueTable)
  next_free t w =
      if t.last_removed == 0
      then ok (t.filled, record t { filled = (t.filled + 1) % 2 ^ 64; dirty_header = true })
      else (do
        next_removed ← read_next_free t t.last_removed w
        ok (t.last_removed, record t { last_removed = next_removed; dirty_header = true }))

  -- A tombstone with the head of the list, which the slot becomes
  unfoldable pub clear_slot : ValueTable → ℕ → LogWriter → Result (ValueTable × LogWriter)
  clear_slot t index w = do
    buf ← Entry.write_tombstone (Entry.new (read_bytes uninit 0 10))
    buf' ← Entry.write_next t.last_removed buf
    ok (
      record t { last_removed = index; dirty_header = true },
      insert_value t.id index (take buf'.offset buf'.bytes) w,
    )
