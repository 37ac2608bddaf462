-- ===== src/Value/Table/Counter.antt =====
-- src/table.rs: the reference counter of a slot (`change_ref`), and `validate_plan` of a slot that
-- comes with the log.
use blockchain_parity_db.Prelude.{
  ℕ, ◌+◌, ◌-◌, ◌≤◌, ◌<◌, ◌≡◌, ◌⊎◌, inl, inr, Bool, Bool-cases, true, false, ◌&&◌, Option, none,
  some, length, take, ltb, leb, ◌==◌, if◌then◌else◌, arith,
}
use blockchain_parity_db.Bytes.{Memory}
use blockchain_parity_db.Outcome.{Result, ok, panic, ◌>>=◌}
use blockchain_parity_db.Log.Overlay.{LogWriter, insert_value}
use blockchain_parity_db.Log.Reader.{LogReader, read}
use blockchain_parity_db.Value.Entry
use blockchain_parity_db.Value.Entry.{Entry, size_size, index_size}
use blockchain_parity_db.Value.Table.{ValueTable, locked_ref, read_buf}

-- `delta`, positive or not
pub data Delta : Type 0 where
  more less : ℕ → Delta

-- The new counter; `none` if the value is to be removed
unfoldable pub new_counter : ℕ → Delta → Option ℕ
new_counter counter (more n) =
    some (if leb (locked_ref - n) counter then locked_ref else counter + n)
new_counter counter (less n) =
    if counter == locked_ref
    then some counter
    else if counter - n == 0
    then none
    else some (counter - n)

-- The bytes in use, and the buffer in front of the counter
unfoldable pub slot_size : ValueTable → Entry → Result (ℕ × Entry)
slot_size t buf =
    if t.multipart && Entry.is_multi t.db_version buf
    then ok (t.entry_size, Entry.skip_next (Entry.skip_size buf))
    else (do ((size, compressed), buf') ← Entry.read_size buf; ok (buf'.offset + size, buf'))

unfoldable pub store_counter :
    ValueTable → ℕ → ℕ → ℕ → Option ℕ → Entry → LogWriter → Result (Bool × LogWriter)
store_counter t index size rc_offset none buf w = ok (false, w)
store_counter t index size rc_offset (some counter) buf w = do
  buf' ← Entry.write_rc counter (Entry.set_offset rc_offset buf)
  if ltb (length buf'.bytes) size
      then panic
      else ok (true, insert_value t.id index (take size buf'.bytes) w)

unfoldable pub change_counter :
    ValueTable → ℕ → Delta → Entry → LogWriter → Result (Bool × LogWriter)
change_counter t index delta buf w = do
  (size, buf₁) ← slot_size t buf
  (counter, buf₂) ← Entry.read_rc buf₁
  store_counter t index size buf₁.offset (new_counter counter delta) buf₂ w

unfoldable pub change_ref : Memory → ValueTable → ℕ → Delta → LogWriter → Result (Bool × LogWriter)
change_ref uninit t index delta w = do
  buf ← read_buf uninit 0x8000 t.entry_size t index w
  if Entry.is_tombstone buf then ok (false, w) else change_counter t index delta buf w

-- A size that leaves the buffer of 0x8000 bytes panics.
unfoldable pub skip_value : LogReader → Entry → Result LogReader
skip_value r buf = do
  ((size, compressed), buf') ← Entry.read_size buf
  if ltb 0x8000 (size_size + size) then panic else (do (bs, r') ← read size r; ok r')

unfoldable pub validate_slot : ValueTable → Entry → LogReader → Result LogReader
validate_slot t buf r =
    if Entry.is_tombstone buf
    then (do (bs, r') ← read index_size r; ok r')
    else if t.multipart && Entry.is_multi t.db_version buf
    then (do (bs, r') ← read (t.entry_size - size_size) r; ok r')
    else skip_value r buf

-- Slot 0 is the header.
unfoldable pub validate_plan : ℕ → ValueTable → LogReader → Result LogReader
validate_plan index t r =
    if index == 0
    then (do (bs, r') ← read 16 r; ok r')
    else (do (bs, r') ← read size_size r; validate_slot t (Entry.new bs) r')

-- A counter never leaves its 32 bits. A locked one stays locked, whatever is added or taken; another
-- is exact as long as the sum stays below the lock, and locked from there on; and a value is removed
-- only if its counter is not locked and no more than what is taken.
pub new_counter_cases :
    (counter n : ℕ)
    → counter ≤ locked_ref
    → (((counter + n < locked_ref) × (new_counter counter (more n) ≡ some (counter + n)))
        ⊎ ((locked_ref ≤ counter + n) × (new_counter counter (more n) ≡ some locked_ref)))
      × (((counter ≡ locked_ref) × (new_counter counter (less n) ≡ some locked_ref))
          ⊎ (((counter < locked_ref)
                × (n < counter)
                × (new_counter counter (less n) ≡ some (counter - n)))
              ⊎ ((counter < locked_ref) × (counter ≤ n) × (new_counter counter (less n) ≡ none))))
unfolding new_counter
new_counter_cases counter n h = (
  elim (Bool-cases (leb (locked_ref - n) counter)) [
    | inl full ↦ inr (reached _ _ full, ground arith)
    | inr fits ↦ inl (below _ _ fits, ground arith)
  ],
  elim (Bool-cases (counter == locked_ref)) [
    | inl locked ↦ inl (ground arith, ground arith)
    | inr free ↦ elim (Bool-cases (counter - n == 0)) [
      | inl gone ↦ inr (inr (ground arith, ground arith, ground arith))
      | inr left ↦ inr (inl (ground arith, ground arith, ground arith))
    ]
  ],
)
  where
    reached : (a b : ℕ) → leb (a - n) b ≡ true → a ≤ b + n
    reached a b e = ground arith

    below : (a b : ℕ) → leb (a - n) b ≡ false → b + n < a
    below a b e = ground arith
