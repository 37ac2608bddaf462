-- ===== src/Value/Write.antt =====
-- src/table.rs, `overwrite_chain`: a value written to one slot, or to a chain of slots, new ones or those
-- of an old value. The loop takes fuel for the slots that it writes and for those that it clears.
pub mod Slot
pub mod Loop
pub mod RoundTrip
use blockchain_parity_db.Prelude.{
  ℕ, zero, suc, ◌+◌, ◌-◌, ◌%◌, ◌^◌, Bool, true, false, not, ◌&&◌, ◌||◌, Option, none, some, length,
  take, ltb, leb, ◌==◌, if◌then◌else◌,
}
use blockchain_parity_db.Bytes.{Bytes, Memory, read_bytes, slice}
use blockchain_parity_db.Outcome.{Result, ok, err, panic, stuck, assert, ◌>>=◌}
use blockchain_parity_db.Log.Overlay.{LogWriter, insert_value}
use blockchain_parity_db.Value.Entry
use blockchain_parity_db.Value.Entry.{
  Entry, size_size, index_size, refs_size, multipart, multihead, multihead_compressed,
}
use blockchain_parity_db.Value.Key.{TableKey, encoded_size, write_key}
use blockchain_parity_db.Value.Table.{ValueTable, read_next_part, next_free}
use blockchain_parity_db.Value.Table.Chain.{clear_chain}
use blockchain_parity_db.Value.Parts.{max_entry_buf_size}

unfoldable pub ref_size : ValueTable → ℕ
ref_size t = if t.ref_counted then refs_size else 0

-- The bytes of a value that fit one slot; `None` if not even the key fits. The sizes are `u16`, and
-- an entry is larger than its size and its counter.
unfoldable pub value_size : ValueTable → TableKey → Option ℕ
value_size t key =
    let base = t.entry_size - size_size - ref_size t in
    if ltb base (encoded_size key) then none else some (base - encoded_size key)

-- `value.len() <= self.value_size(key).unwrap()`
unfoldable pub fits_slot : ℕ → Option ℕ → Bool
fits_slot n none = false
fits_slot n (some size) = leb n size

-- The variables of the loop: the slot to write and whether it is one of an old value, what is left to
-- write, how much of the value is written, and the first slot
pub record Cursor : Type 0 where
  pub index : ℕ
  pub follow : Bool
  pub remainder : ℕ
  pub offset : ℕ
  pub start : ℕ

-- `buf[0..buf.offset()]`
unfoldable pub written : Entry → Bytes
written e = take e.offset e.bytes

-- `if offset == 0`: the counter and the key
unfoldable pub write_rc_of : ValueTable → Entry → Result Entry
write_rc_of t buf = if t.ref_counted then Entry.write_rc 1 buf else ok buf

unfoldable pub write_meta : ValueTable → TableKey → ℕ → Entry → Result Entry
write_meta t key zero buf = do buf' ← write_rc_of t buf; write_key key buf'
write_meta t key (suc offset) buf = ok buf

-- The marker of a slot that is not the last
unfoldable pub write_marker : Bool → Bool → Entry → Result Entry
write_marker first compressed buf =
    Entry.write_slice
      (if first then (if compressed then multihead_compressed else multihead) else multipart) buf

-- The slot, how many bytes of the value it takes, and how much is left: `value_len` bytes are the
-- counter, the key and the bytes of the value.
unfoldable pub write_value : ValueTable → TableKey → Bytes → Cursor → ℕ → Entry → Result (Bytes × ℕ)
write_value t key value c value_len buf = do
  buf' ← write_meta t key c.offset buf
  let meta = buf'.offset - buf.offset
  if ltb value_len meta || ltb (length value) (c.offset + (value_len - meta)) then panic else (do
    buf'' ← Entry.write_slice (slice c.offset (value_len - meta) value) buf'
    ok (written buf'', value_len - meta))

abbrev pub or_zero : Option ℕ → ℕ
or_zero none = 0
or_zero (some next) = next

abbrev pub is_linked : Option ℕ → Bool
is_linked none = false
is_linked (some next) = true

module _ (uninit : Memory) where
  -- `if follow`: the slot that an old value goes on in
  unfoldable pub existing_link : ValueTable → Cursor → LogWriter → Result (Option ℕ)
  existing_link t c w = if c.follow then read_next_part uninit t c.index w else ok none

  -- The next slot of a slot that is not the last: that of the old value, or a free one
  unfoldable pub link : Option ℕ → ValueTable → LogWriter → Result (ℕ × ValueTable)
  link (some next) t w = ok (next, t)
  link none t w = next_free uninit t w

  abbrev pub blank_buf : Entry
  blank_buf = Entry.new (read_bytes uninit 0 max_entry_buf_size)

  -- One slot: its bytes, how many of the value, the rest of the slots' bytes, the next slot
  unfoldable pub write_slot :
      ValueTable
      → TableKey
      → Bytes
      → Bool
      → Option ℕ
      → Cursor
      → LogWriter
      → Result ((Bytes × ℕ) × ℕ × ℕ × ValueTable)
  write_slot t key value compressed old c w =
      let free_space = t.entry_size - size_size in
      if ltb free_space c.remainder
      then (do
        (next, t') ← link old t w
        buf ← write_marker (c.start == 0) compressed blank_buf
        buf' ← Entry.write_next next buf
        out ← write_value t key value c (free_space - index_size) buf'
        ok (out, free_space - index_size, next, t'))
      else (do
        buf ← Entry.write_size (c.remainder % 2 ^ 16) compressed blank_buf
        out ← write_value t key value c c.remainder buf
        ok (out, c.remainder, or_zero old, t))

  -- The end of the value: what is left of an old chain is cleared.
  unfoldable pub clear_tail : ℕ → ℕ → ValueTable → LogWriter → Result (ValueTable × LogWriter)
  clear_tail fuel zero t w = ok (t, w)
  clear_tail fuel (suc next) t w = clear_chain uninit fuel (suc next) t w

  -- `loop`
  unfoldable pub write_loop :
      ℕ
      → ValueTable
      → TableKey
      → Bytes
      → Bool
      → Cursor
      → LogWriter
      → Result (ℕ × ValueTable × LogWriter)
  write_loop zero t key value compressed c w = stuck
  write_loop (suc fuel) t key value compressed c w = do
    old ← existing_link t c w
    ((bytes, n), value_len, next, t') ← write_slot t key value compressed old c w
    let w' = insert_value t.id c.index bytes w
    let start = if c.start == 0 then c.index else c.start
    let left = c.remainder - value_len
    if left == 0
        then (do (t'', w'') ← clear_tail fuel next t' w'; ok (start, t'', w''))
        else write_loop fuel t' key value compressed
            (record {
              index = next;
              follow = is_linked old;
              remainder = left;
              offset = c.offset + n;
              start = start;
            })
            w'

  -- `match at`
  unfoldable pub first_slot : Option ℕ → ValueTable → LogWriter → Result ((ℕ × Bool) × ValueTable)
  first_slot (some index) t w = ok ((index, true), t)
  first_slot none t w = do (index, t') ← next_free uninit t w; ok ((index, false), t')

  unfoldable pub overwrite_chain :
      ℕ
      → ValueTable
      → TableKey
      → Bytes
      → LogWriter
      → Option ℕ
      → Bool
      → Result (ℕ × ValueTable × LogWriter)
  overwrite_chain fuel t key value w at compressed =
      assert (t.multipart || fits_slot (length value) (value_size t key)) (do
        ((index, follow), t') ← first_slot at t w
        write_loop fuel t' key value compressed
            (record {
              index = index;
              follow = follow;
              remainder = length value + ref_size t + encoded_size key;
              offset = 0;
              start = 0;
            })
            w)

  unfoldable pub write_insert_plan :
      ℕ → ValueTable → TableKey → Bytes → LogWriter → Bool → Result (ℕ × ValueTable × LogWriter)
  write_insert_plan fuel t key value w compressed =
      overwrite_chain fuel t key value w none compressed

  unfoldable pub write_replace_plan :
      ℕ → ValueTable → ℕ → TableKey → Bytes → LogWriter → Bool → Result (ValueTable × LogWriter)
  write_replace_plan fuel t index key value w compressed = do
    (start, t', w') ← overwrite_chain fuel t key value w (some index) compressed
    ok (t', w')
