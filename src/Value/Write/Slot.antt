-- ===== src/Value/Write/Slot.antt =====
-- What `overwrite_chain` writes to a slot.
use mathlib.Core.List.{append_assoc, append-nil}
use blockchain_parity_db.Prelude.{
  ℕ, zero, suc, ◌+◌, ◌-◌, ◌%◌, ◌^◌, ◌≤◌, ◌<◌, ◌≡◌, refl, Bool, true, false, [], ◌++◌, length, drop,
  length-append, length-take, length-drop, none, ◌||◌, ltb, if◌then◌else◌, ◌==◌, arith,
}
use blockchain_parity_db.Bytes.{
  Bytes, Memory, read_bytes, slice, to_le, length-to_le, length-read_bytes,
}
use blockchain_parity_db.Outcome.{Result, ok}
use blockchain_parity_db.Log.Overlay.{LogWriter}
use blockchain_parity_db.Value.Entry
use blockchain_parity_db.Value.Entry.{Entry}
use blockchain_parity_db.Value.Entry.Cursor.{
  Wrote, new-Wrote, write_slice-Wrote, size_word, write_size_lem,
}
use blockchain_parity_db.Value.Key.{TableKey, partial, no_hash, partial_key, write_key}
use blockchain_parity_db.Value.Table.{ValueTable}
use blockchain_parity_db.Value.Parts.Slot.{
  rc_bytes, key_bytes, meta_bytes, marker_of, link_bytes, last_bytes, length-marker,
}
use blockchain_parity_db.Value.Write.{
  Cursor, written, write_rc_of, write_meta, write_marker, write_value, write_slot, blank_buf, link,
}

blank-Wrote : (u : Memory) → Wrote (blank_buf u) 0x8000 []
blank-Wrote u = let w = new-Wrote (read_bytes u 0 0x8000) in rw (length-read_bytes u 0 0x8000) at w

-- A result that leaves `bs` in front of the cursor
abbrev pub Writes : Result Entry → ℕ → Bytes → Type 0
Writes r size bs = (e : Entry) × (r ≡ ok e) × Wrote e size bs

write_none : (size : ℕ) (bs : Bytes) {e : Entry} → Wrote e size bs → Writes (ok e) size (bs ++ [])
write_none size bs {e} w = (e, refl, rw (append-nil bs) w)

write_rc-Writes :
    (b : Bool) (size : ℕ) (bs : Bytes) {e : Entry}
    → Wrote e size bs
    → length bs + length (rc_bytes b) ≤ size
    → Writes (if b then Entry.write_rc 1 e else ok e) size (bs ++ rc_bytes b)
unfolding Entry.write_rc
write_rc-Writes true size bs w room = write_slice-Wrote (to_le 4 1) bs size w room
write_rc-Writes false size bs {e} w room = write_none size bs w

write_key-Writes :
    (key : TableKey) (size : ℕ) (bs : Bytes) {e : Entry}
    → Wrote e size bs
    → length bs + length (key_bytes key) ≤ size
    → Writes (write_key key e) size (bs ++ key_bytes key)
unfolding write_key
write_key-Writes (partial k) size bs w room = write_slice-Wrote (partial_key k) bs size w room
write_key-Writes no_hash size bs {e} w room = write_none size bs w

write_meta-Writes :
    (t : ValueTable) (key : TableKey) (offset size : ℕ) (bs : Bytes) {e : Entry}
    → Wrote e size bs
    → length bs + length (meta_bytes t key (offset == 0)) ≤ size
    → Writes (write_meta t key offset e) size (bs ++ meta_bytes t key (offset == 0))
unfolding write_meta write_rc_of
write_meta-Writes t key zero size bs w room =
    let rcs = rc_bytes t.ref_counted in
    let ks = key_bytes key in
    let (e₁, got, w₁) =
      write_rc-Writes t.ref_counted size bs w (omega (arith, length-append rcs ks)) in
    let (e₂, got', w₂) =
      write_key-Writes key size (bs ++ rcs) w₁
        (omega (arith, length-append rcs ks, length-append bs rcs)) in
    (e₂, rw got got', rw (← append_assoc bs rcs ks) w₂)
write_meta-Writes t key (suc offset) size bs {e} w room =
    let later : suc offset == 0 ≡ false = ground arith in rw later (write_none size bs w)

module _ (t : ValueTable) (key : TableKey) (value : Bytes) (c : Cursor) where
  -- The bytes of the value that go into a slot for `value_len` bytes
  abbrev pub chunk_len : ℕ → ℕ
  chunk_len value_len = value_len - length (meta_bytes t key (c.offset == 0))

  -- What a slot holds behind its marker or size
  abbrev pub slot_body : ℕ → Bytes
  slot_body value_len =
      meta_bytes t key (c.offset == 0) ++ slice c.offset (chunk_len value_len) value

  pub length-slot_chunk :
      (value_len : ℕ)
      → c.offset + chunk_len value_len ≤ length value
      → length (slice c.offset (chunk_len value_len) value) ≡ chunk_len value_len
  unfolding slice
  length-slot_chunk value_len room =
      let n = chunk_len value_len in
      omega (arith, length-take n (drop c.offset value), length-drop c.offset value, room)

  write_value-Wrote :
      (value_len : ℕ) (bs : Bytes) {e : Entry}
      → Wrote e 0x8000 bs
      → length (meta_bytes t key (c.offset == 0)) ≤ value_len
      → c.offset + chunk_len value_len ≤ length value
      → length bs + value_len ≤ 0x8000
      → write_value t key value c value_len e ≡ ok (bs ++ slot_body value_len, chunk_len value_len)
  unfolding write_value written
  write_value-Wrote value_len bs {e} w whole inside room =
      let meta = meta_bytes t key (c.offset == 0) in
      let x = slice c.offset (chunk_len value_len) value in
      let (e₁, got, w₁) =
        write_meta-Writes t key c.offset 0x8000 bs w (omega (arith, whole, room)) in
      let n : e₁.offset - e.offset ≡ length meta =
        omega (arith, w₁.at_end, w.at_end, length-append bs meta) in
      let (e₂, got', w₂) =
        write_slice-Wrote x (bs ++ meta) 0x8000 w₁
          (omega (arith, length-append bs meta, whole, room, length-slot_chunk value_len inside)) in
      let fits : (ltb value_len (length meta)
            || ltb (length value) (c.offset + (value_len - length meta)))
          ≡ false =
        ground (arith, whole, inside) in
      rw (got, n, fits, got', w₂.done, append_assoc bs meta x) refl

module _ (u : Memory) (t : ValueTable) (key : TableKey) (value : Bytes) (compressed : Bool)
    (c : Cursor) (w : LogWriter) where
  -- The last slot, of a chain that is new
  pub write_slot-last :
      c.remainder ≤ t.entry_size - 2
      → t.entry_size ≤ 0x7ff8
      → length (meta_bytes t key (c.offset == 0)) ≤ c.remainder
      → c.offset + chunk_len t key value c c.remainder ≤ length value
      → write_slot u t key value compressed none c w
        ≡ ok (
          (
            last_bytes c.remainder compressed (slot_body t key value c c.remainder),
            chunk_len t key value c c.remainder,
          ),
          c.remainder,
          0,
          t,
        )
  unfolding write_slot
  write_slot-last fits entry whole inside =
      let last : ltb (t.entry_size - 2) c.remainder ≡ false = ground (arith, fits) in
      let word : c.remainder % 2 ^ 16 ≡ c.remainder = omega (arith, fits, entry) in
      let (e, got, w₁) =
        write_slice-Wrote (to_le 2 (size_word c.remainder compressed)) [] 0x8000 (blank-Wrote u)
          (omega (arith, length-to_le 2 (size_word c.remainder compressed))) in
      let put =
        write_value-Wrote t key value c c.remainder (to_le 2 (size_word c.remainder compressed)) w₁
          whole inside
          (omega (arith, length-to_le 2 (size_word c.remainder compressed), fits, entry)) in
      rw
        (
          last,
          word,
          write_size_lem c.remainder compressed (blank_buf u) (omega (arith, fits, entry)),
          got,
          put,
        )
        refl

  -- A slot that is full
  pub write_slot-link :
      (next : ℕ) (t' : ValueTable)
      → t.entry_size - 2 < c.remainder
      → t.entry_size ≤ 0x7ff8
      → length (meta_bytes t key (c.offset == 0)) ≤ t.entry_size - 2 - 8
      → c.offset + chunk_len t key value c (t.entry_size - 2 - 8) ≤ length value
      → link u none t w ≡ ok (next, t')
      → write_slot u t key value compressed none c w
        ≡ ok (
          (
            link_bytes
                (marker_of (c.start == 0) compressed)
                next
                (slot_body t key value c (t.entry_size - 2 - 8)),
            chunk_len t key value c (t.entry_size - 2 - 8),
          ),
          t.entry_size - 2 - 8,
          next,
          t',
        )
  unfolding write_slot write_marker Entry.write_next Entry.write_u64
  write_slot-link next t' long entry whole inside linked =
      let full : ltb (t.entry_size - 2) c.remainder ≡ true = ground (arith, long) in
      let marker = marker_of (c.start == 0) compressed in
      let (e, got, w₁) =
        write_slice-Wrote marker [] 0x8000 (blank-Wrote u)
          (omega (arith, length-marker (c.start == 0) compressed)) in
      let (e', got', w₂) =
        write_slice-Wrote (to_le 8 next) marker 0x8000 w₁
          (omega (arith, length-marker (c.start == 0) compressed, length-to_le 8 next)) in
      let put =
        write_value-Wrote t key value c (t.entry_size - 2 - 8) (marker ++ to_le 8 next) w₂ whole
          inside
          (omega (
            arith,
            length-append marker (to_le 8 next),
            length-marker (c.start == 0) compressed,
            length-to_le 8 next,
            entry,
          )) in
      rw
        (
          full,
          linked,
          got,
          got',
          put,
          append_assoc marker (to_le 8 next) (slot_body t key value c (t.entry_size - 2 - 8)),
        )
        refl
