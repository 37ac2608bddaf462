-- ===== src/Value/Write/Loop.antt =====
-- The loop of `overwrite_chain` that writes a new value.
use mathlib.Core.Path.{subst}
use blockchain_parity_db.Prelude.{
  ℕ, zero, suc, ◌+◌, ◌-◌, ◌^◌, ◌≤◌, ◌<◌, ◌≡◌, ◌≢◌, refl, sym, ap, ◌∙◌, inl, inr, Bool, true, false,
  Bool-cases, List, ◌++◌, length, length-append, take, drop, length-drop, none, ltb, if◌then◌else◌,
  ◌==◌, arith,
}
use blockchain_parity_db.Bytes.{Bytes, to_le, Memory, slice, take-past, append-take-drop, drop-add}
use blockchain_parity_db.Outcome.{Result, ok}
use blockchain_parity_db.Log.Overlay.{LogWriter, writer_value, insert_value}
use blockchain_parity_db.Log.Overlay.Queries.{value-insert_value}
use blockchain_parity_db.Value.Key.{TableKey, partial, no_hash, encoded_size}
use blockchain_parity_db.Value.Table.{ValueTable}
use blockchain_parity_db.Value.Table.FreeList.{FreeList, FreeList-apart, IsOutside}
use blockchain_parity_db.Value.Table.Fresh.{
  IsFresh, counted, FreeList-counted, Taken, next_free-Taken,
}
use blockchain_parity_db.Value.Parts.Slot.{
  IsTableKey, rc_bytes, key_bytes, meta_bytes, marker_of, link_bytes, last_bytes,
}
use blockchain_parity_db.Value.Parts.Chain.{Holds, Chain, last, more}
use blockchain_parity_db.Value.Write.{Cursor, write_loop, existing_link, link, clear_tail}
use blockchain_parity_db.Value.Write.Slot.{
  chunk_len, slot_body, write_slot-last, write_slot-link, length-slot_chunk,
}

-- A new value of which the loop writes what is left, in a table with `filled` slots and the free list `xs`
pub record Writing (u : Memory) (t : ValueTable) (key : TableKey) (value : Bytes) (c : Cursor)
    (w : LogWriter) (xs : List ℕ) : Type 0 where
  pub new : c.follow ≡ false
  pub head : c.start == 0 ≡ (c.offset == 0)
  pub inside : c.offset ≤ length value
  pub rest : c.remainder ≡ length (meta_bytes t key (c.offset == 0)) + (length value - c.offset)
  pub used : c.index ≢ 0
  pub below : c.index < t.filled
  pub apart : IsOutside c.index xs
  pub room : t.filled + c.remainder < 2 ^ 64
  pub fresh : IsFresh t.filled xs
  pub list : FreeList u t w t.last_removed xs

-- What the loop leaves: the chain of the value, the other slots as they were, and a free list
pub record Stored (u : Memory) (t : ValueTable) (key : TableKey) (value : Bytes) (compressed : Bool)
    (c : Cursor) (w : LogWriter) (xs : List ℕ) (r : Result (ℕ × ValueTable × LogWriter))
    : Type 0 where
  pub removed : ℕ
  pub filled : ℕ
  pub dirty : Bool
  pub after : LogWriter
  pub slots : ℕ
  pub left : List ℕ
  pub result :
      r ≡ ok (if c.start == 0 then c.index else c.start, counted t removed filled dirty, after)
  pub chain : Chain t key compressed after (c.offset == 0) c.index (drop c.offset value) slots
  pub few : slots ≤ c.remainder + 1
  pub fresh : IsFresh filled left
  pub list : FreeList u (counted t removed filled dirty) after removed left
  pub others :
      (j : ℕ)
      → j < t.filled
      → IsOutside j xs
      → j ≢ c.index
      → (dest : Bytes) → writer_value after t.id j dest ≡ writer_value w t.id j dest

Holds-insert_value :
    (t : ValueTable) (i : ℕ) (bs : Bytes) (w : LogWriter) → Holds t (insert_value t.id i bs w) i bs
Holds-insert_value t i bs w dest = value-insert_value t.id i t.id i bs w dest ∙ ground arith

insert_value-other :
    (t : ValueTable) (i j : ℕ) (bs : Bytes) (w : LogWriter)
    → j ≢ i
    → (dest : Bytes)
    → writer_value (insert_value t.id i bs w) t.id j dest ≡ writer_value w t.id j dest
insert_value-other t i j bs w apart dest =
    value-insert_value t.id i t.id j bs w dest ∙ ground (arith, apart)

-- A chain does not depend on the counters of its table.
pub Chain-counted :
    (t : ValueTable) (key : TableKey) (compressed : Bool) (w : LogWriter) (removed filled : ℕ)
    (dirty : Bool) {first : Bool} {i n : ℕ} {value : Bytes}
    → Chain t key compressed w first i value n
    → Chain (counted t removed filled dirty) key compressed w first i value n
Chain-counted t key compressed w removed filled dirty (last size there whole small) =
    last size there whole small
Chain-counted t key compressed w removed filled dirty
      (more next chunk rest there full apart small c) =
    more next chunk rest there full apart small
      (Chain-counted t key compressed w removed filled dirty c)

length-rc_bytes : (b : Bool) → length (rc_bytes b) ≤ 4
unfolding to_le
length-rc_bytes true = omega arith
length-rc_bytes false = omega arith

length-key_bytes : (key : TableKey) → IsTableKey key → length (key_bytes key) ≤ 26
unfolding encoded_size
length-key_bytes (partial k) len = omega (arith, len)
length-key_bytes no_hash len = omega arith

-- A counter and a key are 30 bytes at most.
length-meta_bytes :
    (t : ValueTable) (key : TableKey) (first : Bool)
    → IsTableKey key
    → length (meta_bytes t key first) ≤ 30
length-meta_bytes t key true len = omega (
  arith,
  length-append (rc_bytes t.ref_counted) (key_bytes key),
  length-rc_bytes t.ref_counted,
  length-key_bytes key len,
)
length-meta_bytes t key false len = omega arith

FreeList-insert_value :
    (u : Memory) (t : ValueTable) (index n : ℕ) (entry : Bytes) (w : LogWriter) (xs : List ℕ)
    → IsOutside index xs
    → FreeList u t w n xs
    → FreeList u
        (counted t t.last_removed t.filled t.dirty_header)
        (insert_value t.id index entry w)
        n
        xs
FreeList-insert_value u t index n entry w xs out l =
    FreeList-counted u (record t { last_removed = 0; dirty_header = true })
      (insert_value t.id index entry w) n t.last_removed t.filled t.dirty_header xs
      (FreeList-apart u t index 0 n entry w xs out l)

module _ (u : Memory) (t : ValueTable) (key : TableKey) (value : Bytes) (compressed : Bool)
    (c : Cursor) (w : LogWriter) (xs : List ℕ) where
  pub write_last :
      (fuel : ℕ)
      → t.entry_size ≤ 0x7ff8
      → Writing u t key value c w xs
      → c.remainder ≤ t.entry_size - 2
      → (z : Stored u t key value compressed c w xs
          (write_loop u (suc fuel) t key value compressed c w))
        × (z.slots ≡ 1)
  unfolding write_loop existing_link clear_tail slice
  write_last fuel hi s fits =
      let n = chunk_len t key value c c.remainder in
      let n_is : n ≡ length value - c.offset = omega (arith, s.rest) in
      let inside : c.offset + n ≤ length value = omega (arith, n_is, s.inside) in
      let bs = last_bytes c.remainder compressed (slot_body t key value c c.remainder) in
      let whole : take n (drop c.offset value) ≡ drop c.offset value =
        take-past n (drop c.offset value) (omega (arith, n_is, length-drop c.offset value)) in
      let none_old : existing_link u t c w ≡ ok none = rw s.new refl in
      let nothing_left : c.remainder - c.remainder ≡ 0 = omega arith in
      let wrote =
        write_slot-last u t key value compressed c w fits hi (omega (arith, s.rest)) inside in
      (
        record {
          removed = t.last_removed;
          filled = t.filled;
          dirty = t.dirty_header;
          after = insert_value t.id c.index bs w;
          slots = 1;
          left = xs;
          result = rw (none_old, wrote, nothing_left) refl;
          chain =
              subst
                (λ x.
                  Chain t key compressed (insert_value t.id c.index bs w) (c.offset == 0) c.index x
                    1)
                whole
                (last c.remainder (Holds-insert_value t c.index bs w)
                  (omega (arith, s.rest, length-slot_chunk t key value c c.remainder inside))
                  (omega (arith, fits, hi)));
          few = omega arith;
          fresh = s.fresh;
          list = FreeList-insert_value u t c.index t.last_removed bs w xs s.apart s.list;
          others = λ j small out apart. insert_value-other t c.index j bs w apart;
        },
        refl,
      )

  -- The bytes behind the marker of a full slot, and how many are of the value
  abbrev full_len : ℕ
  full_len = t.entry_size - 2 - 8

  abbrev full_chunk : ℕ
  full_chunk = chunk_len t key value c full_len

  abbrev next_cursor : ℕ → Cursor
  next_cursor next = record {
    index = next;
    follow = false;
    remainder = c.remainder - full_len;
    offset = c.offset + full_chunk;
    start = if c.start == 0 then c.index else c.start;
  }

  abbrev full_slot : ℕ → Bytes
  full_slot next =
      link_bytes (marker_of (c.start == 0) compressed) next (slot_body t key value c full_len)

  abbrev next_writer : ℕ → LogWriter
  next_writer next = insert_value t.id c.index (full_slot next) w

  module _ (lo : 40 < t.entry_size) (hi : t.entry_size ≤ 0x7ff8) (len : IsTableKey key)
      (s : Writing u t key value c w xs) (long : t.entry_size - 2 < c.remainder)
      (tk : Taken u t w xs) where
    full_inside : c.offset + full_chunk ≤ length value
    full_inside =
        omega (arith, s.rest, s.inside, long, lo, length-meta_bytes t key (c.offset == 0) len)

    offset_used : (c.offset + full_chunk == 0) ≡ false
    offset_used =
        let n : 0 < full_chunk = omega (arith, lo, length-meta_bytes t key (c.offset == 0) len) in
        ground (arith, n)

    start_used : ((if c.start == 0 then c.index else c.start) == 0) ≡ false
    start_used = ground (arith, s.used)

    write_loop-link :
        (fuel : ℕ)
        → write_loop u (suc fuel) t key value compressed c w
          ≡ write_loop u fuel
              (counted t tk.last tk.filled true)
              key
              value
              compressed
              (next_cursor tk.slot)
              (next_writer tk.slot)
    unfolding write_loop existing_link link
    write_loop-link fuel =
        let none_old : existing_link u t c w ≡ ok none = rw s.new refl in
        let on : (c.remainder - full_len == 0) ≡ false = ground (arith, long, lo) in
        let wrote =
          write_slot-link u t key value compressed c w tk.slot (counted t tk.last tk.filled true)
            long hi (omega (arith, lo, length-meta_bytes t key (c.offset == 0) len)) full_inside
            tk.takes in
        rw (none_old, wrote, on) refl

    Writing-link :
        Writing u
          (counted t tk.last tk.filled true)
          key
          value
          (next_cursor tk.slot)
          (next_writer tk.slot)
          tk.left
    Writing-link = record {
      new = refl;
      head = start_used ∙ sym offset_used;
      inside = full_inside;
      rest =
          rw offset_used (
            omega (arith, s.rest, s.inside, long, lo, length-meta_bytes t key (c.offset == 0) len));
      used = tk.used;
      below = tk.below;
      apart = tk.apart;
      room = omega (arith, s.room, tk.bound, long, lo);
      fresh = tk.fresh;
      list =
          FreeList-insert_value u (counted t tk.last tk.filled true) c.index tk.last
            (full_slot tk.slot) w tk.left (tk.others c.index s.below s.apart).1 tk.list;
    }

    Stored-link :
        {r : Result (ℕ × ValueTable × LogWriter)}
        → Stored u
            (counted t tk.last tk.filled true)
            key
            value
            compressed
            (next_cursor tk.slot)
            (next_writer tk.slot)
            tk.left
            r
        → Stored u t key value compressed c w xs r
    unfolding slice
    Stored-link {r} z =
        let chunk = slice c.offset full_chunk value in
        let tail = drop (c.offset + full_chunk) value in
        let len_chunk = length-slot_chunk t key value c full_len full_inside in
        let apart = tk.others c.index s.below s.apart in
        let here : Holds t z.after c.index (full_slot tk.slot) = λ dest.
          z.others c.index (omega (arith, s.below, tk.grows)) apart.1 apart.0 dest
          ∙ Holds-insert_value t c.index (full_slot tk.slot) w dest in
        let onward : Chain t key compressed z.after false tk.slot tail z.slots =
          Chain-counted (counted t tk.last tk.filled true) key compressed z.after t.last_removed
            t.filled t.dirty_header (rw offset_used at z.chain) in
        let parts : chunk ++ tail ≡ drop c.offset value =
          ap (λ y. chunk ++ y) (drop-add c.offset full_chunk value)
          ∙ append-take-drop full_chunk (drop c.offset value) in
        record {
          removed = z.removed;
          filled = z.filled;
          dirty = z.dirty;
          after = z.after;
          slots = suc z.slots;
          left = z.left;
          result = rw start_used at z.result;
          chain =
              subst (λ x. Chain t key compressed z.after (c.offset == 0) c.index x (suc z.slots))
                parts
                (more tk.slot chunk tail (rw s.head at here)
                  (omega (arith, len_chunk, lo, length-meta_bytes t key (c.offset == 0) len))
                  tk.used (omega (arith, tk.below, tk.bound, s.room, long)) onward);
          few = omega (arith, z.few, long, lo);
          fresh = z.fresh;
          list = z.list;
          others = λ j small out off dest.
              let (off', out') = tk.others j small out in
              z.others j (omega (arith, small, tk.grows)) out' off' dest
              ∙ insert_value-other t c.index j (full_slot tk.slot) w off dest;
        }

-- A table with slots of a size for a chain, of a version after the markers with `0xfe` and `0xfd` first,
-- and a key that fits
pub record IsChained (t : ValueTable) (key : TableKey) : Type 0 where
  pub multi : t.multipart ≡ true
  pub version : 6 < t.db_version
  pub large : 40 < t.entry_size
  pub small : t.entry_size ≤ 0x7ff8
  pub len : IsTableKey key

-- The loop writes all of the value.
pub write_loop-Stored :
    (u : Memory) (t : ValueTable) (key : TableKey) (value : Bytes) (compressed : Bool)
    → IsChained t key
    → (fuel : ℕ) (removed filled : ℕ) (dirty : Bool) (c : Cursor) (w : LogWriter) (xs : List ℕ)
    → let t' = counted t removed filled dirty in
      c.remainder < fuel
      → Writing u t' key value c w xs
      → Stored u t' key value compressed c w xs (write_loop u fuel t' key value compressed c w)
write_loop-Stored u t key value compressed ch zero removed filled dirty c w xs enough s =
    absurd (omega arith)
write_loop-Stored u t key value compressed ch (suc fuel) removed filled dirty c w xs enough s =
    let t' = counted t removed filled dirty in
    elim (Bool-cases (ltb (t.entry_size - 2) c.remainder)) [
      | inr short ↦
          (write_last u t' key value compressed c w xs fuel ch.small s (ground (arith, short))).0
      | inl long ↦
          let more_left : t.entry_size - 2 < c.remainder = ground (arith, long) in
          let tk =
            next_free-Taken u t' w xs (λ e. omega (arith, e, s.below))
              (omega (arith, s.room, more_left)) s.fresh s.list in
          let w' = next_writer u t' key value compressed c w xs tk.slot in
          let c' = next_cursor u t' key value compressed c w xs tk.slot in
          rw
            (write_loop-link u t' key value compressed c w xs ch.large ch.small ch.len s more_left
              tk fuel)
            (Stored-link u t' key value compressed c w xs ch.large ch.small ch.len s more_left tk (
              write_loop-Stored u t key value compressed ch fuel tk.last tk.filled true c' w'
                tk.left (omega (arith, enough, more_left, ch.large))
                (Writing-link u t' key value compressed c w xs ch.large ch.small ch.len s more_left
                  tk)))
    ]
