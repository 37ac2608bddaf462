-- ===== src/Value/Write/RoundTrip.antt =====
-- A value that `write_insert_plan` writes is what `get` reads.
use blockchain_parity_db.Prelude.{
  ℕ, zero, suc, ◌+◌, ◌-◌, ◌^◌, ◌≤◌, ◌<◌, ◌≡◌, ◌≢◌, refl, ◌∙◌, ◌⊎◌, inl, inr, Bool, true, false,
  ◌||◌, List, [], length, length-append, none, some, replicate, ltb, if◌then◌else◌, arith,
}
use blockchain_parity_db.Bytes.{Bytes, Memory, read_bytes, to_le, length-read_bytes}
use blockchain_parity_db.Outcome.{Result, ok}
use blockchain_parity_db.Log.Overlay.{LogWriter, LogWriter_query, writer_value}
use blockchain_parity_db.Value.Entry.{partial_size}
use blockchain_parity_db.Value.Key.{TableKey, encoded_size}
use blockchain_parity_db.Value.Table.{ValueTable}
use blockchain_parity_db.Value.Table.FreeList.{FreeList, IsOutside}
use blockchain_parity_db.Value.Table.Fresh.{IsFresh, counted, Taken, next_free-Taken}
use blockchain_parity_db.Value.Parts.{query, get, get_value, for_parts}
use blockchain_parity_db.Value.Parts.Slot.{IsTableKey, rc_bytes, key_bytes, meta_bytes}
use blockchain_parity_db.Value.Parts.Chain.{Chain, parts_loop-Chain}
use blockchain_parity_db.Value.Write.{
  Cursor, ref_size, value_size, fits_slot, write_loop, first_slot, overwrite_chain,
  write_insert_plan,
}
use blockchain_parity_db.Value.Write.Loop.{
  IsChained, Writing, Stored, write_last, write_loop-Stored, Chain-counted,
}

-- The bytes of a value with its counter and its key
abbrev pub total_len : ValueTable → TableKey → Bytes → ℕ
total_len t key value = length value + ref_size t + encoded_size key

-- `get` of the first slot of a chain
get-Chain :
    (u : Memory) (fuel : ℕ) (t : ValueTable) (key : TableKey) (compressed : Bool) (w : LogWriter)
    (index n : ℕ) (value : Bytes)
    → (t.multipart ≡ true) ⊎ (n ≡ 1)
    → 6 < t.db_version
    → IsTableKey key
    → t.entry_size ≤ 0x7ff8
    → Chain t key compressed w true index value n
    → n ≤ fuel
    → get u fuel t key index w ≡ ok (some (value, compressed))
unfolding get query for_parts get_value
get-Chain u fuel t key compressed w index n value multi version len small c enough =
    let found =
      parts_loop-Chain t key compressed w c multi version len small fuel enough
        (read_bytes u 0 0x8000) (length-read_bytes u 0 0x8000)
        (record { rc = 1; compressed = false; key = replicate partial_size 0; gathered = [] }) refl
        refl in
    rw found refl

first_cursor : ℕ → ℕ → Cursor
first_cursor slot total = record {
  index = slot;
  follow = false;
  remainder = total;
  offset = 0;
  start = 0;
}

length-counter : (b : Bool) → length (rc_bytes b) ≡ (if b then 4 else 0)
unfolding to_le
length-counter true = refl
length-counter false = refl

length-first_meta :
    (t : ValueTable) (key : TableKey)
    → IsTableKey key
    → length (meta_bytes t key true) ≡ ref_size t + encoded_size key
unfolding ref_size
length-first_meta t key len = omega (
  arith,
  length-append (rc_bytes t.ref_counted) (key_bytes key),
  len,
  length-counter t.ref_counted,
)

write_insert_plan-loop :
    (u : Memory) (fuel : ℕ) (t : ValueTable) (key : TableKey) (value : Bytes) (compressed : Bool)
    (w : LogWriter) (xs : List ℕ)
    → t.multipart || fits_slot (length value) (value_size t key) ≡ true
    → (tk : Taken u t w xs)
    → write_insert_plan u fuel t key value w compressed
      ≡ write_loop u fuel
          (counted t tk.last tk.filled true)
          key
          value
          compressed
          (first_cursor tk.slot (total_len t key value))
          w
unfolding write_insert_plan overwrite_chain first_slot first_cursor
write_insert_plan-loop u fuel t key value compressed w xs fits tk = rw (fits, tk.takes) refl

-- What a write gives back: the slot and the table, from which `get` reads the value with its flag. The
-- other slots in use stay as they were, and the free list is again one of distinct slots below `filled`.
abbrev pub GetsBack :
    Memory
    → ℕ
    → ValueTable
    → TableKey
    → Bytes
    → Bool
    → LogWriter
    → List ℕ
    → Result (ℕ × ValueTable × LogWriter)
    → Type 0
GetsBack u fuel t key value compressed w xs r =
    (index : ℕ) × (t' : ValueTable) × (w' : LogWriter) × (r ≡ ok (index, t', w'))
    × (get u fuel t' key index w' ≡ ok (some (value, compressed)))
    × (index ≤ t.filled)
    × ((j : ℕ)
        → j < t.filled
        → IsOutside j xs
        → (dest : Bytes) → writer_value w' t.id j dest ≡ writer_value w t.id j dest)
    × ((ys : List ℕ) × IsFresh t'.filled ys × FreeList u t' w' t'.last_removed ys)

-- What the slots of a table have to satisfy for a value to be written
pub record HasRoom (u : Memory) (t : ValueTable) (key : TableKey) (value : Bytes) (w : LogWriter)
    (xs : List ℕ) : Type 0 where
  pub some_used : t.filled ≢ 0
  pub room : t.filled + 1 + total_len t key value < 2 ^ 64
  pub fresh : IsFresh t.filled xs
  pub list : FreeList u t w t.last_removed xs

module _ (u : Memory) (t : ValueTable) (key : TableKey) (value : Bytes) (w : LogWriter)
    (xs : List ℕ) (len : IsTableKey key) (h : HasRoom u t key value w xs) where
  first-Taken : Taken u t w xs
  first-Taken = next_free-Taken u t w xs h.some_used (omega (arith, h.room)) h.fresh h.list

  first_Writing :
      (tk : Taken u t w xs)
      → Writing u
          (counted t tk.last tk.filled true)
          key
          value
          (first_cursor tk.slot (total_len t key value))
          w
          tk.left
  unfolding first_cursor
  first_Writing tk = record {
    new = refl;
    head = refl;
    inside = omega arith;
    rest = omega (arith, length-first_meta t key len);
    used = tk.used;
    below = tk.below;
    apart = tk.apart;
    room = omega (arith, h.room, tk.bound);
    fresh = tk.fresh;
    list = tk.list;
  }

Stored-GetsBack :
    (u : Memory) (fuel : ℕ) (t : ValueTable) (key : TableKey) (value : Bytes) (compressed : Bool)
    (w : LogWriter) (xs : List ℕ)
    → 6 < t.db_version
    → t.entry_size ≤ 0x7ff8
    → IsTableKey key
    → (tk : Taken u t w xs) → {r r' : Result (ℕ × ValueTable × LogWriter)} → r ≡ r'
    → (z : Stored u
        (counted t tk.last tk.filled true)
        key
        value
        compressed
        (first_cursor tk.slot (total_len t key value))
        w
        tk.left
        r')
    → (t.multipart ≡ true) ⊎ (z.slots ≡ 1)
    → z.slots ≤ fuel
    → GetsBack u fuel t key value compressed w xs r
unfolding first_cursor
Stored-GetsBack u fuel t key value compressed w xs version small len tk same z multi enough =
    let t' = counted t z.removed z.filled z.dirty in
    let chain : Chain t' key compressed z.after true tk.slot value z.slots =
      Chain-counted (counted t tk.last tk.filled true) key compressed z.after z.removed z.filled
        z.dirty z.chain in
    (
      tk.slot,
      t',
      z.after,
      same ∙ z.result,
      get-Chain u fuel t' key compressed z.after tk.slot z.slots value multi version len small chain
          enough,
      omega (arith, tk.below, tk.bound),
      (λ j small out.
          let (off, out') = tk.others j small out in
          z.others j (omega (arith, small, tk.grows)) out' off),
      (z.left, z.fresh, z.list),
    )

-- A value with its key and its counter, written to new slots of a multipart table, is what `get` reads at
-- the slot that `write_insert_plan` returns, with its flag, whatever its length and whatever the
-- uninitialised buffers hold: in one slot, or in a chain of slots from the free list and behind the last
-- one. The other slots in use stay as they were, and the free list is again one of distinct slots below
-- `filled`. The table is of a version after 6, its entries have 41 to 0x7ff8 bytes, the key is one of 32
-- bytes or none, the free list has distinct slots below `filled`, the slots that the value can take fit 64 bits, and
-- the fuel of both loops is more than the bytes that are written.
pub get-write_insert_plan_chain :
    (u : Memory) (fuel fuel' : ℕ) (t : ValueTable) (key : TableKey) (value : Bytes)
    (compressed : Bool) (w : LogWriter) (xs : List ℕ)
    → IsChained t key
    → HasRoom u t key value w xs
    → total_len t key value < fuel
    → total_len t key value < fuel'
    → GetsBack u fuel' t key value compressed w xs
        (write_insert_plan u fuel t key value w compressed)
unfolding first_cursor
get-write_insert_plan_chain u fuel fuel' t key value compressed w xs ch h enough enough' =
    let tk = first-Taken u t key value w xs ch.len h in
    let c = first_cursor tk.slot (total_len t key value) in
    let z =
      write_loop-Stored u t key value compressed ch fuel tk.last tk.filled true c w tk.left enough
        (first_Writing u t key value w xs ch.len h tk) in
    Stored-GetsBack u fuel' t key value compressed w xs ch.version ch.small ch.len tk
      (write_insert_plan-loop u fuel t key value compressed w xs (ground (arith, ch.multi)) tk) z
      (inl ch.multi) (omega (arith, z.few, enough'))

fits_slot_lem :
    (n base k : ℕ)
    → fits_slot n (if ltb base k then none else some (base - k)) ≡ true
    → n + k ≤ base
unfolding fits_slot
fits_slot_lem n base k fits = ground (arith, fits)

pub ref_size-bound : (t : ValueTable) → ref_size t ≤ 4
unfolding ref_size
ref_size-bound t = ground arith

value_size-fits :
    (t : ValueTable) (key : TableKey) (value : Bytes)
    → 32 ≤ t.entry_size
    → fits_slot (length value) (value_size t key) ≡ true
    → total_len t key value ≤ t.entry_size - 2
unfolding value_size
value_size-fits t key value large fits =
    let fit =
      fits_slot_lem (length value) (t.entry_size - 2 - ref_size t) (encoded_size key) fits in
    omega (arith, fit, large, ref_size-bound t)

-- A value that fits one slot with its key and its counter is what `get` reads at the slot that
-- `write_insert_plan` returns, with its flag, in a table with chains or without. The slot is the next
-- one behind the slots in use or one of the free list; the other slots in use stay as they were, and
-- the free list is again one of distinct slots below `filled`. The table is of a version after 6, its
-- entries have 32 to 0x7ff8 bytes, the key is one of 32 bytes or none, the free list has distinct
-- slots below `filled`, there is room in 64 bits, and both loops have fuel for one slot.
pub get-write_insert_plan_fits :
    (u : Memory) (fuel fuel' : ℕ) (t : ValueTable) (key : TableKey) (value : Bytes)
    (compressed : Bool) (w : LogWriter) (xs : List ℕ)
    → 6 < t.db_version
    → 32 ≤ t.entry_size
    → t.entry_size ≤ 0x7ff8
    → IsTableKey key
    → fits_slot (length value) (value_size t key) ≡ true
    → HasRoom u t key value w xs
    → 0 < fuel
    → 0 < fuel'
    → GetsBack u fuel' t key value compressed w xs
        (write_insert_plan u fuel t key value w compressed)
unfolding first_cursor
get-write_insert_plan_fits u zero fuel' t key value compressed w xs version large small len fits h
      enough enough' =
    absurd (omega arith)
get-write_insert_plan_fits u (suc fuel) fuel' t key value compressed w xs version large small len
      fits h enough enough' =
    let tk = first-Taken u t key value w xs len h in
    let t₁ = counted t tk.last tk.filled true in
    let c = first_cursor tk.slot (total_len t key value) in
    let (z, one) =
      write_last u t₁ key value compressed c w tk.left fuel small
        (first_Writing u t key value w xs len h tk) (value_size-fits t key value large fits) in
    Stored-GetsBack u fuel' t key value compressed w xs version small len tk
      (write_insert_plan-loop u (suc fuel) t key value compressed w xs (ground (arith, fits)) tk) z
      (inr one) (omega (arith, one, enough'))
