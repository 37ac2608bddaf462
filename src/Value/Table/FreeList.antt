-- ===== src/Value/Table/FreeList.antt =====
-- The free list of a value table: removed slots, each with the number of the next in its tombstone.
use blockchain_parity_db.Prelude.{
  ℕ, ◌+◌, ◌*◌, ◌%◌, ◌^◌, ◌<◌, ◌≡◌, ◌≢◌, refl, sym, ◌⊎◌, inl, inr, ap, ◌∙◌, true, false, Option,
  some, List, [], ◌∷◌, ◌++◌, ◌==◌, arith,
}
use blockchain_parity_db.Bytes.{
  Bytes, Memory, read_bytes, to_le, from_le, slice, splice, from_le-to_le,
}
use blockchain_parity_db.Outcome.{ok, ◌>>=◌}
use blockchain_parity_db.Log.Overlay.{LogWriter, writer_value, insert_value, copy_min}
use blockchain_parity_db.Log.Overlay.Queries.{value-insert_value}
use blockchain_parity_db.Value.Entry
use blockchain_parity_db.Value.Entry.{Entry, tombstone}
use blockchain_parity_db.Value.Table.{
  ValueTable, fill_buf, read_buf, next_in, read_next_free, next_free, clear_slot,
}

-- What a tombstone is in the log
abbrev pub tombstone_to : ℕ → Bytes
tombstone_to next = tombstone ++ to_le 8 next

-- The uninitialised bytes are all overwritten.
clear_slot_lem :
    (u : Memory) (t : ValueTable) (index : ℕ) (w : LogWriter)
    → clear_slot u t index w
      ≡ ok (
        record t { last_removed = index; dirty_header = true },
        insert_value t.id index (tombstone_to t.last_removed) w,
      )
unfolding clear_slot Entry.write_tombstone Entry.write_next Entry.write_u64 Entry.write_slice
    Entry.new read_bytes to_le splice
clear_slot_lem u t index w = refl

-- The number behind the marker of a tombstone
next_in-tombstone_to :
    (u : Memory) (next : ℕ)
    → next_in (Entry.new (copy_min (read_bytes u 0 10) (tombstone_to next)))
      ≡ ok (from_le (to_le 8 next))
unfolding next_in Entry.read_next Entry.read_u64 Entry.read_slice Entry.skip_size Entry.new copy_min
    read_bytes to_le splice slice
next_in-tombstone_to u next = refl

read_next_free_as :
    (u : Memory) (t : ValueTable) (index : ℕ) (w : LogWriter) {o : Option Bytes}
    → writer_value w t.id index (read_bytes u 0 10) ≡ o
    → read_next_free u t index w
      ≡ (fill_buf o 10 t.file (index * t.entry_size) (read_bytes u 0 10) >>= next_in)
unfolding read_next_free read_buf
read_next_free_as u t index w e =
    ap (λ o. fill_buf o 10 t.file (index * t.entry_size) (read_bytes u 0 10) >>= next_in) e

-- The slots of the free list, from `n` on
abbrev pub FreeList : Memory → ValueTable → LogWriter → ℕ → List ℕ → Type 0
FreeList u t w n [] = n ≡ 0
FreeList u t w n (x ∷ xs) =
    (n ≡ x) × (x ≢ 0) × ((next : ℕ) × (read_next_free u t x w ≡ ok next) × FreeList u t w next xs)

abbrev pub IsOutside : ℕ → List ℕ → Type 0
IsOutside n [] = Unit
IsOutside n (x ∷ xs) = (n ≢ x) × IsOutside n xs

-- A value written to another slot does not change what a slot holds.
read_next_free_apart :
    (u : Memory) (t : ValueTable) (index x last : ℕ) (entry : Bytes) (w : LogWriter)
    → index ≢ x
    → read_next_free u
        (record t { last_removed = last; dirty_header = true })
        x
        (insert_value t.id index entry w)
      ≡ read_next_free u t x w
read_next_free_apart u t index x last entry w apart =
    read_next_free_as u (record t { last_removed = last; dirty_header = true }) x
      (insert_value t.id index entry w) unchanged
    ∙ sym (read_next_free_as u t x w refl)
  where
    unchanged :
        writer_value (insert_value t.id index entry w) t.id x (read_bytes u 0 10)
        ≡ writer_value w t.id x (read_bytes u 0 10)
    unchanged = value-insert_value t.id index t.id x entry w (read_bytes u 0 10) ∙ ground arith

-- The slot that was cleared last leads to the one before.
read_next_free_cleared :
    (u : Memory) (t : ValueTable) (index : ℕ) (w : LogWriter)
    → t.last_removed < 2 ^ 64
    → read_next_free u
        (record t { last_removed = index; dirty_header = true })
        index
        (insert_value t.id index (tombstone_to t.last_removed) w)
      ≡ ok t.last_removed
unfolding fill_buf
read_next_free_cleared u t index w h =
    read_next_free_as u (record t { last_removed = index; dirty_header = true }) index
      (insert_value t.id index (tombstone_to t.last_removed) w) written
    ∙ next_in-tombstone_to u t.last_removed
    ∙ ap ok (from_le-to_le 8 t.last_removed h)
  where
    written :
        writer_value
          (insert_value t.id index (tombstone_to t.last_removed) w)
          t.id
          index
          (read_bytes u 0 10)
        ≡ some (copy_min (read_bytes u 0 10) (tombstone_to t.last_removed))
    written =
        value-insert_value t.id index t.id index (tombstone_to t.last_removed) w (read_bytes u 0 10)
        ∙ ground arith

pub FreeList-apart :
    (u : Memory) (t : ValueTable) (index last n : ℕ) (entry : Bytes) (w : LogWriter) (xs : List ℕ)
    → IsOutside index xs
    → FreeList u t w n xs
    → FreeList u
        (record t { last_removed = last; dirty_header = true })
        (insert_value t.id index entry w)
        n
        xs
FreeList-apart u t index last n entry w [] out l = l
FreeList-apart u t index last n entry w (x ∷ xs) (apart, out) (e, used, (next, reads, l)) = (
  e,
  used,
  (
    next,
    read_next_free_apart u t index x last entry w apart ∙ reads,
    FreeList-apart u t index last next entry w xs out l,
  ),
)

-- Clearing a slot that is not free, and not the header, puts it at the head of the free list, whatever
-- an uninitialised buffer holds. The number of the old head fits a word.
pub clear_slot-FreeList :
    (u : Memory) (t : ValueTable) (index : ℕ) (w : LogWriter) (xs : List ℕ)
    → index ≢ 0
    → t.last_removed < 2 ^ 64
    → IsOutside index xs
    → FreeList u t w t.last_removed xs
    → (t' : ValueTable) × (w' : LogWriter) × (clear_slot u t index w ≡ ok (t', w'))
      × (t'.last_removed ≡ index)
      × (t'.filled ≡ t.filled)
      × FreeList u t' w' index (index ∷ xs)
clear_slot-FreeList u t index w xs used h out l = (
  record t { last_removed = index; dirty_header = true },
  insert_value t.id index (tombstone_to t.last_removed) w,
  clear_slot_lem u t index w,
  refl,
  refl,
  (
    refl,
    used,
    (
      t.last_removed,
      read_next_free_cleared u t index w h,
      FreeList-apart u t index index t.last_removed (tombstone_to t.last_removed) w xs out l,
    ),
  ),
)

FreeList-head :
    (u : Memory) (t : ValueTable) (w : LogWriter) (n last : ℕ) (xs : List ℕ)
    → FreeList u t w n xs
    → FreeList u (record t { last_removed = last; dirty_header = true }) w n xs
FreeList-head u t w n last [] l = l
FreeList-head u t w n last (x ∷ xs) (e, used, (next, reads, l)) =
    (e, used, (next, unfold read_next_free read_buf in reads, FreeList-head u t w next last xs l))

-- `next_free` takes the head of the free list, if there is one: the rest of the list is free
-- afterwards, and no new slot is used. If the list is empty it takes the slot behind the last one, and
-- the list stays empty.
pub next_free-FreeList :
    (u : Memory) (t : ValueTable) (w : LogWriter) (xs : List ℕ)
    → t.filled + 1 < 2 ^ 64
    → FreeList u t w t.last_removed xs
    → (x : ℕ) × (t' : ValueTable) × (next_free u t w ≡ ok (x, t'))
      × (((ys : List ℕ) × (xs ≡ x ∷ ys)
            × (t'.filled ≡ t.filled)
            × FreeList u t' w t'.last_removed ys)
          ⊎ ((xs ≡ []) × (x ≡ t.filled) × (t'.filled ≡ t.filled + 1) × (t'.last_removed ≡ 0)))
unfolding next_free
next_free-FreeList u t w [] h l = (
  t.filled,
  record t { filled = (t.filled + 1) % 2 ^ 64; dirty_header = true },
  ground (arith, l),
  inr (refl, refl, omega arith, l),
)
next_free-FreeList u t w (x ∷ xs) h (e, used, (next, reads, l)) = (
  x,
  record t { last_removed = next; dirty_header = true },
  taken,
  inl (xs, refl, refl, FreeList-head u t w next next xs l),
)
  where
    there : t.last_removed == 0 ≡ false
    there = ground (arith, e, used)

    taken : next_free u t w ≡ ok (x, record t { last_removed = next; dirty_header = true })
    taken = rw there (
        rw (ap (λ k. read_next_free u t k w) e ∙ reads)
          (ap (λ k. ok (k, record t { last_removed = next; dirty_header = true })) e))
