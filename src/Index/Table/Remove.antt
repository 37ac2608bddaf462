-- ===== src/Index/Table/Remove.antt =====
-- What a removal from the index does.
use blockchain_parity_db.Prelude.{
  ℕ, zero, suc, ◌-◌, ◌*◌, ◌<◌, ◌≡◌, ◌≢◌, refl, ap, ◌∙◌, ◌⊎◌, inl, inr, true, false, some, take,
  drop, replicate, Bool-cases, Option-cases, arith,
}
use blockchain_parity_db.Bytes.{from_le, slice}
use blockchain_parity_db.Outcome.{ok}
use blockchain_parity_db.Index.Entry
use blockchain_parity_db.Index.Chunk.{Chunk, chunk_entries, empty_chunk, read_entry, holds_key}
use blockchain_parity_db.Index.Chunk.Entries.{IsChunk, read_entry-write_entry}
use blockchain_parity_db.Log.Overlay.{LogWriter, LogWriter_query}
use blockchain_parity_db.Index.Table.{
  IndexTable, Key, written, skipped, index_from_partial, current_chunk, put_entry,
  plan_remove_chunk, write_remove_plan,
}
use blockchain_parity_db.Index.Table.Insert.{
  bits_of, chunk_of, key_of, or_empty, source, current_chunk-put_entry_self,
  current_chunk-put_entry_ne,
}

drop-replicate : (i n : ℕ) → drop i (replicate n 0) ≡ replicate {A = ℕ} (n - i) 0
drop-replicate zero n = let e : n - zero ≡ n = omega arith in rw e
drop-replicate (suc i) zero = let e : zero - suc i ≡ 0 = omega arith in rw e
drop-replicate (suc i) (suc n) =
    let e : suc n - suc i ≡ n - i = omega arith in rw e (drop-replicate i n)

from_le-zeros : (k n : ℕ) → from_le (take k (replicate n 0)) ≡ 0
unfolding from_le
from_le-zeros zero n = refl
from_le-zeros (suc k) zero = refl
from_le-zeros (suc k) (suc n) = omega (arith, from_le-zeros k n)

pub read_entry-empty_chunk : (i : ℕ) → read_entry empty_chunk i ≡ 0
unfolding read_entry empty_chunk slice
read_entry-empty_chunk i =
    ap (λ xs. from_le (take 8 xs)) (drop-replicate (i * 8) 512) ∙ from_le-zeros 8 (512 - i * 8)

empty-holds : (bits key : ℕ) → holds_key bits key Entry.empty ≡ false
unfolding holds_key Entry.is_empty
empty-holds bits key = refl

-- The record `w'` differs from `w` in the entry at `i` of the key's chunk, which is empty now.
pub record IsCleared (t : IndexTable) (key : Key) (i : ℕ) (w w' : LogWriter) : Type 0 where
  pub cleared : read_entry (source t (chunk_of t key) w') i ≡ Entry.empty
  pub others :
      (j : ℕ)
      → i ≢ j
      → read_entry (source t (chunk_of t key) w') j ≡ read_entry (source t (chunk_of t key) w) j
  pub elsewhere :
      (index : ℕ) → chunk_of t key ≢ index → current_chunk t index w' ≡ current_chunk t index w

put_entry-IsCleared :
    (t : IndexTable) (key : Key) (i : ℕ) (w : LogWriter)
    → i < chunk_entries
    → IsChunk (source t (chunk_of t key) w)
    → IsCleared t key i w
        (put_entry t (chunk_of t key) Entry.empty i (source t (chunk_of t key) w) w)
put_entry-IsCleared t key i w place hc =
    let c = source t (chunk_of t key) w in
    let now = current_chunk-put_entry_self t (chunk_of t key) i Entry.empty c w in
    let read = λ (j : ℕ). read_entry-write_entry Entry.empty i j c place hc (omega arith) in
    record {
      cleared = ap (λ o. read_entry (or_empty o) i) now ∙ read i ∙ ground arith;
      others = λ j apart. ap (λ o. read_entry (or_empty o) j) now ∙ read j ∙ ground arith;
      elsewhere = λ index apart.
          current_chunk-put_entry_ne t (chunk_of t key) index i Entry.empty c w apart;
    }

-- A removal at a place below 64 empties the entry there and changes nothing else if the entry is in
-- use with the key's partial key; otherwise it answers `Skipped` and leaves the record as it is.
-- The chunk is 512 bytes long.
pub write_remove_plan_effect :
    (t : IndexTable) (key : Key) (i : ℕ) (w : LogWriter)
    → i < chunk_entries
    → IsChunk (source t (chunk_of t key) w)
    → let held =
        holds_key (bits_of t) (key_of t key) (read_entry (source t (chunk_of t key) w) i) in
      ((held ≡ true)
        × ((w' : LogWriter) × (write_remove_plan t key i w ≡ ok (written, w'))
            × IsCleared t key i w w'))
      ⊎ ((held ≡ false) × (write_remove_plan t key i w ≡ ok (skipped, w)))
write_remove_plan_effect t key i w place hc =
    elim (Option-cases (current_chunk t (chunk_of t key) w)) [
      | inl none_there ↦ inr (
        ap (λ o. holds_key (bits_of t) (key_of t key) (read_entry (or_empty o) i)) none_there
            ∙ rw (read_entry-empty_chunk i) (empty-holds (bits_of t) (key_of t key)),
        unfold write_remove_plan in rw (none_there, write_remove_plan),
      )
      | inr (c, there) ↦ elim (Bool-cases (holds_key (bits_of t) (key_of t key) (read_entry c i))) [
        | inl held ↦ inl (
          rw there held,
          (
            put_entry t (chunk_of t key) Entry.empty i (source t (chunk_of t key) w) w,
            plan c there ∙ rw there (chosen c (ground arith) held),
            put_entry-IsCleared t key i w place hc,
          ),
        )
        | inr free ↦ inr (rw there free, plan c there ∙ chosen_not c (ground arith) free)
      ]
    ]
  where
    plan :
        (c : Chunk)
        → current_chunk t (chunk_of t key) w ≡ some c
        → write_remove_plan t key i w ≡ plan_remove_chunk t (index_from_partial key) c i w
    plan c e = unfold write_remove_plan in rw (e, write_remove_plan)

    chosen :
        (c : Chunk)
        → i < chunk_entries
        → holds_key (bits_of t) (key_of t key) (read_entry c i) ≡ true
        → plan_remove_chunk t (index_from_partial key) c i w
          ≡ ok (written, put_entry t (chunk_of t key) Entry.empty i c w)
    chosen c h e = unfold plan_remove_chunk in ground arith

    chosen_not :
        (c : Chunk)
        → i < chunk_entries
        → holds_key (bits_of t) (key_of t key) (read_entry c i) ≡ false
        → plan_remove_chunk t (index_from_partial key) c i w ≡ ok (skipped, w)
    chosen_not c h e = unfold plan_remove_chunk in ground arith
