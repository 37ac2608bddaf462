-- ===== src/Index/Table/Enact/Bounds.antt =====
-- Which chunk numbers a validated record can carry.
use blockchain_parity_db.Prelude.{ℕ, ◌+◌, ◌-◌, ◌*◌, ◌^◌, ◌≤◌, ◌<◌, ◌≡◌, ◌⊎◌, ◌∙◌, false, leb, arith}
use native.Mathlib.Nat.{pow-le-pow_right}
use blockchain_parity_db.Outcome.{ok}
use blockchain_parity_db.Index.TableId
use blockchain_parity_db.Index.Chunk.{chunk_len}
use blockchain_parity_db.Index.Entry.{chunk_index}
use blockchain_parity_db.Index.Entry.Prefix.{chunk_index-lt}
use blockchain_parity_db.Index.Entry.Fields.{shl_fits}
use blockchain_parity_db.Index.Table.{
  IndexTable, meta_size, total_chunks, total_entries, file_size, chunk_offset,
}
use blockchain_parity_db.Index.Table.Enact.{validate_plan, skip_plan}
use blockchain_parity_db.Log.Reader.{LogReader}

pub total_chunks_lem : (bits : ℕ) → bits ≤ 49 → total_chunks bits ≡ 2 ^ bits
unfolding total_chunks
total_chunks_lem bits h =
    shl_fits (64 - bits) bits 1 (omega arith) (omega arith)
      (pow-le-pow_right {n = 2} (omega arith) {i = 1} {j = 64 - bits} (omega arith))
    ∙ omega arith

-- In an index of at most 49 bits, the chunk that a 64-bit key prefix falls into begins behind the metadata
-- and ends in the file; and the chunks of two prefixes are the same or do not overlap.
pub chunk_offset-le-file_size :
    (bits kp other : ℕ)
    → 0 < bits
    → bits ≤ 49
    → kp < 2 ^ 64
    → (meta_size ≤ chunk_offset (chunk_index bits kp))
      × (chunk_offset (chunk_index bits kp) + chunk_len ≤ file_size bits)
      × ((chunk_index bits kp ≡ chunk_index bits other)
          ⊎ ((chunk_offset (chunk_index bits kp) + chunk_len
                ≤ chunk_offset (chunk_index bits other))
              ⊎ (chunk_offset (chunk_index bits other) + chunk_len
                  ≤ chunk_offset (chunk_index bits kp))))
unfolding chunk_offset file_size total_entries
chunk_offset-le-file_size bits kp other pos hb hkp =
    let h = chunk_index-lt bits kp pos hb hkp in
    let n = total_chunks_lem bits hb in
    (omega arith, omega (arith, h, n), apart (chunk_index bits kp) (chunk_index bits other))
  where
    apart :
        (i j : ℕ)
        → (i ≡ j)
          ⊎ ((meta_size + i * chunk_len + chunk_len ≤ meta_size + j * chunk_len)
              ⊎ (meta_size + j * chunk_len + chunk_len ≤ meta_size + i * chunk_len))
    apart i j = ground arith

-- `validate_plan` lets pass every chunk number from the number of chunks up to the number of entries,
-- 64 times as many, if the payload can be read; but such a chunk begins at the end of the file or
-- behind it, where `enact_plan` then writes.
pub validate_plan_beyond :
    (t : IndexTable) (index : ℕ) (r r' : LogReader)
    → total_chunks (TableId.index_bits t.id) ≤ index
    → index < total_entries (TableId.index_bits t.id)
    → skip_plan r ≡ ok r'
    → (validate_plan index t r ≡ ok r') × (file_size (TableId.index_bits t.id) ≤ chunk_offset index)
unfolding validate_plan
validate_plan_beyond t index r r' lo hi e = (
  rw (inside (total_entries (TableId.index_bits t.id)) hi) e,
  unfold chunk_offset file_size total_entries in omega arith,
)
  where
    inside : (n : ℕ) → index < n → leb n index ≡ false
    inside n h = ground arith
