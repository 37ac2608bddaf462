-- ===== src/Index/Chunk/Entries.antt =====
-- Reading back what was written into a chunk.
use blockchain_parity_db.Prelude.{
  ℕ, ◌*◌, ◌<◌, ◌≡◌, ap, ◌∙◌, ◌⊎◌, inl, inr, length, if◌then◌else◌, ◌==◌, arith,
}
use blockchain_parity_db.Bytes.{
  to_le, from_le, length-to_le, from_le-to_le, slice-splice_self, slice-splice_before,
  slice-splice_after, length-splice,
}
use blockchain_parity_db.Word.{IsU64}
use blockchain_parity_db.Index.Chunk.{Chunk, chunk_len, chunk_entries, read_entry, write_entry}
use blockchain_parity_db.Index.Entry.{Entry}

abbrev pub IsChunk : Chunk → Type 0
IsChunk c = length c ≡ chunk_len

pub write_entry-IsChunk :
    (e : Entry) (i : ℕ) (c : Chunk) → i < chunk_entries → IsChunk c → IsChunk (write_entry e i c)
unfolding write_entry
write_entry-IsChunk e i c hi hc =
    length-splice (i * 8) (to_le 8 e) c (omega (arith, length-to_le 8 e)) ∙ hc

read_entry-write_entry_self :
    (e : Entry) (i : ℕ) (c : Chunk)
    → i < chunk_entries
    → IsChunk c
    → IsU64 e
    → read_entry (write_entry e i c) i ≡ e
unfolding read_entry write_entry
read_entry-write_entry_self e i c hi hc he =
    ap from_le
      (slice-splice_self (i * 8) 8 (to_le 8 e) c (omega (arith, length-to_le 8 e)) (omega arith))
    ∙ from_le-to_le 8 e he

read_entry-write_entry_ne :
    (e : Entry) (i j : ℕ) (c : Chunk)
    → (j < i) ⊎ (i < j)
    → read_entry (write_entry e i c) j ≡ read_entry c j
unfolding read_entry write_entry
read_entry-write_entry_ne e i j c (inl h) =
    ap from_le (slice-splice_before (i * 8) (j * 8) 8 (to_le 8 e) c (omega arith))
read_entry-write_entry_ne e i j c (inr h) =
    ap from_le
      (slice-splice_after (i * 8) (j * 8) 8 (to_le 8 e) c (omega (arith, length-to_le 8 e)))

-- After `write_entry` at a place of a 512-byte chunk, `read_entry` gives the entry there and what it
-- gave before at every other place.
pub read_entry-write_entry :
    (e : Entry) (i j : ℕ) (c : Chunk)
    → i < chunk_entries
    → IsChunk c
    → IsU64 e
    → read_entry (write_entry e i c) j ≡ (if i == j then e else read_entry c j)
read_entry-write_entry e i j c hi hc he = ground (
  arith,
  read_entry-write_entry_self e i c hi hc he,
  λ (h : j < i). read_entry-write_entry_ne e i j c (inl h),
  λ (h : i < j). read_entry-write_entry_ne e i j c (inr h),
)
