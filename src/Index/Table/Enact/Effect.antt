-- ===== src/Index/Table/Enact/Effect.antt =====
-- What the map holds after a change has been enacted, entry by entry.
use blockchain_parity_db.Prelude.{
  ℕ, ◌+◌, ◌*◌, ◌^◌, ◌≤◌, ◌<◌, ◌≡◌, ◌≢◌, refl, sym, ap, ◌∙◌, ◌⊎◌, inl, inr, false, Bool, some, List,
  [], ◌∷◌, ◌++◌, ◌||◌, length, ◌==◌, if◌then◌else◌, arith,
}
use blockchain_parity_db.Bytes.{
  Bytes, Memory, from_le, slice, read_bytes, write_bytes, read_bytes-write_bytes_self,
  read_bytes-write_bytes_apart, slice-read_bytes,
}
use blockchain_parity_db.Outcome.{ok}
use blockchain_parity_db.Word.{mask_bits}
use blockchain_parity_db.Index.Chunk.{Chunk, chunk_entries, chunk_len, read_entry}
use blockchain_parity_db.Index.Chunk.Entries.{IsChunk}
use blockchain_parity_db.Index.Table.{IndexTable, chunk_offset, chunk_at}
use blockchain_parity_db.Index.Table.Enact.{enact_plan, or_blank}
use blockchain_parity_db.Index.Table.Enact.Payload.{
  AllBelow, write_masked, length-entry, mask_bits-AllBelow, enact_plan-index_payload,
}
use blockchain_parity_db.Log.Overlay.{IndexChange}
use blockchain_parity_db.Log.Reader.{LogReader, advance}
use blockchain_parity_db.Log.Reader.Stands.{Stands}
use blockchain_parity_db.Log.Record.{index_payload}

-- Is `j` among the places?
abbrev pub elem : ℕ → List ℕ → Bool
elem j [] = false
elem j (i ∷ is) = i == j || elem j is

-- An entry of a chunk in the map is its own eight bytes there.
read_entry-chunk_at :
    (index j : ℕ) (m : Memory)
    → j < chunk_entries
    → read_entry (chunk_at index m) j ≡ from_le (read_bytes m (chunk_offset index + j * 8) 8)
unfolding read_entry chunk_at
read_entry-chunk_at index j m hj =
    ap from_le (slice-read_bytes m (j * 8) 8 (chunk_offset index) chunk_len (omega arith))

-- One entry written, another or the same read
one_written :
    (i j offset : ℕ) (bs : Bytes) (m : Memory)
    → length bs ≡ 8
    → read_bytes (write_bytes m (offset + i * 8) bs) (offset + j * 8) 8
      ≡ (if i == j then bs else read_bytes m (offset + j * 8) 8)
one_written i j offset bs m hl = ground (
  arith,
  λ (e : i ≡ j). same e,
  λ (h : j < i). apart (inl (omega arith)),
  λ (h : i < j). apart (inr (omega arith)),
)
  where
    same : i ≡ j → read_bytes (write_bytes m (offset + i * 8) bs) (offset + j * 8) 8 ≡ bs
    same e = rw (← e) (
        ap (λ n. read_bytes (write_bytes m (offset + i * 8) bs) (offset + i * 8) n) (sym hl)
        ∙ read_bytes-write_bytes_self m (offset + i * 8) bs)

    apart :
        (offset + j * 8 + 8 ≤ offset + i * 8) ⊎ (offset + i * 8 + length bs ≤ offset + j * 8)
        → read_bytes (write_bytes m (offset + i * 8) bs) (offset + j * 8) 8
          ≡ read_bytes m (offset + j * 8) 8
    apart h = read_bytes-write_bytes_apart m (offset + i * 8) bs (offset + j * 8) 8 h

write_masked-read :
    (is : List ℕ) (offset j : ℕ) (c : Chunk) (m : Memory)
    → AllBelow chunk_entries is
    → IsChunk c
    → read_bytes (write_masked is offset c m) (offset + j * 8) 8
      ≡ (if elem j is then slice (j * 8) 8 c else read_bytes m (offset + j * 8) 8)
write_masked-read [] offset j c m below hc = refl
write_masked-read (i ∷ is) offset j c m (hi, below) hc =
    write_masked-read is offset j c (write_bytes m (offset + i * 8) (slice (i * 8) 8 c)) below hc
    ∙ rw (one_written i j offset (slice (i * 8) 8 c) m (length-entry i c hi hc)) (ground arith)

write_masked-apart :
    (is : List ℕ) (offset from n : ℕ) (c : Chunk) (m : Memory)
    → AllBelow chunk_entries is
    → IsChunk c
    → (from + n ≤ offset) ⊎ (offset + chunk_len ≤ from)
    → read_bytes (write_masked is offset c m) from n ≡ read_bytes m from n
write_masked-apart [] offset from n c m below hc h = refl
write_masked-apart (i ∷ is) offset from n c m (hi, below) hc h =
    write_masked-apart is offset from n c (write_bytes m (offset + i * 8) (slice (i * 8) 8 c)) below
      hc h
    ∙ read_bytes-write_bytes_apart m (offset + i * 8) (slice (i * 8) 8 c) from n
        (beside h (length-entry i c hi hc))
  where
    beside :
        (from + n ≤ offset) ⊎ (offset + chunk_len ≤ from)
        → length (slice (i * 8) 8 c) ≡ 8
        → (from + n ≤ offset + i * 8) ⊎ (offset + i * 8 + length (slice (i * 8) 8 c) ≤ from)
    beside (inl k) e = inl (omega arith)
    beside (inr k) e = inr (omega arith)

-- Enacting the payload of a change gives a table whose map has, in the chunk, the entries of the
-- change at the places of its mask and the old ones at all other places, and every other chunk as
-- before; the reader is behind the payload. The mask has 64 bits, and the chunk 512 bytes.
pub enact_plan_effect :
    (index : ℕ) (t : IndexTable) (c : IndexChange) (rest : Bytes) {r : LogReader}
    → c.modified_mask < 2 ^ 64
    → IsChunk c.chunk
    → Stands r (index_payload c ++ rest)
    → (m : Memory) × (enact_plan index t r
        ≡ ok (record t { map = some m }, advance (index_payload c) r))
      × ((j : ℕ)
          → j < chunk_entries
          → read_entry (chunk_at index m) j ≡ (
              if elem j (mask_bits c.modified_mask)
              then read_entry c.chunk j
              else read_entry (chunk_at index (or_blank t.map)) j))
      × ((other : ℕ) → index ≢ other → chunk_at other m ≡ chunk_at other (or_blank t.map))
enact_plan_effect index t c rest hm hc st =
    let bits = mask_bits c.modified_mask in
    let m = write_masked bits (chunk_offset index) c.chunk (or_blank t.map) in
    let below = mask_bits-AllBelow c.modified_mask hm in
    (
      m,
      enact_plan-index_payload index t c rest hm hc st,
      λ j hj.
          read_entry-chunk_at index j m hj
          ∙ ap from_le
              (write_masked-read bits (chunk_offset index) j c.chunk (or_blank t.map) below hc)
          ∙ rw (read_entry-chunk_at index j (or_blank t.map) hj)
              (unfold read_entry in ground arith),
      λ other h.
          unfold chunk_at in
          write_masked-apart bits (chunk_offset index) (chunk_offset other) chunk_len c.chunk
            (or_blank t.map) below hc (chunks_apart index other h),
    )
  where
    chunks_apart :
        (a b : ℕ)
        → a ≢ b
        → (chunk_offset b + chunk_len ≤ chunk_offset a)
          ⊎ (chunk_offset a + chunk_len ≤ chunk_offset b)
    chunks_apart a b h = unfold chunk_offset in grind arith
