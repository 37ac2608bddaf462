-- ===== src/Value/Entry.antt =====
-- src/table.rs, `Entry`: a slot of a value table as a buffer with a cursor. A slice that leaves the
-- buffer panics.
pub mod Cursor
use blockchain_parity_db.Prelude.{
  ℕ, ◌+◌, bit_and, bit_or, Bool, true, false, ◌&&◌, ◌||◌, [], ◌∷◌, length, ltb, leb, ◌==◌,
  if◌then◌else◌,
}
use blockchain_parity_db.Bytes.{Bytes, to_le, from_le, slice, splice}
use blockchain_parity_db.Outcome.{Result, ok, panic, ◌>>=◌}

pub record Entry : Type 0 where
  pub offset : ℕ
  pub bytes : Bytes

abbrev pub refs_size : ℕ
refs_size = 4

abbrev pub size_size : ℕ
size_size = 2

abbrev pub index_size : ℕ
index_size = 8

abbrev pub partial_size : ℕ
partial_size = 26

abbrev pub compressed_mask : ℕ
compressed_mask = 0x8000

abbrev pub tombstone : Bytes
tombstone = 0xff ∷ 0xff ∷ []

abbrev pub multipart_v4 : Bytes
multipart_v4 = 0xff ∷ 0xfe ∷ []

abbrev pub multihead_v4 : Bytes
multihead_v4 = 0xff ∷ 0xfd ∷ []

abbrev pub multipart : Bytes
multipart = 0xfe ∷ 0xff ∷ []

abbrev pub multihead : Bytes
multihead = 0xfd ∷ 0xff ∷ []

abbrev pub multihead_compressed : Bytes
multihead_compressed = 0xfd ∷ 0x7f ∷ []

abbrev pub same_bytes : Bytes → Bytes → Bool
same_bytes [] [] = true
same_bytes [] (c ∷ cs) = false
same_bytes (b ∷ bs) [] = false
same_bytes (b ∷ bs) (c ∷ cs) = b == c && same_bytes bs cs

unfoldable pub new : Bytes → Entry
new buf = record { offset = 0; bytes = buf }

unfoldable pub set_offset : ℕ → Entry → Entry
set_offset n e = record e { offset = n }

unfoldable pub write_slice : Bytes → Entry → Result Entry
write_slice buf e =
    if ltb (length e.bytes) (e.offset + length buf)
    then panic
    else ok (record { offset = e.offset + length buf; bytes = splice e.offset buf e.bytes })

unfoldable pub read_slice : ℕ → Entry → Result (Bytes × Entry)
read_slice size e =
    if ltb (length e.bytes) (e.offset + size)
    then panic
    else ok (slice e.offset size e.bytes, record e { offset = e.offset + size })

-- The marker is the first two bytes; the buffers have more.
unfoldable pub has_marker : Bytes → Entry → Bool
has_marker marker e = same_bytes (slice 0 size_size e.bytes) marker

unfoldable pub is_tombstone : Entry → Bool
is_tombstone = has_marker tombstone

unfoldable pub is_multipart : Entry → Bool
is_multipart = has_marker multipart

unfoldable pub is_multihead_compressed : Entry → Bool
is_multihead_compressed = has_marker multihead_compressed

unfoldable pub is_multihead : Entry → Bool
is_multihead e = is_multihead_compressed e || has_marker multihead e

unfoldable pub is_multi : ℕ → Entry → Bool
is_multi db_version e =
    (is_multipart e || is_multihead e)
    || leb db_version 4 && (has_marker multipart_v4 e || has_marker multihead_v4 e)

unfoldable pub write_tombstone : Entry → Result Entry
write_tombstone = write_slice tombstone

-- The size, and whether the value is compressed
unfoldable pub read_size : Entry → Result ((ℕ × Bool) × Entry)
read_size e = do
  (bs, e') ← read_slice size_size e
  let size = from_le bs
  ok ((bit_and size 0x7fff, ltb 0 (bit_and size compressed_mask)), e')

unfoldable pub skip_size : Entry → Entry
skip_size e = record e { offset = e.offset + size_size }

unfoldable pub write_size : ℕ → Bool → Entry → Result Entry
write_size size compressed =
    write_slice (to_le 2 (if compressed then bit_or compressed_mask size else size))

unfoldable pub read_u64 : Entry → Result (ℕ × Entry)
read_u64 e = do (bs, e') ← read_slice 8 e; ok (from_le bs, e')

unfoldable pub read_next : Entry → Result (ℕ × Entry)
read_next = read_u64

unfoldable pub skip_next : Entry → Entry
skip_next e = record e { offset = e.offset + 8 }

unfoldable pub write_u64 : ℕ → Entry → Result Entry
write_u64 next_index = write_slice (to_le 8 next_index)

unfoldable pub write_next : ℕ → Entry → Result Entry
write_next = write_u64

unfoldable pub read_rc : Entry → Result (ℕ × Entry)
read_rc e = do (bs, e') ← read_slice refs_size e; ok (from_le bs, e')

unfoldable pub write_rc : ℕ → Entry → Result Entry
write_rc rc = write_slice (to_le 4 rc)
