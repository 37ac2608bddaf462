-- ===== src/Index/Chunk.antt =====
-- src/index.rs: a page of the index, 64 entries of eight bytes each, and the search in it.
pub mod Entries
pub mod Search
use blockchain_parity_db.Prelude.{
  ℕ, zero, suc, ◌+◌, ◌-◌, ◌*◌, Bool, not, ◌&&◌, List, [], ◌∷◌, replicate, ◌==◌, if◌then◌else◌,
}
use blockchain_parity_db.Bytes.{Bytes, to_le, from_le, slice, splice}
use blockchain_parity_db.Index.Entry.{Entry, is_empty, empty, partial_key, extract_key}

-- `[u8; CHUNK_LEN]`
abbrev pub Chunk : Type 0
Chunk = Bytes

abbrev pub chunk_entries : ℕ
chunk_entries = 64

abbrev pub entry_bytes : ℕ
entry_bytes = 8

abbrev pub chunk_len : ℕ
chunk_len = 512

unfoldable pub empty_chunk : Chunk
empty_chunk = replicate chunk_len 0

-- `chunk[at * 8..at * 8 + 8]`
unfoldable pub read_entry : Chunk → ℕ → Entry
read_entry chunk at = from_le (slice (at * 8) 8 chunk)

unfoldable pub write_entry : Entry → ℕ → Chunk → Chunk
write_entry entry at chunk = splice (at * 8) (to_le 8 entry) chunk

-- `transmute_chunk`: the entries from `at` on
unfoldable pub entries_from : ℕ → ℕ → Chunk → List Entry
entries_from zero at chunk = []
entries_from (suc n) at chunk = read_entry chunk at ∷ entries_from n (at + 1) chunk

unfoldable pub transmute_chunk : Chunk → List Entry
transmute_chunk chunk = entries_from chunk_entries 0 chunk

-- The test of the loops in `find_entry` and in `plan_remove_chunk`
unfoldable pub holds_key : ℕ → ℕ → Entry → Bool
holds_key index_bits key entry = not (is_empty entry) && partial_key entry index_bits == key

-- `for i in at..at + n` of `find_entry`
unfoldable pub find_from : ℕ → ℕ → ℕ → ℕ → Chunk → Entry × ℕ
find_from index_bits key zero at chunk = (empty, 0)
find_from index_bits key (suc n) at chunk =
    let rest = find_from index_bits key n (at + 1) chunk in
    let entry = read_entry chunk at in if holds_key index_bits key entry then (entry, at) else rest

unfoldable pub find_entry : ℕ → ℕ → ℕ → Chunk → Entry × ℕ
find_entry index_bits key_prefix sub_index chunk =
    find_from index_bits (extract_key key_prefix index_bits) (chunk_entries - sub_index) sub_index
      chunk
