-- ===== src/Tests/Data.antt =====
-- A table of 16 index bits, a key, and records that change its pages.
use blockchain_parity_db.Prelude.{ℕ, ◌+◌, ◌%◌, ◌^◌, refl, none, [], ◌∷◌, arith}
use native.Mathlib.Nat.{mod-lt}
use blockchain_parity_db.Bytes.{Bytes}
use blockchain_parity_db.Index.Chunk.{Chunk, empty_chunk, write_entry}
use blockchain_parity_db.Index.Chunk.Entries.{IsChunk, write_entry-IsChunk}
use blockchain_parity_db.Index.Table.{IndexTable, Key}
use blockchain_parity_db.Log.Overlay.{IndexChange, LogOverlays, LogChange, LogWriter}
use blockchain_parity_db.Log.Reader.{Crc32}

-- Column 0, 16 bits; nothing has been enacted on it
abbrev pub table : IndexTable
table = record { id = 16; map = none }

abbrev pub key : Key
key = 0x12 ∷ 0x34 ∷ 0x56 ∷ 0x78 ∷ 0x9a ∷ 0xbc ∷ 0xde ∷ 0xf0 ∷ []

abbrev pub overlays : LogOverlays
overlays = record { index = []; value = []; last_record_id = [] }

abbrev pub writer : LogWriter
writer = record {
  overlays = overlays;
  log = record { local_index = []; local_values = []; record_id = 1; dropped_tables = [] };
}

-- A page with one entry, at place 3
abbrev pub page : Chunk
page = write_entry 7 3 empty_chunk

pub empty_chunk-IsChunk : IsChunk empty_chunk
unfolding empty_chunk
empty_chunk-IsChunk = refl

pub page-IsChunk : IsChunk page
page-IsChunk = write_entry-IsChunk 7 3 empty_chunk (omega arith) empty_chunk-IsChunk

abbrev pub change : IndexChange
change = record { record_id = 1; modified_mask = 8; chunk = page }

abbrev pub log : LogChange
log = record {
  local_index = (16, (5, change) ∷ []) ∷ [];
  local_values = [];
  record_id = 1;
  dropped_tables = 15 ∷ [];
}

-- A checksum that is no good one
abbrev sum : Bytes → ℕ
sum [] = 0
sum (b ∷ bs) = b + sum bs

instance abbrev pub sum_crc : Crc32
sum_crc = record {
  checksum = λ bs. sum bs % 2 ^ 32;
  checksum-lt = λ bs. mod-lt (sum bs) (omega arith);
}
