-- ===== src/Index/Table/Enact.antt =====
-- src/index.rs: `enact_plan`, `validate_plan` and `skip_plan`, which read the payload of an
-- `INSERT_INDEX` action from the log. An error on the way ends the reading; what has been written
-- to the map by then is not part of the outcome.
pub mod Payload
pub mod Effect
pub mod Bounds
use blockchain_parity_db.Prelude.{
  ℕ, ◌+◌, ◌*◌, ◌%◌, Option, none, some, List, [], ◌∷◌, leb, if◌then◌else◌,
}
use blockchain_parity_db.Bytes.{Bytes, Memory, blank, write_bytes}
use blockchain_parity_db.Outcome.{Result, ok, err, corruption, ◌>>=◌}
use blockchain_parity_db.Word.{mask_bits}
use blockchain_parity_db.Index.Chunk.{entry_bytes}
use blockchain_parity_db.Index.TableId
use blockchain_parity_db.Index.Table.{IndexTable, chunk_offset, total_entries}
use blockchain_parity_db.Log.Reader.{LogReader, read, read_word}

-- `while mask != 0` of `enact_plan`
unfoldable pub enact_entries : List ℕ → ℕ → Memory → LogReader → Result (Memory × LogReader)
enact_entries [] offset m r = ok (m, r)
enact_entries (i ∷ is) offset m r = do
  (bs, r') ← read entry_bytes r
  enact_entries is offset (write_bytes m (offset + i * entry_bytes) bs) r'

-- A new file is filled with zeros by `set_len`.
abbrev pub or_blank : Option Memory → Memory
or_blank none = blank
or_blank (some m) = m

unfoldable pub enact_plan : ℕ → IndexTable → LogReader → Result (IndexTable × LogReader)
enact_plan index t r = do
  (mask, r₁) ← read_word 8 r
  (m, r₂) ← enact_entries (mask_bits mask) (chunk_offset index) (or_blank t.map) r₁
  ok (record t { map = some m }, r₂)

-- `while mask != 0` of `validate_plan` and `skip_plan`
unfoldable pub skip_entries : List ℕ → LogReader → Result LogReader
skip_entries [] r = ok r
skip_entries (i ∷ is) r = do (bs, r') ← read 8 r; skip_entries is r'

unfoldable pub skip_plan : LogReader → Result LogReader
skip_plan r = do (mask, r₁) ← read_word 8 r; skip_entries (mask_bits mask) r₁

unfoldable pub validate_plan : ℕ → IndexTable → LogReader → Result LogReader
validate_plan index t r =
    if leb (total_entries (TableId.index_bits t.id)) index
    then err (corruption "Bad index")
    else skip_plan r
