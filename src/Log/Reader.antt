-- ===== src/Log/Reader.antt =====
-- src/log.rs, `LogReader`: the log file read record by record. The file is a list of bytes with a
-- position; `next` reads the head of an action and `read` the bytes of its payload. Both feed the
-- checksum while the reader validates.
pub mod Stands
pub mod Moved
use blockchain_parity_db.Prelude.{
  ℕ, ◌+◌, ◌-◌, ◌^◌, ◌<◌, Bool, true, false, List, [], ◌∷◌, ◌++◌, length, ltb, ◌==◌, if◌then◌else◌,
}
use blockchain_parity_db.Bytes.{Bytes, from_le, slice}
use blockchain_parity_db.Outcome.{Result, ok, err, io, unexpected_eof, corruption, assert, ◌>>=◌}
use blockchain_parity_db.Index.TableId.{TableId}

-- `crc32fast`: a hasher is the bytes that it was given, and this is the checksum of them.
pub record Crc32 : Type 0 where
  pub checksum : Bytes → ℕ
  pub checksum-lt : (bs : Bytes) → checksum bs < 2 ^ 32

abbrev pub begin_record_tag : ℕ
begin_record_tag = 1

abbrev pub insert_index_tag : ℕ
insert_index_tag = 2

abbrev pub insert_value_tag : ℕ
insert_value_tag = 3

abbrev pub end_record_tag : ℕ
end_record_tag = 4

abbrev pub drop_table_tag : ℕ
drop_table_tag = 5

pub data LogAction : Type 0 where
  begin_record : LogAction
  insert_index : TableId → ℕ → LogAction
  insert_value : TableId → ℕ → LogAction
  drop_table : TableId → LogAction
  end_record : LogAction

pub record Cleared : Type 0 where
  pub index : List (TableId × ℕ)
  pub values : List (TableId × ℕ)

pub record LogReader : Type 0 where
  pub file : Bytes
  pub position : ℕ
  pub record_id : ℕ
  pub read_bytes : ℕ
  pub crc32 : Bytes
  pub validate : Bool
  pub cleared : Cleared

-- `LogReader::new` over a file that stands at `position`
unfoldable pub new : Bytes → ℕ → Bool → LogReader
new file position validate = record {
  file = file;
  position = position;
  record_id = 0;
  read_bytes = 0;
  crc32 = [];
  validate = validate;
  cleared = record { index = []; values = [] };
}

-- `seek(Current(-read_bytes))`
unfoldable pub reset : LogReader → LogReader
reset r = record {
  file = r.file;
  position = r.position - r.read_bytes;
  record_id = 0;
  read_bytes = 0;
  crc32 = [];
  validate = r.validate;
  cleared = record { index = []; values = [] };
}

-- The reader after `n` bytes more
unfoldable pub advance : Bytes → LogReader → LogReader
advance bs r = record r {
  position = r.position + length bs;
  read_bytes = r.read_bytes + length bs;
  crc32 = if r.validate then r.crc32 ++ bs else r.crc32;
}

-- `read`, and the closure `read_buf` of `next`
unfoldable pub read : ℕ → LogReader → Result (Bytes × LogReader)
read n r =
    if ltb (length r.file) (r.position + n)
    then err (io unexpected_eof)
    else ok (slice r.position n r.file, advance (slice r.position n r.file) r)

-- The checksum itself is not fed to the checksum.
unfoldable pub read_unchecked : ℕ → LogReader → Result (Bytes × LogReader)
read_unchecked n r =
    if ltb (length r.file) (r.position + n)
    then err (io unexpected_eof)
    else ok (
      slice r.position n r.file,
      record r { position = r.position + n; read_bytes = r.read_bytes + n },
    )

unfoldable pub read_word : ℕ → LogReader → Result (ℕ × LogReader)
read_word n r = do (bs, r') ← read n r; ok (from_le bs, r')

unfoldable pub next_begin : LogReader → Result (LogAction × LogReader)
next_begin r = do (id, r') ← read_word 8 r; ok (begin_record, record r' { record_id = id })

unfoldable pub next_index : LogReader → Result (LogAction × LogReader)
next_index r = do
  (table, r₁) ← read_word 2 r
  (index, r₂) ← read_word 8 r₁
  ok (
    insert_index table index,
    record r₂ { cleared = record (r₂.cleared) { index = r₂.cleared.index ++ (table, index) ∷ [] } },
  )

unfoldable pub next_value : LogReader → Result (LogAction × LogReader)
next_value r = do
  (table, r₁) ← read_word 2 r
  (index, r₂) ← read_word 8 r₁
  ok (
    insert_value table index,
    record r₂ {
      cleared = record (r₂.cleared) { values = r₂.cleared.values ++ (table, index) ∷ [] };
    },
  )

unfoldable pub next_drop : LogReader → Result (LogAction × LogReader)
next_drop r = do (table, r') ← read_word 2 r; ok (drop_table table, r')

module _ ⦃crc : Crc32⦄ where
  -- A validating reader takes its hasher, and starts a new one.
  unfoldable pub next_end : LogReader → Result (LogAction × LogReader)
  next_end r = do
    (bs, r') ← read_unchecked 4 r
    if r.validate
        then (if from_le bs == crc.checksum r'.crc32
            then ok (end_record, record r' { crc32 = [] })
            else err (corruption "Log record CRC-32 mismatch"))
        else ok (end_record, r')

  unfoldable pub next_by_tag : ℕ → LogReader → Result (LogAction × LogReader)
  next_by_tag tag r =
      if tag == begin_record_tag
      then next_begin r
      else if tag == insert_index_tag
      then next_index r
      else if tag == insert_value_tag
      then next_value r
      else if tag == end_record_tag
      then next_end r
      else if tag == drop_table_tag
      then next_drop r
      else err (corruption "Bad log entry type")

  unfoldable pub next : LogReader → Result (LogAction × LogReader)
  next r = do (tag, r') ← read_word 1 r; next_by_tag tag r'
