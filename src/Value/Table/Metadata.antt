-- ===== src/Value/Table/Metadata.antt =====
-- The header of a value table, on its way through the log into the file and back.
use blockchain_parity_db.Prelude.{
  ◌^◌, ◌<◌, ◌≡◌, refl, ap, ap₂, ◌∙◌, true, false, some, ◌++◌, ◌==◌, if◌then◌else◌, arith,
}
use blockchain_parity_db.Bytes.{Bytes, to_le, from_le, slice, splice, from_le-to_le}
use blockchain_parity_db.Outcome.{ok}
use blockchain_parity_db.Log.Overlay.{LogWriter, insert_value}
use blockchain_parity_db.Value.Table.{
  ValueTable, read_at, header_last_removed, header_filled, set_last_removed, set_filled,
  blank_header, complete_plan, set_metadata, refresh_metadata,
}

-- The header that `complete_plan` writes
abbrev pub header_of : ValueTable → Bytes
header_of t = set_filled t.filled (set_last_removed t.last_removed blank_header)

read_header :
    (t : ValueTable) (rest : Bytes) → read_at (some (header_of t ++ rest)) 0 16 ≡ ok (header_of t)
unfolding read_at set_filled set_last_removed to_le splice slice
read_header t rest = ground arith

last_removed-header :
    (t : ValueTable) → header_last_removed (header_of t) ≡ from_le (to_le 8 t.last_removed)
unfolding header_last_removed set_filled set_last_removed to_le splice slice
last_removed-header t = refl

filled-header : (t : ValueTable) → header_filled (header_of t) ≡ from_le (to_le 8 t.filled)
unfolding header_filled set_filled set_last_removed to_le splice slice
filled-header t = refl

-- A table whose header has changed puts it into the record, as page 0, and a table of the same kind
-- whose file begins with that page finds there the same list of free slots and the same number of
-- slots in use, at least one. Both numbers are words of 64 bits.
pub refresh_metadata-complete_plan :
    (t : ValueTable) (w : LogWriter) (rest : Bytes)
    → t.dirty_header ≡ true
    → t.last_removed < 2 ^ 64
    → t.filled < 2 ^ 64
    → (header : Bytes) × (complete_plan t w
        ≡ (record t { dirty_header = false }, insert_value t.id 0 header w))
      × (refresh_metadata (record t { file = some (header ++ rest) })
          ≡ ok (record t {
            file = some (header ++ rest);
            last_removed = t.last_removed;
            filled = if t.filled == 0 then 1 else t.filled;
          }))
unfolding complete_plan refresh_metadata set_metadata
refresh_metadata-complete_plan t w rest dirty hl hf = (
  header_of t,
  ap
      (λ b.
        if b
        then (record t { dirty_header = false }, insert_value t.id 0 (header_of t) w)
        else (t, w))
      dirty,
  rw (read_header t rest) (
      ap₂
        (λ l f. ok (record t {
          file = some (header_of t ++ rest);
          last_removed = l;
          filled = if f == 0 then 1 else f;
        }))
        (last_removed-header t ∙ from_le-to_le 8 t.last_removed hl)
        (filled-header t ∙ from_le-to_le 8 t.filled hf)),
)
