-- ===== src/Tests/Value.antt =====
-- A value table of 32-byte slots, of which three are in use.
use blockchain_parity_db.Prelude.{
  ℕ, ◌+◌, ◌-◌, ◌≤◌, ◌<◌, ◌≡◌, ◌⊎◌, refl, true, false, none, some, List, [], ◌∷◌, ◌++◌, replicate,
  ◌==◌, if◌then◌else◌, arith,
}
use blockchain_parity_db.Bytes.{Bytes, blank, slice, from_le}
use blockchain_parity_db.Outcome.{ok}
use blockchain_parity_db.Log.Overlay.{LogWriter, insert_value}
use blockchain_parity_db.Value.Table.{
  locked_ref, read_at, ValueTable, next_free, clear_slot, complete_plan, refresh_metadata,
}
use blockchain_parity_db.Log.Reader.{LogReader, read, advance}
use blockchain_parity_db.Value.Entry.{new, is_tombstone, has_marker, read_size, read_slice}
use blockchain_parity_db.Value.Table.Enact.{read_slot, rest_size, enact_plan, read_at-enact_plan}
use blockchain_parity_db.Value.Table.Counter.{more, less, new_counter, new_counter_cases}
use blockchain_parity_db.Value.Table.FreeList.{FreeList, clear_slot-FreeList, next_free-FreeList}
use blockchain_parity_db.Value.Table.Metadata.{refresh_metadata-complete_plan}
use blockchain_parity_db.Tests.Data.{writer}

abbrev slots : ValueTable
slots = record {
  id = 0;
  entry_size = 32;
  file = none;
  filled = 4;
  last_removed = 0;
  dirty_header = true;
  multipart = false;
  ref_counted = false;
  db_version = 8;
}

abbrev none_free : List ℕ
none_free = []

clear_slot-FreeList_example :
    (t' : ValueTable) × (w' : LogWriter) × (clear_slot blank slots 3 writer ≡ ok (t', w'))
    × (t'.last_removed ≡ 3)
    × (t'.filled ≡ 4)
    × FreeList blank t' w' 3 (3 ∷ [])
clear_slot-FreeList_example =
    clear_slot-FreeList blank slots 3 writer [] (omega arith) (omega arith) tt refl

next_free-FreeList_example :
    (x : ℕ) × (t' : ValueTable) × (next_free blank slots writer ≡ ok (x, t'))
    × (((ys : List ℕ) × (none_free ≡ x ∷ ys)
          × (t'.filled ≡ 4)
          × FreeList blank t' writer t'.last_removed ys)
        ⊎ ((none_free ≡ []) × (x ≡ 4) × (t'.filled ≡ 4 + 1) × (t'.last_removed ≡ 0)))
next_free-FreeList_example = next_free-FreeList blank slots writer none_free (omega arith) refl

refresh_metadata-complete_plan_example :
    (header : Bytes) × (complete_plan slots writer
      ≡ (record slots { dirty_header = false }, insert_value 0 0 header writer))
    × (refresh_metadata (record slots { file = some (header ++ []) })
        ≡ ok (record slots {
          file = some (header ++ []);
          last_removed = 0;
          filled = if 4 == 0 then 1 else 4;
        }))
refresh_metadata-complete_plan_example =
    refresh_metadata-complete_plan slots writer [] refl (omega arith) (omega arith)

new_counter_cases_example :
    (((1 + 2 < locked_ref) × (new_counter 1 (more 2) ≡ some (1 + 2)))
      ⊎ ((locked_ref ≤ 1 + 2) × (new_counter 1 (more 2) ≡ some locked_ref)))
    × ((◌≡◌ {A = ℕ} 1 locked_ref) × (new_counter 1 (less 2) ≡ some locked_ref)
        ⊎ ((1 < locked_ref) × (2 < 1) × (new_counter 1 (less 2) ≡ some (1 - 2))
            ⊎ ((1 < locked_ref) × (1 ≤ 2) × (new_counter 1 (less 2) ≡ none))))
new_counter_cases_example = new_counter_cases 1 2 (omega arith)

-- Three bytes for the third slot of a table with room for five
abbrev logged : LogReader
logged = record {
  file = 3 ∷ 0 ∷ 7 ∷ 8 ∷ 9 ∷ [];
  position = 0;
  record_id = 1;
  read_bytes = 0;
  crc32 = [];
  validate = false;
  cleared = record { index = []; values = [] };
}

abbrev in_file : ValueTable
in_file = record slots { file = some (replicate 160 0) }

abbrev slot_read : LogReader
slot_read = record logged { position = 5; read_bytes = 5 }

reads_slot : read_slot 2 in_file logged ≡ ok (3 ∷ 0 ∷ 7 ∷ 8 ∷ 9 ∷ [], slot_read)
unfolding read_slot rest_size read slice from_le is_tombstone has_marker read_size read_slice new
    advance
reads_slot = refl

read_at-enact_plan_example :
    (t' : ValueTable) × (capacity' : ℕ) × (enact_plan 1 2 (in_file, 5) logged
      ≡ ok ((t', capacity'), slot_read))
    × (read_at t'.file 64 5 ≡ ok (3 ∷ 0 ∷ 7 ∷ 8 ∷ 9 ∷ []))
    × (2 < capacity')
read_at-enact_plan_example =
    read_at-enact_plan 0 2 5 in_file logged slot_read (3 ∷ 0 ∷ 7 ∷ 8 ∷ 9 ∷ []) reads_slot
      (omega arith) (omega arith) tt
