-- ===== src/Value/Table/Open.antt =====
-- src/table.rs and src/file.rs, `ValueTable::open` and `TableFile::open`, on the bytes of the file, if it is there.
use blockchain_parity_db.Prelude.{
  ℕ, ◌*◌, ◌/◌, ◌≤◌, ◌≡◌, refl, arith, ◌||◌, Bool, true, false, Option, none, some, [], ◌∷◌,
  replicate, leb, ltb,
}
use blockchain_parity_db.Bytes.{Bytes}
use blockchain_parity_db.Outcome.{Result, ok, assert, bind_ok, ◌>>=◌}
use blockchain_parity_db.Index.TableId.{TableId}
use blockchain_parity_db.Value.Table.{ValueTable, read_at, set_metadata}

abbrev pub grow_size_bytes : ℕ
grow_size_bytes = 256 * 1024

abbrev pub min_entry_size : ℕ
min_entry_size = 32

abbrev pub max_entry_size : ℕ
max_entry_size = 0x7ff8

-- An empty file is extended to its capacity.
unfoldable pub preallocate : ℕ → Option Bytes → Option Bytes
preallocate entry_size none = none
preallocate entry_size (some []) = some (replicate (grow_size_bytes / entry_size * entry_size) 0)
preallocate entry_size (some (b ∷ bs)) = some (b ∷ bs)

-- The table without its header
unfoldable pub blank_table : TableId → ℕ → Bool → Bool → ℕ → Option Bytes → ValueTable
blank_table id entry_size multipart ref_counted db_version file = record {
  id = id;
  entry_size = entry_size;
  file = preallocate entry_size file;
  filled = 1;
  last_removed = 0;
  dirty_header = false;
  multipart = multipart;
  ref_counted = ref_counted;
  db_version = db_version;
}

unfoldable pub with_header : Option Bytes → ValueTable → Result ValueTable
with_header none t = ok t
with_header (some file) t = do h ← read_at (some file) 0 16; ok (set_metadata h t)

-- A table without an entry size has chains of slots of 4096 bytes.
unfoldable pub open_sized : TableId → ℕ → Bool → Bool → ℕ → Option Bytes → Result ValueTable
open_sized id entry_size multipart ref_counted db_version file =
    assert (leb min_entry_size entry_size) (
      assert (ltb db_version 4 || leb entry_size max_entry_size) (
        with_header (preallocate entry_size file)
          (blank_table id entry_size multipart ref_counted db_version file)))

unfoldable pub open_value_table : TableId → Option ℕ → Bool → ℕ → Option Bytes → Result ValueTable
open_value_table id (some entry_size) ref_counted db_version file =
    open_sized id entry_size false ref_counted db_version file
open_value_table id none ref_counted db_version file =
    open_sized id 4096 true ref_counted db_version file

-- What an opened table is: of the size and the version that it was opened with
pub record IsOpened (t : ValueTable) (entry_size : ℕ) (multipart : Bool) (db_version : ℕ)
    : Type 0 where
  pub sized : t.entry_size ≡ entry_size
  pub chained : t.multipart ≡ multipart
  pub version : t.db_version ≡ db_version
  pub least : min_entry_size ≤ entry_size
  pub most : 4 ≤ db_version → entry_size ≤ max_entry_size

with_header-fields :
    (file : Option Bytes) (t t' : ValueTable)
    → with_header file t ≡ ok t'
    → (t'.entry_size ≡ t.entry_size) × (t'.multipart ≡ t.multipart) × (t'.db_version ≡ t.db_version)
unfolding with_header set_metadata
with_header-fields none t t' e = (cc, cc, cc)
with_header-fields (some file) t t' e =
    let (h, got, same) = bind_ok (read_at (some file) 0 16) (λ h. ok (set_metadata h t)) e in
    (cc, cc, cc)

assert-ok :
    {A : Type 0} (b : Bool) (r : Result A) {a : A} → assert b r ≡ ok a → (b ≡ true) × (r ≡ ok a)
assert-ok true r e = (refl, e)
assert-ok false r e = cc

open_sized-IsOpened :
    (id : TableId) (entry_size : ℕ) (multipart ref_counted : Bool) (db_version : ℕ)
    (file : Option Bytes) (t : ValueTable)
    → open_sized id entry_size multipart ref_counted db_version file ≡ ok t
    → IsOpened t entry_size multipart db_version
unfolding open_sized blank_table
open_sized-IsOpened id entry_size multipart ref_counted db_version file t e =
    let new = blank_table id entry_size multipart ref_counted db_version file in
    let opened = with_header (preallocate entry_size file) new in
    let small = ltb db_version 4 || leb entry_size max_entry_size in
    let (least, e₁) = assert-ok (leb min_entry_size entry_size) (assert small opened) e in
    let (most, e₂) = assert-ok small opened e₁ in
    let (sized, chained, version) = with_header-fields (preallocate entry_size file) new t e₂ in
    record {
      sized = sized;
      chained = chained;
      version = version;
      least = ground (arith, least);
      most = λ recent. ground (arith, most, recent);
    }

abbrev pub size_or_blob : Option ℕ → ℕ
size_or_blob none = 4096
size_or_blob (some entry_size) = entry_size

abbrev pub is_blob : Option ℕ → Bool
is_blob none = true
is_blob (some entry_size) = false

pub open_value_table-IsOpened :
    (id : TableId) (size : Option ℕ) (ref_counted : Bool) (db_version : ℕ) (file : Option Bytes)
    (t : ValueTable)
    → open_value_table id size ref_counted db_version file ≡ ok t
    → IsOpened t (size_or_blob size) (is_blob size) db_version
unfolding open_value_table
open_value_table-IsOpened id (some entry_size) ref_counted db_version file t e =
    open_sized-IsOpened id entry_size false ref_counted db_version file t e
open_value_table-IsOpened id none ref_counted db_version file t e =
    open_sized-IsOpened id 4096 true ref_counted db_version file t e
