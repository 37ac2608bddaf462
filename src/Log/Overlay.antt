-- ===== src/Log/Overlay.antt =====
-- src/log.rs: the pages that a record under way has changed (`LogChange`, `LogWriter`) and those
-- that earlier records have changed and nobody has applied yet (`LogOverlays`). A query goes
-- through both.
pub mod Queries
use blockchain_parity_db.Prelude.{
  ℕ, ◌+◌, ◌-◌, ◌^◌, bit_or, Bool, Option, none, some, List, [], ◌∷◌, ◌++◌, length, take, ◌≡◌, refl,
}
use mathlib.Core.Option
use blockchain_parity_db.Bytes.{Bytes, splice}
use blockchain_parity_db.HashMap
use blockchain_parity_db.HashMap.{HashMap}
use blockchain_parity_db.Index.Chunk.{Chunk}
use blockchain_parity_db.Index.TableId
use blockchain_parity_db.Index.TableId.{TableId}
use blockchain_parity_db.Word.{shl}

-- `(record_id, modified_mask, entry)`
pub record IndexChange : Type 0 where
  pub record_id : ℕ
  pub modified_mask : ℕ
  pub chunk : Chunk

-- `(record_id, entry)`
pub record ValueChange : Type 0 where
  pub record_id : ℕ
  pub entry : Bytes

abbrev pub IndexLogOverlay : Type 0
IndexLogOverlay = HashMap IndexChange

abbrev pub ValueLogOverlay : Type 0
ValueLogOverlay = HashMap ValueChange

pub record LogOverlays : Type 0 where
  pub index : HashMap IndexLogOverlay
  pub value : HashMap ValueLogOverlay
  pub last_record_id : HashMap ℕ

pub record LogChange : Type 0 where
  pub local_index : HashMap IndexLogOverlay
  pub local_values : HashMap ValueLogOverlay
  pub record_id : ℕ
  pub dropped_tables : List TableId

pub record LogWriter : Type 0 where
  pub overlays : LogOverlays
  pub log : LogChange

-- The entry at `index` of the table `table`, in a map of maps
unfoldable pub at_table {ℓ} : {A : Type ℓ} → HashMap (HashMap A) → ℕ → ℕ → Option A
at_table m table index = HashMap.get index (HashMap.get_or_default [] table m)

-- `m.entry(table).or_default().map.insert(index, a)`
unfoldable pub put_table {ℓ} : {A : Type ℓ} → ℕ → ℕ → A → HashMap (HashMap A) → HashMap (HashMap A)
put_table table index a m =
    HashMap.insert table (HashMap.insert index a (HashMap.get_or_default [] table m)) m

-- `trait LogQuery`: what the index and the value tables ask of a log. `with_index` returns the
-- chunk that the source hands to its closure; `value` takes what is in `dest` before, and returns
-- what is in it after, if it answers `true`.
pub record LogQuery (L : Type 0) : Type 0 where
  pub with_index : L → TableId → ℕ → Option Chunk
  pub value : L → TableId → ℕ → Bytes → Option Bytes

-- `dest[0..len].copy_from_slice(&d[0..len])` with `len` the smaller length
unfoldable pub copy_min : Bytes → Bytes → Bytes
copy_min dest d = splice 0 (take (length dest) d) dest

unfoldable pub overlays_with_index : LogOverlays → TableId → ℕ → Option Chunk
overlays_with_index s table index =
    Option.map (λ (c : IndexChange). c.chunk) (at_table s.index table index)

unfoldable pub overlays_value : LogOverlays → TableId → ℕ → Bytes → Option Bytes
overlays_value s table index dest =
    Option.map (λ (c : ValueChange). copy_min dest c.entry) (at_table s.value table index)

instance abbrev pub LogOverlays_query : LogQuery LogOverlays
LogOverlays_query = record { with_index = overlays_with_index; value = overlays_value }

unfoldable pub last_record_id : LogOverlays → ℕ → ℕ
last_record_id s col = HashMap.get_or_default (2 ^ 64 - 1) col s.last_record_id

-- `LogChange::new`
unfoldable pub new_change : ℕ → LogChange
new_change record_id = record {
  local_index = [];
  local_values = [];
  record_id = record_id;
  dropped_tables = [];
}

-- `LogWriter::new`
unfoldable pub new_writer : LogOverlays → ℕ → LogWriter
new_writer overlays record_id = record { overlays = overlays; log = new_change record_id }

unfoldable pub mask_of : Option IndexChange → ℕ
mask_of none = 0
mask_of (some c) = c.modified_mask

-- The mask grows by the entry that changed; the chunk is replaced.
unfoldable pub changed_index : TableId → ℕ → ℕ → Chunk → LogWriter → IndexChange
changed_index table index sub chunk w = record {
  record_id = w.log.record_id;
  modified_mask = bit_or (mask_of (at_table w.log.local_index table index)) (shl 1 sub);
  chunk = chunk;
}

unfoldable pub insert_index : TableId → ℕ → ℕ → Chunk → LogWriter → LogWriter
insert_index table index sub chunk w = record w {
  log = record (w.log) {
    local_index = put_table table index (changed_index table index sub chunk w) w.log.local_index;
  };
}

unfoldable pub insert_value : TableId → ℕ → Bytes → LogWriter → LogWriter
insert_value table index entry w = record w {
  log = record (w.log) {
    local_values =
        put_table table index (record { record_id = w.log.record_id; entry = entry })
          w.log.local_values;
  };
}

unfoldable pub drop_table : TableId → LogWriter → LogWriter
drop_table id w = record w {
  log = record (w.log) { dropped_tables = w.log.dropped_tables ++ id ∷ [] };
}

unfoldable pub writer_with_index : LogWriter → TableId → ℕ → Option Chunk
writer_with_index w table index = elim (at_table w.log.local_index table index) [
  | some c ↦ some c.chunk
  | none ↦ overlays_with_index w.overlays table index
]

unfoldable pub writer_value : LogWriter → TableId → ℕ → Bytes → Option Bytes
writer_value w table index dest = elim (at_table w.log.local_values table index) [
  | some c ↦ some (copy_min dest c.entry)
  | none ↦ overlays_value w.overlays table index dest
]

instance abbrev pub LogWriter_query : LogQuery LogWriter
LogWriter_query = record { with_index = writer_with_index; value = writer_value }
