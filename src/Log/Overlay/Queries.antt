-- ===== src/Log/Overlay/Queries.antt =====
-- What a query of the log returns after a change.
use blockchain_parity_db.Prelude.{ℕ, ◌≡◌, refl, some, [], arith, ◌==◌, ◌&&◌, if◌then◌else◌}
use blockchain_parity_db.Bytes.{Bytes}
use blockchain_parity_db.HashMap
use blockchain_parity_db.HashMap.{HashMap, get-insert}
use blockchain_parity_db.Index.Chunk.{Chunk}
use blockchain_parity_db.Log.Overlay.{
  LogWriter, at_table, put_table, changed_index, insert_index, insert_value, writer_with_index,
  writer_value, copy_min,
}

-- An entry put into one table of a map of maps is found there, and all others stay.
pub at_table-put_table {ℓ} :
    {A : Type ℓ} (t i t' i' : ℕ) (a : A) (m : HashMap (HashMap A))
    → at_table (put_table t i a m) t' i' ≡ (if t == t' && i == i' then some a else at_table m t' i')
unfolding at_table put_table HashMap.get_or_default
at_table-put_table t i t' i' a m = ground (
  arith,
  get-insert t t' (HashMap.insert i a (HashMap.or_value [] (HashMap.get t m))) m,
  get-insert i i' a (HashMap.or_value [] (HashMap.get t m)),
)

-- A record sees the chunk that it changed last, and every other chunk as before.
pub with_index-insert_index :
    (t i sub t' i' : ℕ) (chunk : Chunk) (w : LogWriter)
    → writer_with_index (insert_index t i sub chunk w) t' i'
      ≡ (if t == t' && i == i' then some chunk else writer_with_index w t' i')
unfolding writer_with_index insert_index changed_index
with_index-insert_index t i sub t' i' chunk w =
    ground (arith, at_table-put_table t i t' i' (changed_index t i sub chunk w) w.log.local_index)

pub value-insert_index :
    (t i sub t' i' : ℕ) (chunk : Chunk) (w : LogWriter) (dest : Bytes)
    → writer_value (insert_index t i sub chunk w) t' i' dest ≡ writer_value w t' i' dest
unfolding writer_value insert_index
value-insert_index t i sub t' i' chunk w dest = refl

-- A record sees the value that it wrote last, as far as it fits the buffer, and every other value as
-- before.
pub value-insert_value :
    (t i t' i' : ℕ) (entry : Bytes) (w : LogWriter) (dest : Bytes)
    → writer_value (insert_value t i entry w) t' i' dest
      ≡ (if t == t' && i == i' then some (copy_min dest entry) else writer_value w t' i' dest)
unfolding writer_value insert_value
value-insert_value t i t' i' entry w dest = ground (
  arith,
  at_table-put_table t i t' i' (record { record_id = w.log.record_id; entry = entry })
      w.log.local_values,
)

pub with_index-insert_value :
    (t i t' i' : ℕ) (entry : Bytes) (w : LogWriter)
    → writer_with_index (insert_value t i entry w) t' i' ≡ writer_with_index w t' i'
unfolding writer_with_index insert_value
with_index-insert_value t i t' i' entry w = refl
