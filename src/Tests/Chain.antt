-- ===== src/Tests/Chain.antt =====
-- A value of 100 bytes in slots of 48, of which one is free.
use blockchain_parity_db.Prelude.{
  ℕ, ◌≤◌, ◌≡◌, refl, true, false, none, List, [], ◌∷◌, replicate, length, arith,
}
use blockchain_parity_db.Bytes.{Bytes, blank, read_bytes, to_le, from_le, slice, splice}
use blockchain_parity_db.Outcome.{ok, ◌>>=◌}
use blockchain_parity_db.HashMap
use blockchain_parity_db.Log.Overlay.{
  LogWriter, LogWriter_query, LogOverlays_query, insert_value, writer_value, at_table, put_table,
  overlays_value, copy_min,
}
use blockchain_parity_db.Value.Entry
use blockchain_parity_db.Value.Key.{TableKey, partial, encoded_size, partial_key}
use blockchain_parity_db.Value.Table.{ValueTable, read_next_free, read_buf, fill_buf, next_in}
use blockchain_parity_db.Value.Table.FreeList.{tombstone_to, FreeList}
use blockchain_parity_db.Value.Parts.{get, size}
use blockchain_parity_db.Value.Parts.Sizes.{length_of, size-get}
use blockchain_parity_db.Value.Write.{write_insert_plan, ref_size, value_size, fits_slot}
use blockchain_parity_db.Value.Write.Loop.{IsChained}
use blockchain_parity_db.Value.Write.RoundTrip.{
  HasRoom, GetsBack, get-write_insert_plan_chain, get-write_insert_plan_fits,
}
use blockchain_parity_db.Tests.Data.{writer}

abbrev chained : ValueTable
chained = record {
  id = 5;
  entry_size = 48;
  file = none;
  filled = 4;
  last_removed = 2;
  dirty_header = false;
  multipart = true;
  ref_counted = true;
  db_version = 8;
}

abbrev some_key : TableKey
some_key = partial (replicate 32 1)

abbrev some_value : Bytes
some_value = replicate 100 9

abbrev removed_one : LogWriter
removed_one = insert_value 5 2 (tombstone_to 0) writer

abbrev one_free : List ℕ
one_free = 2 ∷ []

chained-IsChained : IsChained chained some_key
unfolding encoded_size partial_key
chained-IsChained = record {
  multi = refl;
  version = omega arith;
  large = omega arith;
  small = omega arith;
  len = refl;
}

removed_one-FreeList : FreeList blank chained removed_one 2 one_free
unfolding read_next_free read_buf fill_buf next_in writer_value insert_value copy_min at_table
    put_table overlays_value HashMap.get HashMap.insert HashMap.get_or_default Entry.read_next
    Entry.read_u64 Entry.read_slice Entry.skip_size Entry.new to_le from_le splice slice read_bytes
removed_one-FreeList = (refl, (λ e. omega (arith, e)), (0, refl, refl))

room_for :
    (value : Bytes) → length value ≤ 100 → HasRoom blank chained some_key value removed_one one_free
unfolding ref_size encoded_size
room_for value h = record {
  some_used = λ e. omega (arith, e);
  room = omega (arith, h);
  fresh = (omega arith, tt, tt);
  list = removed_one-FreeList;
}

get-write_insert_plan_chain_example :
    GetsBack blank 300 chained some_key some_value true removed_one one_free
      (write_insert_plan blank 200 chained some_key some_value removed_one true)
unfolding ref_size encoded_size
get-write_insert_plan_chain_example =
    get-write_insert_plan_chain blank 200 300 chained some_key some_value true removed_one one_free
      chained-IsChained (room_for some_value (omega arith)) (omega arith) (omega arith)

abbrev short_value : Bytes
short_value = 4 ∷ 5 ∷ 6 ∷ []

short_value-fits : fits_slot (length short_value) (value_size chained some_key) ≡ true
unfolding fits_slot value_size ref_size encoded_size
short_value-fits = refl

get-write_insert_plan_fits_example :
    GetsBack blank 1 chained some_key short_value false removed_one one_free
      (write_insert_plan blank 1 chained some_key short_value removed_one false)
get-write_insert_plan_fits_example =
    get-write_insert_plan_fits blank 1 1 chained some_key short_value false removed_one one_free
      (omega arith) (omega arith) (omega arith) chained-IsChained.len short_value-fits
      (room_for short_value (omega arith)) (omega arith) (omega arith)

size-get_example :
    size blank 9 chained some_key 2 removed_one
    ≡ (get blank 9 chained some_key 2 removed_one >>= (λ v. ok (length_of v)))
size-get_example = size-get blank 9 chained some_key 2 removed_one
