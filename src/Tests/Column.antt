-- ===== src/Tests/Column.antt =====
-- A column of two tiers, slots of 64 bytes and chains of slots of 4096.
use mathlib.Core.Option.{some-injective}
use blockchain_parity_db.Prelude.{
  ℕ, zero, suc, ◌-◌, ◌≤◌, ◌<◌, ◌^◌, ◌≡◌, refl, sym, ◌⊎◌, true, false, none, some, List, [], ◌∷◌,
  get_elem?, replicate, length, arith,
}
use blockchain_parity_db.Bytes.{Bytes, blank}
use blockchain_parity_db.Outcome.{ok}
use blockchain_parity_db.Index.Address.{Address}
use blockchain_parity_db.Log.Overlay.{LogWriter, LogWriter_query}
use blockchain_parity_db.Value.Key.{TableKey, partial, partial_key, encoded_size, check}
use blockchain_parity_db.Value.Table.{ValueTable}
use blockchain_parity_db.Value.Parts.Slot.{IsTableKey}
use blockchain_parity_db.Value.Write.{ref_size, value_size, fits_slot}
use blockchain_parity_db.Value.Write.RoundTrip.{HasRoom}
use blockchain_parity_db.Column.Compression.{
  Codecs, plain_codec, no_compression_at_all, compress, decompress, compressor,
}
use blockchain_parity_db.Column.Values.{
  compressed_value, first_tier, target_tier, get_value, write_new_value_plan,
}
use blockchain_parity_db.Column.{TablesRef}
use blockchain_parity_db.Column.Tiers.{NoneFits, Fits, target_tier_cases}
use blockchain_parity_db.Column.Stored.{IsTiers, IsCodec, get_value-write_new_value_plan}
use blockchain_parity_db.Tests.Data.{writer}

abbrev pub small_slots : ValueTable
small_slots = record {
  id = 0;
  entry_size = 64;
  file = none;
  filled = 1;
  last_removed = 0;
  dirty_header = false;
  multipart = false;
  ref_counted = false;
  db_version = 8;
}

abbrev blob_slots : ValueTable
blob_slots = record small_slots { id = 255; entry_size = 4096; multipart = true }

abbrev both_tables : TablesRef
both_tables = record {
  tables = small_slots ∷ blob_slots ∷ [];
  compression = no_compression_at_all;
  preimage = false;
  ref_counted = false;
}

abbrev a_key : TableKey
a_key = partial (replicate 32 3)

abbrev a_value : Bytes
a_value = replicate 50 7

abbrev plain_codecs : Codecs
plain_codecs = record { lz4_codec = plain_codec; snappy_codec = plain_codec }

plain-IsCodec : IsCodec plain_codecs no_compression_at_all
unfolding compress decompress compressor
plain-IsCodec value = refl

a_key-IsTableKey : IsTableKey a_key
unfolding encoded_size partial_key
a_key-IsTableKey = refl

both_tables-each :
    (i : ℕ) (t : ValueTable)
    → get_elem? (small_slots ∷ blob_slots ∷ []) i ≡ some t
    → (6 < t.db_version) × (32 ≤ t.entry_size) × (t.entry_size ≤ 0x7ff8)
both_tables-each zero t e =
    rw (sym (some-injective small_slots t e)) (omega arith, omega arith, omega arith)
both_tables-each (suc zero) t e =
    rw (sym (some-injective blob_slots t e)) (omega arith, omega arith, omega arith)
both_tables-each (suc (suc i)) t e = cc

both_tables-IsTiers : IsTiers (small_slots ∷ blob_slots ∷ [])
both_tables-IsTiers = record {
  some_tier = omega arith;
  few = omega arith;
  each = both_tables-each;
  blob = λ t e. rw (sym (some-injective blob_slots t e)) (refl, omega arith);
}

both_tables-HasRoom :
    (i : ℕ) (t : ValueTable)
    → get_elem? (small_slots ∷ blob_slots ∷ []) i ≡ some t
    → (t.filled < 2 ^ 56) × ((xs : List ℕ) × HasRoom blank t a_key a_value writer xs)
unfolding ref_size encoded_size
both_tables-HasRoom zero t e = rw (sym (some-injective small_slots t e)) (
  omega arith,
  ([], record { some_used = λ z. omega (arith, z); room = omega arith; fresh = tt; list = refl }),
)
both_tables-HasRoom (suc zero) t e = rw (sym (some-injective blob_slots t e)) (
  omega arith,
  ([], record { some_used = λ z. omega (arith, z); room = omega arith; fresh = tt; list = refl }),
)
both_tables-HasRoom (suc (suc i)) t e = cc

get_value-write_new_value_plan_example :
    (address : Address) × (tables : List ValueTable) × (w' : LogWriter) × (write_new_value_plan
        plain_codecs blank 100 a_key both_tables a_value writer
      ≡ ok (address, tables, w'))
    × (get_value plain_codecs blank 100
          (check a_key)
          address
          (record both_tables { tables = tables })
          w'
        ≡ ok (
            some (
              target_tier a_key
                  (length ((compressed_value plain_codecs no_compression_at_all a_value).0))
                  (small_slots ∷ blob_slots ∷ []),
              a_value,
            )))
get_value-write_new_value_plan_example =
    get_value-write_new_value_plan plain_codecs blank 100 a_key both_tables writer a_key-IsTableKey
      both_tables-IsTiers a_value plain-IsCodec both_tables-HasRoom (omega arith)

target_tier_cases_example :
    NoneFits a_key 50 (both_tables.tables) (target_tier a_key 50 (both_tables.tables))
    × (Fits a_key 50 (both_tables.tables) (target_tier a_key 50 (both_tables.tables))
        ⊎ ((target_tier a_key 50 (both_tables.tables) ≡ 2 - 1)
            × ((t : ValueTable) × (get_elem? (both_tables.tables) (2 - 1) ≡ some t))))
target_tier_cases_example = target_tier_cases a_key 50 (both_tables.tables) (omega arith)

-- 50 bytes and a key need the chain, 20 do not.
target_tier-runs :
    (target_tier a_key 50 (both_tables.tables) ≡ 1)
    × (target_tier a_key 20 (both_tables.tables) ≡ 0)
unfolding target_tier first_tier fits_slot value_size ref_size encoded_size
target_tier-runs = (refl, refl)
