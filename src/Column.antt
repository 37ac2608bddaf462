-- ===== src/Column.antt =====
-- src/column.rs, `Column` and `HashColumn`: a column with its index tables and its value tables, one
-- for each size tier. The fuel of a search bounds the entries of a chunk that it tries and the slots
-- of a value.
pub mod Compression
pub mod Values
pub mod Tiers
pub mod Search
pub mod FirstMatch
pub mod Plan
pub mod Reindex
pub mod Stored
pub mod Open
use blockchain_parity_db.Prelude.{
  ℕ, zero, suc, ◌%◌, ◌^◌, bit_and, bit_or, ◌+◌, ◌-◌, ◌*◌, Bool, true, false, Option, none, some,
  List, [], ◌∷◌, get_elem?, length, take, leb, ltb, if◌then◌else◌,
}
use blockchain_parity_db.Bytes.{Bytes, slice}
use blockchain_parity_db.Outcome.{Result, ok, panic}
use blockchain_parity_db.Index.Table.{Key, IndexTable}
use blockchain_parity_db.Value.Table.{ValueTable}
use blockchain_parity_db.Column.Compression.{Compress}

abbrev pub min_index_bits : ℕ
min_index_bits = 16

abbrev pub max_reindex_batch : ℕ
max_reindex_batch = 8192

-- What the functions of `Column` are given of a column, with its value tables
pub record TablesRef : Type 0 where
  pub tables : List ValueTable
  pub compression : Compress
  pub preimage : Bool
  pub ref_counted : Bool

-- `tables`, `reindex` and the options of the column. The statistics are not kept.
pub record HashColumn : Type 0 where
  pub index : IndexTable
  pub value : List ValueTable
  pub queue : List IndexTable
  pub progress : ℕ
  pub preimage : Bool
  pub uniform_keys : Bool
  pub collect_stats : Bool
  pub ref_counted : Bool
  pub salt : Bytes
  pub compression : Compress
  pub db_version : ℕ

-- `as_ref`
unfoldable pub as_ref : HashColumn → TablesRef
as_ref c = record {
  tables = c.value;
  compression = c.compression;
  preimage = c.preimage;
  ref_counted = c.ref_counted;
}

abbrev pub found_table : Option ValueTable → Result ValueTable
found_table none = panic
found_table (some t) = ok t

-- `tables[tier]`
unfoldable pub table_at : ℕ → List ValueTable → Result ValueTable
table_at tier ts = found_table (get_elem? ts tier)

-- `a ^ b` of two bytes
unfoldable pub bit_xor : ℕ → ℕ → ℕ
bit_xor a b = bit_or a b - bit_and a b

-- `k[i] = key[i] ^ salt[i]`
unfoldable pub xor_bytes : Bytes → Bytes → Bytes
xor_bytes [] salt = []
xor_bytes (b ∷ bs) [] = []
xor_bytes (b ∷ bs) (s ∷ ss) = bit_xor b s ∷ xor_bytes bs ss

-- The key of 32 bytes: blake2b with the salt, or a hash that the user gives, of which shorter ones panic
module _ (blake2b : Bytes → Bytes → Bytes) where
  unfoldable pub hash_key : Bytes → Bytes → Bool → ℕ → Result Key
  hash_key key salt false db_version = ok (blake2b salt key)
  hash_key key salt true db_version =
      if ltb (length key) 32
      then panic
      else ok (if leb db_version 5 then take 32 key else xor_bytes (take 32 key) salt)
