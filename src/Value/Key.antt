-- ===== src/Value/Key.antt =====
-- src/table.rs, module `key`: the part of a key that a slot keeps, 26 of its 32 bytes, and what a
-- query does with it.
use blockchain_parity_db.Prelude.{
  ℕ, Bool, true, false, Option, none, some, drop, length, leb, if◌then◌else◌,
}
use blockchain_parity_db.Bytes.{Bytes}
use blockchain_parity_db.Outcome.{Result, ok, err, invalid_value_data, ◌>>=◌}
use blockchain_parity_db.Index.Table.{Key, index_from_partial}
use blockchain_parity_db.Value.Entry
use blockchain_parity_db.Value.Entry.{Entry, partial_size, same_bytes}

-- `&hash[6..]`
unfoldable pub partial_key : Key → Bytes
partial_key hash = drop 6 hash

pub data TableKey : Type 0 where
  partial : Key → TableKey
  no_hash : TableKey

-- What to do with the key of a slot: compare it, keep it, or neither
pub data TableKeyQuery : Type 0 where
  check : TableKey → TableKeyQuery
  fetch : TableKeyQuery
  fetch_none : TableKeyQuery

unfoldable pub encoded_size : TableKey → ℕ
encoded_size (partial k) = partial_size
encoded_size no_hash = 0

-- `TableKey::index`
unfoldable pub index : TableKey → Option ℕ
index (partial k) = some (index_from_partial k)
index no_hash = none

unfoldable pub compare_key : TableKey → Option Bytes → Bool
compare_key (partial k) (some fetched) = same_bytes (partial_key k) fetched
compare_key (partial k) none = false
compare_key no_hash fetched = true

unfoldable pub fetch_partial : Entry → Result (Bytes × Entry)
fetch_partial buf =
    if leb partial_size (length buf.bytes)
    then Entry.read_slice partial_size buf
    else err invalid_value_data

unfoldable pub fetch_key : TableKey → Entry → Result (Option Bytes × Entry)
fetch_key (partial k) buf = do (key, buf') ← fetch_partial buf; ok (some key, buf')
fetch_key no_hash buf = ok (none, buf)

-- `TableKey::write`
unfoldable pub write_key : TableKey → Entry → Result Entry
write_key (partial k) buf = Entry.write_slice (partial_key k) buf
write_key no_hash buf = ok buf
