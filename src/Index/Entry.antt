-- ===== src/Index/Entry.antt =====
-- src/index.rs, `Entry`, and `IndexTable::chunk_index` with `recover_key_prefix`: how a 64-bit key
-- prefix is split between the number of a chunk and the bits kept in an entry.
pub mod Fields
pub mod Prefix
use blockchain_parity_db.Prelude.{
  ℕ, ◌+◌, ◌-◌, ◌*◌, ◌/◌, ◌%◌, ◌^◌, ◌<◌, bit_and, bit_or, ◌≡◌, arith, Bool, ◌==◌,
}
use blockchain_parity_db.Word.{shl, shr}
use blockchain_parity_db.Index.Address.{Address, size_tiers_bits}

-- `Entry(u64)`
abbrev pub Entry : Type 0
Entry = ℕ

abbrev pub chunk_entries_bits : ℕ
chunk_entries_bits = 6

-- `ENTRY_LEN`, in bits
abbrev pub entry_len : ℕ
entry_len = 64

-- a `u8` sum
unfoldable pub address_bits : ℕ → ℕ
address_bits index_bits = (index_bits + chunk_entries_bits + size_tiers_bits) % 256

unfoldable pub new : Address → ℕ → ℕ → Entry
new address partial_key index_bits = bit_or (shl partial_key (address_bits index_bits)) address

unfoldable pub last_address : ℕ → ℕ
last_address index_bits = shl 1 (address_bits index_bits) - 1

unfoldable pub address : Entry → ℕ → Address
address e index_bits = bit_and e (last_address index_bits)

unfoldable pub partial_key : Entry → ℕ → ℕ
partial_key e index_bits = shr e (address_bits index_bits)

unfoldable pub extract_key : ℕ → ℕ → ℕ
extract_key key_prefix index_bits = shr (shl key_prefix index_bits) (address_bits index_bits)

unfoldable pub is_empty : Entry → Bool
is_empty e = e == 0

abbrev pub empty : Entry
empty = 0

-- `self.chunk_index(key_prefix)` of a table of `index_bits`
unfoldable pub chunk_index : ℕ → ℕ → ℕ
chunk_index index_bits key_prefix = shr key_prefix (entry_len - index_bits)

-- The first word of `recover_key_prefix`
unfoldable pub recover_prefix : ℕ → ℕ → Entry → ℕ
recover_prefix index_bits chunk entry =
    let k = 64 - address_bits index_bits in
    bit_or (shl chunk (64 - index_bits)) (shl (partial_key entry index_bits) (64 - k - index_bits))
