-- ===== src/Index/TableId.antt =====
-- src/index.rs and src/table.rs, `TableId`: a column and an eight-bit number, the index bits of an
-- index table or the size tier of a value table, packed into a `u16`.
use blockchain_parity_db.Prelude.{ℕ, ◌+◌, ◌*◌, ◌/◌, ◌%◌, ◌^◌, ◌<◌, bit_and, bit_or, ◌≡◌, arith}
use blockchain_parity_db.Word.{bit_or_fields, bit_and_mask}

-- `TableId(u16)`
abbrev pub TableId : Type 0
TableId = ℕ

-- `((col as u16) << 8) | low as u16`
unfoldable pub new : ℕ → ℕ → TableId
new col low = bit_or (col * 2 ^ 8 % 2 ^ 16) low

unfoldable pub col : TableId → ℕ
col id = id / 2 ^ 8 % 2 ^ 8

unfoldable pub index_bits : TableId → ℕ
index_bits id = bit_and id 0xff % 2 ^ 8

-- The same byte of a value table's id
unfoldable pub size_tier : TableId → ℕ
size_tier id = bit_and id 0xff % 2 ^ 8

pub index_bits_lem : (id : ℕ) → index_bits id ≡ id % 256
unfolding index_bits
index_bits_lem id = omega (arith, bit_and_mask 8 id)

pub new_lem : (c b : ℕ) → c < 256 → b < 256 → new c b ≡ c * 256 + b
unfolding new
new_lem c b hc hb =
    let e : c * 256 % 2 ^ 16 ≡ c * 256 = omega arith in rw e (bit_or_fields 8 c b (omega arith))
