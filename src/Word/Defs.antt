-- ===== src/Word/Defs.antt =====
-- The shifts of `u64`, which the index and the value tables use.
use blockchain_parity_db.Prelude.{ℕ, ◌*◌, ◌/◌, ◌%◌, ◌^◌, ◌<◌}

abbrev pub IsU64 : ℕ → Type 0
IsU64 x = x < 2 ^ 64

-- `x << k`
unfoldable pub shl : ℕ → ℕ → ℕ
shl x k = x * 2 ^ (k % 64) % 2 ^ 64

-- `x >> k`
unfoldable pub shr : ℕ → ℕ → ℕ
shr x k = x / 2 ^ (k % 64)
