-- ===== src/Index/Address.antt =====
-- src/index.rs, `Address`: a slot of a value table, the size tier in the low eight bits.
use blockchain_parity_db.Prelude.{ℕ, ◌+◌, ◌-◌, ◌*◌, ◌/◌, ◌%◌, ◌^◌, ◌<◌, bit_and, bit_or, ◌≡◌, arith}
use blockchain_parity_db.Word.{shl, shr, bit_or_fields, bit_and_mask}

-- `Address(u64)`
abbrev pub Address : Type 0
Address = ℕ

abbrev pub size_tiers_bits : ℕ
size_tiers_bits = 8

unfoldable pub new : ℕ → ℕ → Address
new offset size_tier = bit_or (shl offset size_tiers_bits) size_tier

unfoldable pub offset : Address → ℕ
offset a = shr a size_tiers_bits

-- `as u8` keeps the low byte
unfoldable pub size_tier : Address → ℕ
size_tier a = bit_and a (shl 1 size_tiers_bits - 1) % 256

-- Below 2 ^ 56 offsets the address is a plain sum.
pub new_lem : (o t : ℕ) → o < 2 ^ 56 → t < 256 → new o t ≡ o * 256 + t
unfolding new shl
new_lem o t ho ht =
    let e : o * 256 % 2 ^ 64 ≡ o * 256 = omega arith in rw e (bit_or_fields 8 o t (omega arith))

pub offset_lem : (a : ℕ) → offset a ≡ a / 256
unfolding offset shr
offset_lem a = omega arith

pub size_tier_lem : (a : ℕ) → size_tier a ≡ a % 256
unfolding size_tier shl
size_tier_lem a = omega (arith, bit_and_mask 8 a)

-- `Address::new` loses nothing while the offset is below 2 ^ 56 and the tier is a byte: both are
-- read back, and the address is zero only for slot 0 of tier 0.
pub new_fields :
    (o t : ℕ)
    → o < 2 ^ 56
    → t < 256
    → (offset (new o t) ≡ o) × (size_tier (new o t) ≡ t) × (new o t ≡ 0 → (o ≡ 0) × (t ≡ 0))
new_fields o t ho ht =
    rw (offset_lem (new o t), size_tier_lem (new o t), new_lem o t ho ht)
      (omega arith, omega arith, λ z. (omega arith, omega arith))
