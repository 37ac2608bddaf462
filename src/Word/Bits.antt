-- ===== src/Word/Bits.antt =====
-- `|` of disjoint fields is a sum, and `&` with a mask of low ones is a remainder, at every width.
use Prim.Native.Nat.{digits, bit_and-bitwise, bit_or-bitwise, max}
use native.Mathlib.Nat.{pow-suc, one-le-pow, mul_comm, div-div-eq-div-mul}
use blockchain_parity_db.Prelude.{
  ℕ, zero, suc, ◌+◌, ◌-◌, ◌*◌, ◌/◌, ◌%◌, ◌^◌, ◌≤◌, ◌<◌, min, bit_and, bit_or, ◌≡◌, refl, ap, ◌∙◌,
  arith,
}

-- The definitions that the native operations stand for, with a free count of digits.
abbrev and_fuel : ℕ → ℕ → ℕ → ℕ
and_fuel n a b = digits (λ b. zero) min n a b

abbrev or_fuel : ℕ → ℕ → ℕ → ℕ
or_fuel n a b = digits (λ b. b) max n a b

and_fuel-irrelevant : (n m a b : ℕ) → a ≤ n → a ≤ m → and_fuel n a b ≡ and_fuel m a b
and_fuel-irrelevant zero zero a b p q = refl
and_fuel-irrelevant zero (suc m) zero b p q = refl
and_fuel-irrelevant zero (suc m) (suc a) b p q = absurd (omega arith)
and_fuel-irrelevant (suc n) zero zero b p q = refl
and_fuel-irrelevant (suc n) zero (suc a) b p q = absurd (omega arith)
and_fuel-irrelevant (suc n) (suc m) zero b p q = refl
and_fuel-irrelevant (suc n) (suc m) (suc a) b p q =
    omega (arith, and_fuel-irrelevant n m (suc a / 2) (b / 2) (omega arith) (omega arith))

or_fuel-irrelevant : (n m a b : ℕ) → a ≤ n → a ≤ m → or_fuel n a b ≡ or_fuel m a b
or_fuel-irrelevant zero zero a b p q = refl
or_fuel-irrelevant zero (suc m) zero b p q = refl
or_fuel-irrelevant zero (suc m) (suc a) b p q = absurd (omega arith)
or_fuel-irrelevant (suc n) zero zero b p q = refl
or_fuel-irrelevant (suc n) zero (suc a) b p q = absurd (omega arith)
or_fuel-irrelevant (suc n) (suc m) zero b p q = refl
or_fuel-irrelevant (suc n) (suc m) (suc a) b p q =
    omega (arith, or_fuel-irrelevant n m (suc a / 2) (b / 2) (omega arith) (omega arith))

zero-bit_and : (b : ℕ) → bit_and 0 b ≡ 0
zero-bit_and b = bit_and-bitwise 0 b

zero-bit_or : (b : ℕ) → bit_or 0 b ≡ b
zero-bit_or b = bit_or-bitwise 0 b

pub and_step : (a b : ℕ) → bit_and a b ≡ bit_and (a / 2) (b / 2) * 2 + min (a % 2) (b % 2)
and_step zero b = omega (arith, zero-bit_and b, zero-bit_and (b / 2))
and_step (suc a) b = omega (
  arith,
  bit_and-bitwise (suc a) b,
  bit_and-bitwise (suc a / 2) (b / 2),
  and_fuel-irrelevant a (suc a / 2) (suc a / 2) (b / 2) (omega arith) (omega arith),
)

or_step : (a b : ℕ) → bit_or a b ≡ bit_or (a / 2) (b / 2) * 2 + max (a % 2) (b % 2)
or_step zero b = omega (arith, zero-bit_or b, zero-bit_or (b / 2))
or_step (suc a) b = omega (
  arith,
  bit_or-bitwise (suc a) b,
  bit_or-bitwise (suc a / 2) (b / 2),
  or_fuel-irrelevant a (suc a / 2) (suc a / 2) (b / 2) (omega arith) (omega arith),
)

and-zero_below : (n a : ℕ) → a ≤ n → bit_and a 0 ≡ 0
and-zero_below n zero h = zero-bit_and 0
and-zero_below zero (suc a) h = absurd (omega arith)
and-zero_below (suc n) (suc a) h =
    omega (arith, and_step (suc a) 0, and-zero_below n (suc a / 2) (omega arith))

or-zero_below : (n a : ℕ) → a ≤ n → bit_or a 0 ≡ a
or-zero_below n zero h = zero-bit_or 0
or-zero_below zero (suc a) h = absurd (omega arith)
or-zero_below (suc n) (suc a) h =
    omega (arith, or_step (suc a) 0, or-zero_below n (suc a / 2) (omega arith))

double_shift : (q k : ℕ) → q * 2 ^ suc k ≡ 2 * (q * 2 ^ k)
double_shift q k = omega (arith, ap (λ (t : ℕ). q * t) (pow-suc 2 k))

-- `(q << k) | r`, where `r` has at most `k` bits.
pub bit_or_fields : (k q r : ℕ) → r < 2 ^ k → bit_or (q * 2 ^ k) r ≡ q * 2 ^ k + r
bit_or_fields zero q r fits =
    let z : r ≡ 0 = omega arith in ground (arith, z, or-zero_below (q * 1) (q * 1))
bit_or_fields (suc k) q r fits = ground (
  arith,
  pow-suc 2 k,
  or_step (q * 2 ^ suc k) r,
  double_shift q k,
  bit_or_fields k q (r / 2) (omega (arith, pow-suc 2 k)),
)

and_fields : (k q r : ℕ) → r < 2 ^ k → bit_and (q * 2 ^ k + r) (2 ^ k - 1) ≡ r
and_fields zero q r fits = ground (arith, and-zero_below (q * 1 + r) (q * 1 + r))
and_fields (suc k) q r fits = ground (
  arith,
  and_step (q * 2 ^ suc k + r) (2 ^ suc k - 1),
  double_shift q k,
  pow-suc 2 k,
  one-le-pow k 2,
  and_fields k q (r / 2) (omega (arith, pow-suc 2 k)),
)

-- `a & ((1 << k) - 1)`
pub bit_and_mask : (k a : ℕ) → bit_and a (2 ^ k - 1) ≡ a % 2 ^ k
bit_and_mask k a = ground (arith, one-le-pow k 2, and_fields k (a / 2 ^ k) (a % 2 ^ k))

-- `a & (1 << k)`
pub bit_and_bit : (k a : ℕ) → bit_and a (2 ^ k) ≡ a / 2 ^ k % 2 * 2 ^ k
bit_and_bit zero a = bit_and_mask 1 a ∙ omega arith
bit_and_bit (suc k) a = rw (pow-suc 2 k) (
    and_step a (2 ^ k * 2)
    ∙ rw
        (
          double_half (2 ^ k),
          double_even (2 ^ k),
          bit_and_bit k (a / 2),
          div-div-eq-div-mul a 2 (2 ^ k),
          mul_comm 2 (2 ^ k),
        )
        (omega arith))
  where
    double_half : (p : ℕ) → p * 2 / 2 ≡ p
    double_half p = omega arith

    double_even : (p : ℕ) → p * 2 % 2 ≡ 0
    double_even p = omega arith
