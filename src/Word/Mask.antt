-- ===== src/Word/Mask.antt =====
-- The loop `while mask != 0 { let i = mask.trailing_zeros(); mask &= !(1 << i); ... }` of
-- src/log.rs and src/index.rs, which visits the ones of a 64-bit mask.
use native.Mathlib.Nat.{pow-suc, mod-eq_of_lt, pow-zero}
use blockchain_parity_db.Prelude.{
  ℕ, zero, suc, ◌+◌, ◌-◌, ◌*◌, ◌/◌, ◌%◌, ◌^◌, ◌≤◌, ◌<◌, ◌≡◌, refl, sym, ap, ◌∙◌, inl, inr, List, [],
  ◌∷◌, bit_and, ◌==◌, if◌then◌else◌, Bool-cases, arith,
}
use blockchain_parity_db.Word.Defs.{shl}
use blockchain_parity_db.Word.Bits.{and_step, bit_and_mask}
use blockchain_parity_db.Word.Shift.{mul-pos, pow-add, two-pow-pos}

-- `trailing_zeros` of a word of `n` bits
unfoldable pub trailing_zeros : ℕ → ℕ → ℕ
trailing_zeros zero mask = 0
trailing_zeros (suc n) mask =
    let rest = trailing_zeros n (mask / 2) in if mask % 2 == 1 then 0 else rest + 1

-- `mask & !(1 << i)`
unfoldable pub clear_bit : ℕ → ℕ → ℕ
clear_bit mask i = bit_and mask (2 ^ 64 - 1 - shl 1 i)

-- The values of `i`, in the order of the rounds
unfoldable pub mask_rounds : ℕ → ℕ → List ℕ
mask_rounds zero mask = []
mask_rounds (suc fuel) mask =
    let i = trailing_zeros 64 mask in
    let rest = mask_rounds fuel (clear_bit mask i) in if mask == 0 then [] else i ∷ rest

-- A mask of 64 bits has at most 64 rounds.
unfoldable pub mask_bits : ℕ → List ℕ
mask_bits mask = mask_rounds 64 mask

-- The places of the ones among the `n` binary digits of `x`, the lowest of which has the place `k`.
unfoldable pub ones : ℕ → ℕ → ℕ → List ℕ
ones k zero x = []
ones k (suc n) x = let rest = ones (k + 1) n (x / 2) in if x % 2 == 1 then k ∷ rest else rest

trailing_zeros_lem : (n k y : ℕ) → k < n → trailing_zeros n (2 ^ k * (2 * y + 1)) ≡ k
unfolding trailing_zeros
trailing_zeros_lem zero k y h = absurd (omega arith)
trailing_zeros_lem (suc n) zero y h = ground (arith, pow-zero 2)
trailing_zeros_lem (suc n) (suc k) y h =
    let p = 2 ^ k * (2 * y + 1) in
    let e : 2 ^ suc k * (2 * y + 1) ≡ 2 * p =
      omega (arith, ap (λ (t : ℕ). t * (2 * y + 1)) (pow-suc 2 k)) in
    let half : 2 * p / 2 ≡ p = omega arith in
    rw (e, half, trailing_zeros_lem n k y (omega arith)) (ground arith)

clear_lem :
    (w k y : ℕ)
    → 2 ^ k * (2 * y + 1) < 2 ^ w
    → bit_and (2 ^ k * (2 * y + 1)) (2 ^ w - 1 - 2 ^ k) ≡ 2 ^ k * (2 * y)
clear_lem zero k y h =
    absurd (omega (arith, mul-pos (2 ^ k) (2 * y + 1) (two-pow-pos k) (omega arith)))
clear_lem (suc w) zero y h =
    let m = 2 ^ zero * (2 * y + 1) in
    let b = 2 ^ suc w - 1 - 2 ^ zero in
    let odd : m ≡ 2 * y + 1 = omega (arith, pow-zero 2) in
    let half_b : b / 2 ≡ 2 ^ w - 1 = omega (arith, pow-suc 2 w, two-pow-pos w) in
    let even_b : b % 2 ≡ 0 = omega (arith, pow-suc 2 w, two-pow-pos w) in
    let half_m : m / 2 ≡ y = omega arith in
    let low : y % 2 ^ w ≡ y = mod-eq_of_lt (omega (arith, pow-suc 2 w)) in
    and_step m b ∙ rw (half_b, even_b, half_m, bit_and_mask w y, low) (omega (arith, pow-zero 2))
clear_lem (suc w) (suc k) y h =
    let p = 2 ^ k * (2 * y + 1) in
    let m = 2 ^ suc k * (2 * y + 1) in
    let b = 2 ^ suc w - 1 - 2 ^ suc k in
    let twice : m ≡ 2 * p = omega (arith, ap (λ (t : ℕ). t * (2 * y + 1)) (pow-suc 2 k)) in
    let below : p < 2 ^ w = omega (arith, pow-suc 2 w) in
    let least : 2 ^ k ≤ p = grind (arith, two-pow-pos k) in
    let half_b : b / 2 ≡ 2 ^ w - 1 - 2 ^ k = omega (arith, pow-suc 2 w, pow-suc 2 k) in
    let half_m : m / 2 ≡ p = omega arith in
    let even_m : m % 2 ≡ 0 = omega arith in
    and_step m b
    ∙ rw (half_b, even_m, half_m, clear_lem w k y below)
        (omega (arith, ap (λ (t : ℕ). t * (2 * y)) (pow-suc 2 k)))

clear_bit_lem :
    (k y : ℕ)
    → k < 64
    → 2 ^ k * (2 * y + 1) < 2 ^ 64
    → clear_bit (2 ^ k * (2 * y + 1)) k ≡ 2 ^ suc k * y
unfolding clear_bit shl
clear_bit_lem k y hk h =
    let least : 2 ^ k ≤ 2 ^ k * (2 * y + 1) = grind (arith, two-pow-pos k) in
    let low : k % 64 ≡ k = mod-eq_of_lt hk in
    let one : 1 * 2 ^ k % 2 ^ 64 ≡ 2 ^ k = mod-eq_of_lt (omega arith) ∙ omega arith in
    rw (low, one, clear_lem 64 k y h) (omega (arith, ap (λ (t : ℕ). t * y) (pow-suc 2 k)))

ones-zero : (k n : ℕ) → ones k n 0 ≡ []
unfolding ones
ones-zero k zero = refl
ones-zero k (suc n) = ones-zero (k + 1) n

mask_rounds-zero : (fuel : ℕ) → mask_rounds fuel 0 ≡ []
unfolding mask_rounds
mask_rounds-zero zero = refl
mask_rounds-zero (suc fuel) = refl

-- One round, at a mask whose lowest one has the place `k`.
mask_rounds_step :
    (fuel k y : ℕ)
    → k < 64
    → 2 ^ k * (2 * y + 1) < 2 ^ 64
    → mask_rounds (suc fuel) (2 ^ k * (2 * y + 1)) ≡ k ∷ mask_rounds fuel (2 ^ suc k * y)
unfolding mask_rounds
mask_rounds_step fuel k y hk h =
    let some_one = mul-pos (2 ^ k) (2 * y + 1) (two-pow-pos k) (omega arith) in
    rw (trailing_zeros_lem 64 k y hk, clear_bit_lem k y hk h) (ground (arith, some_one))

mask_rounds-ones :
    (n k fuel x : ℕ) → k + n ≡ 64 → n ≤ fuel → x < 2 ^ n → mask_rounds fuel (2 ^ k * x) ≡ ones k n x
unfolding ones
mask_rounds-ones zero k fuel x e hf hx =
    let none_left : 2 ^ k * x ≡ 0 = ap (λ t. 2 ^ k * t) (none_of x hx) ∙ omega arith in
    rw none_left (mask_rounds-zero fuel)
  where
    none_of : (x : ℕ) → x < 1 → x ≡ 0
    none_of x h = omega arith
mask_rounds-ones (suc n) k zero x e hf hx = absurd (omega arith)
mask_rounds-ones (suc n) k (suc fuel) x e hf hx = elim (Bool-cases (x % 2 == 1)) [
  | inl odd ↦
      let y = x / 2 in
      let ex : x ≡ 2 * y + 1 = ground arith in
      let whole : 2 ^ 64 ≡ 2 ^ k * 2 ^ suc n = ap (λ t. 2 ^ t) (sym e) ∙ pow-add 2 k (suc n) in
      let fits : 2 ^ k * (2 * y + 1) < 2 ^ 64 =
        rw (whole, ← ex) (scaled (2 ^ k) (2 ^ suc n) (two-pow-pos k) hx) in
      rw odd (
        ap (λ t. mask_rounds (suc fuel) (2 ^ k * t)) ex
        ∙ mask_rounds_step fuel k y (omega arith) fits
        ∙ ap (λ t. k ∷ t)
            (ap (λ t. mask_rounds fuel (2 ^ t * y)) (next k)
              ∙ mask_rounds-ones n (k + 1) fuel y (omega arith) (omega arith)
                  (omega (arith, pow-suc 2 n))))
  | inr even ↦
      let y = x / 2 in
      let ex : x ≡ 2 * y = ground arith in
      let shifted : 2 ^ k * (2 * y) ≡ 2 ^ suc k * y =
        omega (arith, ap (λ (t : ℕ). t * y) (pow-suc 2 k)) in
      rw even (
        ap (λ t. mask_rounds (suc fuel) t) (ap (λ t. 2 ^ k * t) ex ∙ shifted)
        ∙ ap (λ t. mask_rounds (suc fuel) (2 ^ t * y)) (next k)
        ∙ mask_rounds-ones n (k + 1) (suc fuel) y (omega arith) (omega arith)
            (omega (arith, pow-suc 2 n)))
]
  where
    next : (k : ℕ) → suc k ≡ k + 1
    next k = omega arith

    scaled : (p q : ℕ) → 0 < p → x < q → p * x < p * q
    scaled p q hp h = grind arith

-- The loop over a mask of 64 bits visits the places of its ones, from the lowest up, each once, and
-- then ends: 64 rounds are enough.
pub mask_bits-ones : (mask : ℕ) → mask < 2 ^ 64 → mask_bits mask ≡ ones 0 64 mask
unfolding mask_bits
mask_bits-ones mask h =
    let e : mask ≡ 2 ^ 0 * mask = omega (arith, pow-zero 2) in
    ap (mask_rounds 64) e ∙ mask_rounds-ones 64 0 64 mask (omega arith) (omega arith) h
