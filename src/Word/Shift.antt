-- ===== src/Word/Shift.antt =====
-- Laws of quotients and remainders by products and powers: a shift left that is cut off and
-- shifted back leaves a field of the word.
use native.Mathlib.Nat.{
  pow-suc, one-le-pow, mod-lt, mod-eq_of_lt, mod-add-div, add-mul-mod_self_left, add-mul-div_left,
  div-lt_iff_lt-mul, mul_assoc, mul_comm, pow-zero,
}
use blockchain_parity_db.Prelude.{
  ℕ, zero, suc, ◌+◌, ◌*◌, ◌/◌, ◌%◌, ◌^◌, ◌<◌, ◌≡◌, sym, ap, ◌∙◌, arith,
}

pub pow-add : (k a b : ℕ) → k ^ (a + b) ≡ k ^ a * k ^ b
pow-add k zero b = let e : zero + b ≡ b = omega arith in rw (e, pow-zero k) (omega arith)
pow-add k (suc a) b =
    let e : suc a + b ≡ suc (a + b) = omega arith in
    rw (e, pow-suc k (a + b), pow-suc k a, pow-add k a b) (omega arith)

pub two-pow-pos : (n : ℕ) → 0 < 2 ^ n
two-pow-pos n = one-le-pow n 2 (omega arith)

pub mul-pos : (n k : ℕ) → 0 < n → 0 < k → 0 < n * k
mul-pos n k hn hk = grind arith

-- `x` is its remainder by `n * k` and a multiple of that.
split : (x n k : ℕ) → x ≡ x % (n * k) + k * (n * (x / (n * k)))
split x n k = sym (mod-add-div x (n * k)) ∙ omega (arith, mul_comm n k, mul_assoc k n (x / (n * k)))

-- The part of `x` below `n * k`, without what lies below `k`.
pub mod-mul-div : (x n k : ℕ) → 0 < n → 0 < k → x % (n * k) / k ≡ x / k % n
mod-mul-div x n k hn hk =
    let r = x % (n * k) in
    let q = x / (n * k) in
    let small : r / k < n = (div-lt_iff_lt-mul hk).1 (mod-lt x (mul-pos n k hn hk)) in
    sym (
      ap (λ t. t / k % n) (split x n k)
      ∙ ap (λ t. t % n) (add-mul-div_left r (n * q) hk)
      ∙ add-mul-mod_self_left (r / k) n q
      ∙ mod-eq_of_lt small)

pub mul-mod-mul : (x n k : ℕ) → 0 < n → 0 < k → x * k % (n * k) ≡ x % n * k
mul-mod-mul x n k hn hk =
    let low : x % n * k < n * k = below (x % n) (mod-lt x hn) in
    ap (λ t. t % (n * k)) regroup
    ∙ add-mul-mod_self_left (x % n * k) (n * k) (x / n)
    ∙ mod-eq_of_lt low
  where
    below : (r : ℕ) → r < n → r * k < n * k
    below r h = grind arith

    regroup : x * k ≡ x % n * k + n * k * (x / n)
    regroup = omega (arith, ap (λ (t : ℕ). t * k) (mod-add-div x n))
