-- ===== src/Index/Entry/Fields.antt =====
-- The fields of an index entry: the shifts and masks of `Entry` in plain arithmetic.
use native.Mathlib.Nat.{
  mod-eq_of_lt, mul-add-mod_self_right, mul-div-mul_right, div-div-eq-div-mul, pow-le-pow_right,
}
use blockchain_parity_db.Prelude.{
  ℕ, ◌+◌, ◌-◌, ◌*◌, ◌/◌, ◌%◌, ◌^◌, ◌≤◌, ◌<◌, ◌≡◌, ap, sym, ◌∙◌, arith,
}
use blockchain_parity_db.Word.{
  shl, shr, bit_or_fields, bit_and_mask, pow-add, two-pow-pos, mod-mul-div, mul-mod-mul,
}
use blockchain_parity_db.Index.Entry.{
  address_bits, new, last_address, address, partial_key, extract_key, chunk_index,
}

-- A shift that loses no bits, and the same for a field of `m` bits shifted by `k`.
pub shl_fits : (m k x : ℕ) → k < 64 → m + k ≡ 64 → x < 2 ^ m → shl x k ≡ x * 2 ^ k
unfolding shl
shl_fits m k x hk e hx =
    let whole : 2 ^ 64 ≡ 2 ^ m * 2 ^ k = ap (λ t. 2 ^ t) (sym e) ∙ pow-add 2 m k in
    let small : x * 2 ^ k < 2 ^ m * 2 ^ k = below (2 ^ m) (2 ^ k) hx (two-pow-pos k) in
    let low : k % 64 ≡ k = mod-eq_of_lt hk in rw low (mod-eq_of_lt (omega (arith, whole)))
  where
    below : (n p : ℕ) → x < n → 0 < p → x * p < n * p
    below n p h hp = grind arith

pub shr_lem : (k x : ℕ) → k < 64 → shr x k ≡ x / 2 ^ k
unfolding shr
shr_lem k x hk = ap (λ t. x / 2 ^ t) (mod-eq_of_lt hk)

pub power_split : (n m k : ℕ) → n ≡ m + k → 2 ^ n ≡ 2 ^ m * 2 ^ k
power_split n m k e = ap (λ t. 2 ^ t) e ∙ pow-add 2 m k

-- Over `b` index bits the address takes `b + 14` bits, and `50 - b` bits are left for the key.
module _ (b : ℕ) (hb : b ≤ 49) where
  pub address_bits_lem : address_bits b ≡ b + 14
  unfolding address_bits
  address_bits_lem = omega arith

  pub new_lem : (a p : ℕ) → a < 2 ^ (b + 14) → p < 2 ^ (50 - b) → new a p b ≡ p * 2 ^ (b + 14) + a
  unfolding new
  new_lem a p ha hp =
      rw (address_bits_lem, shl_fits (50 - b) (b + 14) p (omega arith) (omega arith) hp)
        (bit_or_fields (b + 14) p a ha)

  pub new-lt : (a p : ℕ) → a < 2 ^ (b + 14) → p < 2 ^ (50 - b) → new a p b < 2 ^ 64
  new-lt a p ha hp =
      rw (new_lem a p ha hp, power_split 64 (50 - b) (b + 14) (omega arith))
        (within (2 ^ (50 - b)) (2 ^ (b + 14)) hp ha)
    where
      within : (n m : ℕ) → p < n → a < m → p * m + a < n * m
      within n m h k = grind arith

  pub last_address_lem : last_address b ≡ 2 ^ (b + 14) - 1
  unfolding last_address
  last_address_lem =
      let one : 1 < 2 ^ (50 - b) = pow-le-pow_right {n = 2} (omega arith) {i = 1} (omega arith) in
      rw (address_bits_lem, shl_fits (50 - b) (b + 14) 1 (omega arith) (omega arith) one)
        (omega arith)

  pub address_lem : (e : ℕ) → address e b ≡ e % 2 ^ (b + 14)
  unfolding address
  address_lem e = rw last_address_lem (bit_and_mask (b + 14) e)

  pub partial_key_lem : (e : ℕ) → partial_key e b ≡ e / 2 ^ (b + 14)
  unfolding partial_key
  partial_key_lem e = rw address_bits_lem (shr_lem (b + 14) e (omega arith))

  -- An entry made of an address and a partial key that fit gives both back.
  pub new_fields :
      (a p : ℕ)
      → a < 2 ^ (b + 14)
      → p < 2 ^ (50 - b)
      → (address (new a p b) b ≡ a) × (partial_key (new a p b) b ≡ p)
  new_fields a p ha hp =
      rw (address_lem (new a p b), partial_key_lem (new a p b), new_lem a p ha hp)
        (low (2 ^ (b + 14)) ha, high (2 ^ (b + 14)) ha)
    where
      low : (m : ℕ) → a < m → (p * m + a) % m ≡ a
      low m h = mul-add-mod_self_right p m a ∙ mod-eq_of_lt h

      high : (m : ℕ) → a < m → (p * m + a) / m ≡ p
      high m h = grind arith

  -- Only the fifty top bits of a key prefix matter: the first `b` of them number the chunk, the
  -- others are the partial key.
  pub extract_key_lem : (kp : ℕ) → 0 < b → extract_key kp b ≡ kp / 2 ^ 14 % 2 ^ (50 - b)
  unfolding extract_key
  extract_key_lem kp pos = rw (address_bits_lem, shr_lem (b + 14) _ (omega arith)) (shifted ∙ cut)
    where
      -- the bits that the shift left pushes out
      kept : shl kp b ≡ kp % 2 ^ (64 - b) * 2 ^ b
      kept =
          unfold shl in
          ap (λ t. kp * 2 ^ t % 2 ^ 64) (mod-eq_of_lt (omega arith))
          ∙ ap (λ t. kp * 2 ^ b % t) (power_split 64 (64 - b) b (omega arith))
          ∙ mul-mod-mul kp (2 ^ (64 - b)) (2 ^ b) (two-pow-pos (64 - b)) (two-pow-pos b)

      shifted : shl kp b / 2 ^ (b + 14) ≡ kp % 2 ^ (64 - b) / 2 ^ 14
      shifted =
          ap (λ t. t / 2 ^ (b + 14)) kept
          ∙ ap (λ t. kp % 2 ^ (64 - b) * 2 ^ b / t) (power_split (b + 14) 14 b (omega arith))
          ∙ mul-div-mul_right (kp % 2 ^ (64 - b)) (2 ^ 14) (two-pow-pos b)

      cut : kp % 2 ^ (64 - b) / 2 ^ 14 ≡ kp / 2 ^ 14 % 2 ^ (50 - b)
      cut =
          ap (λ t. kp % t / 2 ^ 14) (power_split (64 - b) (50 - b) 14 (omega arith))
          ∙ mod-mul-div kp (2 ^ (50 - b)) (2 ^ 14) (two-pow-pos (50 - b)) (two-pow-pos 14)

  pub chunk_index_lem : (kp : ℕ) → 0 < b → chunk_index b kp ≡ kp / 2 ^ 14 / 2 ^ (50 - b)
  unfolding chunk_index
  chunk_index_lem kp pos =
      shr_lem (64 - b) kp (omega arith)
      ∙ ap (λ t. kp / t) (power_split (64 - b) 14 (50 - b) (omega arith))
      ∙ sym (div-div-eq-div-mul kp (2 ^ 14) (2 ^ (50 - b)))
