-- ===== src/Index/Entry/Prefix.antt =====
-- Reindexing moves entries between tables of different sizes with nothing but the chunk they stand
-- in and their partial key. These theorems say what of the key prefix that keeps.
use native.Mathlib.Nat.{
  div-add-mod', mod-lt, div-lt_iff_lt-mul, mul_assoc, le_trans, pow-le-pow_right,
}
use blockchain_parity_db.Prelude.{
  ℕ, ◌+◌, ◌-◌, ◌*◌, ◌/◌, ◌%◌, ◌^◌, ◌≤◌, ◌<◌, ◌≡◌, refl, ap, sym, ◌∙◌, arith,
}
use blockchain_parity_db.Word.{bit_or_fields, two-pow-pos}
use blockchain_parity_db.Index.Entry.{new, partial_key, extract_key, chunk_index, recover_prefix}
use blockchain_parity_db.Index.Entry.Fields.{
  power_split, address_bits_lem, new_fields, extract_key_lem, chunk_index_lem, shl_fits,
}

-- The partial key of a prefix fits the bits that an entry keeps for it.
pub extract_key-lt : (b kp : ℕ) → b ≤ 49 → 0 < b → extract_key kp b < 2 ^ (50 - b)
extract_key-lt b kp hb pos =
    rw (extract_key_lem b hb kp pos) (mod-lt (kp / 2 ^ 14) (two-pow-pos (50 - b)))

-- The chunk number and the partial key, put back in their places.
recover_prefix_lem :
    (b c e p : ℕ)
    → 0 < b
    → b ≤ 49
    → c < 2 ^ b
    → partial_key e b ≡ p
    → p < 2 ^ (50 - b)
    → recover_prefix b c e ≡ c * 2 ^ (64 - b) + p * 2 ^ 14
unfolding recover_prefix
recover_prefix_lem b c e p pos hb hc ep hp =
    rw (address_bits_lem b hb, ep, width)
      (rw
        (
          shl_fits b (64 - b) c (omega arith) (omega arith) hc,
          shl_fits 50 14 p (omega arith) refl wide,
        )
        (bit_or_fields (64 - b) c (p * 2 ^ 14) room))
  where
    width : 64 - (64 - (b + 14)) - b ≡ 14
    width = omega arith

    wide : p < 2 ^ 50
    wide = le_trans hp (pow-le-pow_right {n = 2} (omega arith) {i = 50 - b} {j = 50} (omega arith))

    room : p * 2 ^ 14 < 2 ^ (64 - b)
    room = rw (power_split (64 - b) (50 - b) 14 (omega arith)) (omega (arith, hp))

-- The number of the chunk is in range.
pub chunk_index-lt : (b kp : ℕ) → 0 < b → b ≤ 49 → kp < 2 ^ 64 → chunk_index b kp < 2 ^ b
chunk_index-lt b kp pos hb hkp = rw (chunk_index_lem b hb kp pos) (
    (div-lt_iff_lt-mul (two-pow-pos (50 - b))).1
      (rw (← power_split 50 b (50 - b) (omega arith)) (omega arith)))

-- `recover_key_prefix`, applied to the chunk and the entry that a 64-bit key prefix was stored in,
-- gives the prefix with its lowest fourteen bits cleared: fifty bits of the key come back.
pub recover_prefix-new :
    (b kp a : ℕ)
    → 0 < b
    → b ≤ 49
    → kp < 2 ^ 64
    → a < 2 ^ (b + 14)
    → recover_prefix b (chunk_index b kp) (new a (extract_key kp b) b) ≡ kp / 2 ^ 14 * 2 ^ 14
recover_prefix-new b kp a pos hb hkp ha =
    recover_prefix_lem b (chunk_index b kp) (new a (extract_key kp b) b) (extract_key kp b) pos hb
      (chunk_index-lt b kp pos hb hkp)
      (new_fields b hb a (extract_key kp b) ha (extract_key-lt b kp hb pos)).1
      (extract_key-lt b kp hb pos)
    ∙ rw (chunk_index_lem b hb kp pos, extract_key_lem b hb kp pos) glue
  where
    q : ℕ
    q = kp / 2 ^ 14

    m : ℕ
    m = 2 ^ (50 - b)

    glue : q / m * 2 ^ (64 - b) + q % m * 2 ^ 14 ≡ q * 2 ^ 14
    glue =
        rw (power_split (64 - b) (50 - b) 14 (omega arith))
          (omega (arith, mul_assoc (q / m) m (2 ^ 14), div-add-mod' q m))

-- From the chunk and the entry of a table of `b` bits the key prefix that is
-- recovered falls into the same chunk, with the same partial key, of any table of `b'` bits as the
-- whole prefix does.
pub reindex_prefix :
    (b b' kp a : ℕ)
    → 0 < b
    → b ≤ 49
    → 0 < b'
    → b' ≤ 49
    → kp < 2 ^ 64
    → a < 2 ^ (b + 14)
    → let found = recover_prefix b (chunk_index b kp) (new a (extract_key kp b) b) in
      (chunk_index b' found ≡ chunk_index b' kp) × (extract_key found b' ≡ extract_key kp b')
reindex_prefix b b' kp a pos hb pos' hb' hkp ha = rw (recover_prefix-new b kp a pos hb hkp ha) (
  chunk_index_lem b' hb' _ pos'
      ∙ ap (λ t. t / 2 ^ (50 - b')) top
      ∙ sym (chunk_index_lem b' hb' kp pos'),
  extract_key_lem b' hb' _ pos'
      ∙ ap (λ t. t % 2 ^ (50 - b')) top
      ∙ sym (extract_key_lem b' hb' kp pos'),
)
  where
    top : kp / 2 ^ 14 * 2 ^ 14 / 2 ^ 14 ≡ kp / 2 ^ 14
    top = omega arith
