-- ===== src/Bytes/Offsets.antt =====
-- The bytes of a file or of a memory map, by offset: what a read at an offset returns and what a
-- write there leaves.
use blockchain_parity_db.Prelude.{
  ℕ, zero, suc, ◌+◌, ◌-◌, ◌≤◌, ◌<◌, ◌≡◌, refl, ap, ap₂, ◌∙◌, ◌⊎◌, [], ◌∷◌, length, get_or, ◌&&◌,
  leb, ltb, if◌then◌else◌, arith,
}
use blockchain_parity_db.Bytes.Codec.{Bytes}
use blockchain_parity_db.Bytes.Slices.{slice}

-- The byte at each offset
abbrev pub Memory : Type 0
Memory = ℕ → ℕ

abbrev pub blank : Memory
blank _ = 0

unfoldable pub read_bytes : Memory → ℕ → ℕ → Bytes
read_bytes m at zero = []
read_bytes m at (suc n) = m at ∷ read_bytes m (at + 1) n

unfoldable pub write_bytes : Memory → ℕ → Bytes → Memory
write_bytes m at bs p = if leb at p && ltb p (at + length bs) then get_or bs (p - at) 0 else m p

pub length-read_bytes : (m : Memory) (at n : ℕ) → length (read_bytes m at n) ≡ n
unfolding read_bytes
length-read_bytes m at zero = refl
length-read_bytes m at (suc n) = ap suc (length-read_bytes m (at + 1) n)

read_bytes_ext :
    (m m' : Memory) (at n : ℕ)
    → ((p : ℕ) → at ≤ p → p < at + n → m p ≡ m' p)
    → read_bytes m at n ≡ read_bytes m' at n
unfolding read_bytes
read_bytes_ext m m' at zero h = refl
read_bytes_ext m m' at (suc n) h =
    ap₂ (λ x xs. x ∷ xs) (h at (omega arith) (omega arith))
      (read_bytes_ext m m' (at + 1) n (λ p lo hi. h p (omega arith) (omega arith)))

read_bytes_of :
    (m : Memory) (at : ℕ) (bs : Bytes)
    → ((i : ℕ) → i < length bs → m (at + i) ≡ get_or bs i 0)
    → read_bytes m at (length bs) ≡ bs
unfolding read_bytes
read_bytes_of m at [] h = refl
read_bytes_of m at (b ∷ bs) h =
    ap₂ (λ x xs. x ∷ xs) (rw (← zeroth) at (h 0 (omega arith)))
      (read_bytes_of m (at + 1) bs (λ i hi. rw (next i) (h (suc i) (omega arith))))
  where
    zeroth : at ≡ at + 0
    zeroth = omega arith

    next : (i : ℕ) → at + 1 + i ≡ at + suc i
    next i = omega arith

-- What was written is read.
pub read_bytes-write_bytes_self :
    (m : Memory) (at : ℕ) (bs : Bytes) → read_bytes (write_bytes m at bs) at (length bs) ≡ bs
read_bytes-write_bytes_self m at bs = read_bytes_of (write_bytes m at bs) at bs inside
  where
    inside : (i : ℕ) → i < length bs → write_bytes m at bs (at + i) ≡ get_or bs i 0
    inside i h = let e : at + i - at ≡ i = omega arith in unfold write_bytes in ground (arith, e)

-- A read that does not meet the bytes written is not changed.
pub read_bytes-write_bytes_apart :
    (m : Memory) (at : ℕ) (bs : Bytes) (from n : ℕ)
    → (from + n ≤ at) ⊎ (at + length bs ≤ from)
    → read_bytes (write_bytes m at bs) from n ≡ read_bytes m from n
read_bytes-write_bytes_apart m at bs from n apart =
    read_bytes_ext (write_bytes m at bs) m from n (λ p lo hi. outside p lo hi)
  where
    outside : (p : ℕ) → from ≤ p → p < from + n → write_bytes m at bs p ≡ m p
    outside p lo hi = unfold write_bytes in ground arith

-- A part of what was read is read at its own offset.
pub slice-read_bytes :
    (m : Memory) (i n at len : ℕ)
    → i + n ≤ len
    → slice i n (read_bytes m at len) ≡ read_bytes m (at + i) n
unfolding slice read_bytes
slice-read_bytes m zero zero at len h = refl
slice-read_bytes m zero (suc n) at zero h = absurd (omega arith)
slice-read_bytes m zero (suc n) at (suc len) h =
    let here : at + 0 ≡ at = omega arith in
    let onward : at + 1 + 0 ≡ at + 1 = omega arith in
    rw here
      (ap (λ xs. m at ∷ xs) ((slice-read_bytes m zero n (at + 1) len (omega arith)) ∙ rw onward))
slice-read_bytes m (suc i) n at zero h = absurd (omega arith)
slice-read_bytes m (suc i) n at (suc len) h =
    let e : at + 1 + i ≡ at + suc i = omega arith in
    rw (← e) (slice-read_bytes m i n (at + 1) len (omega arith))
