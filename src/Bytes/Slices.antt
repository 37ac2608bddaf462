-- ===== src/Bytes/Slices.antt =====
-- Parts of a byte array: `&buf[i..i + n]` and `copy_from_slice` into it.
use blockchain_parity_db.Prelude.{
  ℕ, zero, suc, ◌+◌, ◌≤◌, ◌≡◌, refl, sym, ap, ◌∙◌, List, [], ◌∷◌, ◌++◌, length, take, drop, arith,
}
use blockchain_parity_db.Prelude.{length-append, length-drop}

module _ {ℓ} {A : Type ℓ} where
  -- `&xs[i..i + n]`, shorter where `xs` ends before; the source panics there.
  unfoldable pub slice : ℕ → ℕ → List A → List A
  slice i n xs = take n (drop i xs)

  -- `xs[i..i + n].copy_from_slice(new)` with `n` the length of `new`, inside `xs`.
  unfoldable pub splice : ℕ → List A → List A → List A
  splice zero new xs = new ++ drop (length new) xs
  splice (suc i) new [] = []
  splice (suc i) new (x ∷ xs) = x ∷ splice i new xs

  pub length-splice :
      (i : ℕ) (new xs : List A) → i + length new ≤ length xs → length (splice i new xs) ≡ length xs
  unfolding splice
  length-splice zero new xs h =
      rw (length-append new (drop (length new) xs), length-drop (length new) xs) (omega arith)
  length-splice (suc i) new [] h = absurd (omega arith)
  length-splice (suc i) new (x ∷ xs) h = ap suc (length-splice i new xs (omega arith))

  pub take-length-append : (xs ys : List A) → take (length xs) (xs ++ ys) ≡ xs
  take-length-append [] ys = refl
  take-length-append (x ∷ xs) ys = ap (λ t. x ∷ t) (take-length-append xs ys)

  pub drop-length-append : (xs ys : List A) → drop (length xs) (xs ++ ys) ≡ ys
  drop-length-append [] ys = refl
  drop-length-append (x ∷ xs) ys = drop-length-append xs ys

  drop-nil : (k : ℕ) → drop {A = A} k [] ≡ []
  drop-nil zero = refl
  drop-nil (suc k) = refl

  pub drop-add : (m n : ℕ) (xs : List A) → drop (m + n) xs ≡ drop n (drop m xs)
  drop-add zero n xs = let e : zero + n ≡ n = omega arith in rw e
  drop-add (suc m) n [] = let e : suc m + n ≡ suc (m + n) = omega arith in rw e (sym (drop-nil n))
  drop-add (suc m) n (x ∷ xs) =
      let e : suc m + n ≡ suc (m + n) = omega arith in rw e (drop-add m n xs)

  pub take-append : (n : ℕ) (xs ys : List A) → n ≤ length xs → take n (xs ++ ys) ≡ take n xs
  take-append zero xs ys h = refl
  take-append (suc n) [] ys h = absurd (omega arith)
  take-append (suc n) (x ∷ xs) ys h = ap (λ t. x ∷ t) (take-append n xs ys (omega arith))

  pub take-length : (xs : List A) → take (length xs) xs ≡ xs
  take-length [] = refl
  take-length (x ∷ xs) = ap (λ t. x ∷ t) (take-length xs)

  pub append-take-drop : (n : ℕ) (xs : List A) → take n xs ++ drop n xs ≡ xs
  append-take-drop zero xs = refl
  append-take-drop (suc n) [] = refl
  append-take-drop (suc n) (x ∷ xs) = ap (λ t. x ∷ t) (append-take-drop n xs)

  pub take-past : (n : ℕ) (xs : List A) → length xs ≤ n → take n xs ≡ xs
  take-past zero [] h = refl
  take-past zero (x ∷ xs) h = absurd (omega arith)
  take-past (suc n) [] h = refl
  take-past (suc n) (x ∷ xs) h = ap (λ t. x ∷ t) (take-past n xs (omega arith))

  -- What was written is read.
  pub slice-splice_self :
      (i n : ℕ) (new xs : List A)
      → n ≡ length new
      → i ≤ length xs
      → slice i n (splice i new xs) ≡ new
  unfolding slice splice
  slice-splice_self zero n new xs e h = rw e (take-length-append new (drop (length new) xs))
  slice-splice_self (suc i) n new [] e h = absurd (omega arith)
  slice-splice_self (suc i) n new (x ∷ xs) e h =
      unfold slice in slice-splice_self i n new xs e (omega arith)

  drop-append_past :
      (j : ℕ) (new xs : List A) → length new ≤ j → drop j (new ++ drop (length new) xs) ≡ drop j xs
  drop-append_past j [] xs h = refl
  drop-append_past zero (y ∷ new) xs h = absurd (omega arith)
  drop-append_past (suc j) (y ∷ new) [] h =
      let rest = drop-append_past j new [] (omega arith) in
      (rw (drop-nil (length new)) at rest) ∙ drop-nil j
  drop-append_past (suc j) (y ∷ new) (x ∷ xs) h = drop-append_past j new xs (omega arith)

  -- Parts behind and before what was written stay.
  pub slice-splice_after :
      (i j n : ℕ) (new xs : List A)
      → i + length new ≤ j
      → slice j n (splice i new xs) ≡ slice j n xs
  unfolding slice splice
  slice-splice_after zero j n new xs h = ap (take n) (drop-append_past j new xs (omega arith))
  slice-splice_after (suc i) j n new [] h = refl
  slice-splice_after (suc i) zero n new (x ∷ xs) h = absurd (omega arith)
  slice-splice_after (suc i) (suc j) n new (x ∷ xs) h =
      slice-splice_after i j n new xs (omega arith)

  pub slice-splice_before :
      (i j n : ℕ) (new xs : List A) → j + n ≤ i → slice j n (splice i new xs) ≡ slice j n xs
  unfolding slice splice
  slice-splice_before i j zero new xs h = refl
  slice-splice_before zero j (suc n) new xs h = absurd (omega arith)
  slice-splice_before (suc i) j (suc n) new [] h = refl
  slice-splice_before (suc i) zero (suc n) new (x ∷ xs) h =
      ap (λ t. x ∷ t) (slice-splice_before i 0 n new xs (omega arith))
  slice-splice_before (suc i) (suc j) (suc n) new (x ∷ xs) h =
      slice-splice_before i j (suc n) new xs (omega arith)

  -- What stands before the end of what was written
  pub take-splice :
      (i n : ℕ) (new xs : List A)
      → n ≡ i + length new
      → i ≤ length xs
      → take n (splice i new xs) ≡ take i xs ++ new
  unfolding splice
  take-splice zero n new xs e h =
      let e' : n ≡ length new = omega (arith, e) in
      rw e' (take-length-append new (drop (length new) xs))
  take-splice (suc i) n new [] e h = absurd (omega arith)
  take-splice (suc i) zero new (x ∷ xs) e h = absurd (omega arith)
  take-splice (suc i) (suc n) new (x ∷ xs) e h =
      ap (λ t. x ∷ t) (take-splice i n new xs (omega arith) (omega arith))
