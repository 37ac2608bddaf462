-- ===== src/Column/Tiers.antt =====
-- The size tier of a value.
use mathlib.Core.Option.{some-injective}
use blockchain_parity_db.Prelude.{
  ℕ, zero, suc, ◌+◌, ◌-◌, ◌<◌, ◌≡◌, refl, sym, ap, ◌∙◌, ◌⊎◌, inl, inr, true, false, Bool-cases,
  none, some, List, [], ◌∷◌, get_elem?, length, arith,
}
use blockchain_parity_db.Value.Key.{TableKey}
use blockchain_parity_db.Value.Table.{ValueTable}
use blockchain_parity_db.Value.Write.{value_size, fits_slot}
use blockchain_parity_db.Column.Values.{first_tier, target_tier}

-- No table in front of `tier` has slots for the value.
abbrev pub NoneFits : TableKey → ℕ → List ValueTable → ℕ → Type 0
NoneFits key len ts tier =
    (j : ℕ) (t : ValueTable)
    → j < tier
    → get_elem? ts j ≡ some t
    → fits_slot len (value_size t key) ≡ false

abbrev pub Fits : TableKey → ℕ → List ValueTable → ℕ → Type 0
Fits key len ts tier =
    (t : ValueTable) × (get_elem? ts tier ≡ some t) × (fits_slot len (value_size t key) ≡ true)

NoneFits-cons :
    (key : TableKey) (len n : ℕ) (t : ValueTable) (ts : List ValueTable)
    → fits_slot len (value_size t key) ≡ false
    → NoneFits key len ts n
    → NoneFits key len (t ∷ ts) (suc n)
NoneFits-cons key len n t ts larger before zero s h e =
    let same : s ≡ t = sym (some-injective t s e) in rw same larger
NoneFits-cons key len n t ts larger before (suc j) s h e = before j s (omega arith) e

-- A search that starts with the number `at`
first_tier_cases :
    (key : TableKey) (len at : ℕ) (ts : List ValueTable)
    → ((i : ℕ) × (first_tier key len at ts ≡ some (at + i))
        × Fits key len ts i
        × NoneFits key len ts i)
      ⊎ ((first_tier key len at ts ≡ none) × NoneFits key len ts (length ts))
unfolding first_tier
first_tier_cases key len at [] = inr (refl, λ j t h e. absurd (omega arith))
first_tier_cases key len at (t ∷ ts) = elim (Bool-cases (fits_slot len (value_size t key))) [
  | inl fits ↦
      inl (0, rw fits (ap some (omega arith)), (t, refl, fits), λ j s h e. absurd (omega arith))
  | inr larger ↦ elim (first_tier_cases key len (at + 1) ts) [
    | inl (i, found, fits, before) ↦ inl (
      suc i,
      rw larger (found ∙ ap some (omega arith)),
      fits,
      NoneFits-cons key len i t ts larger before,
    )
    | inr (missing, before) ↦
        inr (rw larger missing, NoneFits-cons key len (length ts) t ts larger before)
  ]
]

table_there :
    (ts : List ValueTable) (i : ℕ) → i < length ts → (t : ValueTable) × (get_elem? ts i ≡ some t)
table_there [] i h = absurd (omega arith)
table_there (t ∷ ts) zero h = (t, refl)
table_there (t ∷ ts) (suc i) h = table_there ts i (omega arith)

-- The tier of a value is the first that has slots for it with its key and its counter, or the last one if none has.
pub target_tier_cases :
    (key : TableKey) (len : ℕ) (ts : List ValueTable)
    → 0 < length ts
    → NoneFits key len ts (target_tier key len ts)
      × (Fits key len ts (target_tier key len ts)
          ⊎ ((target_tier key len ts ≡ length ts - 1)
              × ((t : ValueTable) × (get_elem? ts (length ts - 1) ≡ some t))))
unfolding target_tier
target_tier_cases key len ts some_tier = elim (first_tier_cases key len 0 ts) [
  | inl (i, found, fits, before) ↦ rw (target_is found) (before, inl fits)
  | inr (missing, before) ↦ rw (target_blob missing) (
    (λ j t h e. before j t (omega (arith, h)) e),
    inr (refl, table_there ts (length ts - 1) (omega arith)),
  )
]
  where
    target_is : {i : ℕ} → first_tier key len 0 ts ≡ some (0 + i) → target_tier key len ts ≡ i
    target_is {i} e = ground (arith, e)

    target_blob : first_tier key len 0 ts ≡ none → target_tier key len ts ≡ length ts - 1
    target_blob e = ground (arith, e)
