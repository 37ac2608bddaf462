-- ===== src/HashMap.antt =====
-- `std::collections::HashMap` with integer keys, as the code uses it: an association list. The
-- order of iteration, which the library leaves open, is that of the list.
use blockchain_parity_db.Prelude.{
  ℕ, ◌≡◌, refl, Option, none, some, List, [], ◌∷◌, arith, ◌==◌, if◌then◌else◌,
}

abbrev pub HashMap {ℓ} : Type ℓ → Type ℓ
HashMap V = List (ℕ × V)

module _ {ℓ} {V : Type ℓ} where
  -- `get`
  unfoldable pub get : ℕ → HashMap V → Option V
  get k [] = none
  get k ((j, v) ∷ m) = if j == k then some v else get k m

  -- `insert`, which replaces the value of a key that is there
  unfoldable pub insert : ℕ → V → HashMap V → HashMap V
  insert k v [] = (k, v) ∷ []
  insert k v ((j, w) ∷ m) = if j == k then (k, v) ∷ m else (j, w) ∷ insert k v m

  -- `remove`
  unfoldable pub remove : ℕ → HashMap V → HashMap V
  remove k [] = []
  remove k ((j, w) ∷ m) = let rest = remove k m in if j == k then rest else (j, w) ∷ rest

  -- `get(k).unwrap_or(d)`, and the `entry(k).or_insert(d)` that is then written back
  abbrev pub or_value : V → Option V → V
  or_value d none = d
  or_value d (some v) = v

  unfoldable pub get_or_default : V → ℕ → HashMap V → V
  get_or_default d k m = or_value d (get k m)

  -- `m.extend(n)`, the entries of `n` written over those of `m`
  unfoldable pub extend : HashMap V → HashMap V → HashMap V
  extend m [] = m
  extend m ((k, v) ∷ n) = insert k v (extend m n)

  pub get-insert :
      (k j : ℕ) (v : V) (m : HashMap V)
      → get j (insert k v m) ≡ (if k == j then some v else get j m)
  unfolding get insert
  get-insert k j v [] = refl
  get-insert k j v ((i, w) ∷ m) = ground (arith, get-insert k j v m)

  pub get-remove :
      (k j : ℕ) (m : HashMap V) → get j (remove k m) ≡ (if k == j then none else get j m)
  unfolding get remove
  get-remove k j [] = ground arith
  get-remove k j ((i, w) ∷ m) = ground (arith, get-remove k j m)

  abbrev pub or_else : Option V → Option V → Option V
  or_else none o = o
  or_else (some v) o = some v

  pub get-extend : (j : ℕ) (m n : HashMap V) → get j (extend m n) ≡ or_else (get j n) (get j m)
  unfolding get extend
  get-extend j m [] = refl
  get-extend j m ((k, v) ∷ n) = ground (arith, get-insert k j v (extend m n), get-extend j m n)

pub ruleset map_laws = (get-insert, get-remove, get-extend)
