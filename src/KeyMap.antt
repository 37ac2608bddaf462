-- ===== src/KeyMap.antt =====
-- `std::collections::HashMap` and `BTreeMap` with keys of bytes, as far as the commit overlay uses them: an
-- association list.
use blockchain_parity_db.Prelude.{
  ◌≡◌, refl, sym, ap, ◌∙◌, true, Bool-cases, inl, inr, Option, none, some, List, [], ◌∷◌, arith,
  if◌then◌else◌,
}
use blockchain_parity_db.Bytes.{Bytes}
use blockchain_parity_db.Value.Entry.{same_bytes}

abbrev pub KeyMap {ℓ} : Type ℓ → Type ℓ
KeyMap V = List (Bytes × V)

module _ {ℓ} {V : Type ℓ} where
  -- `get`
  unfoldable pub get : Bytes → KeyMap V → Option V
  get k [] = none
  get k ((j, v) ∷ m) = if same_bytes j k then some v else get k m

  -- `insert`, which replaces the value of a key that is there
  unfoldable pub insert : Bytes → V → KeyMap V → KeyMap V
  insert k v [] = (k, v) ∷ []
  insert k v ((j, w) ∷ m) = if same_bytes j k then (k, v) ∷ m else (j, w) ∷ insert k v m

  -- `remove`
  unfoldable pub remove : Bytes → KeyMap V → KeyMap V
  remove k [] = []
  remove k ((j, w) ∷ m) = let rest = remove k m in if same_bytes j k then rest else (j, w) ∷ rest

pub same_bytes→≡ : (a b : Bytes) → same_bytes a b ≡ true → a ≡ b
same_bytes→≡ [] [] e = refl
same_bytes→≡ [] (c ∷ cs) e = cc
same_bytes→≡ (b ∷ bs) [] e = cc
same_bytes→≡ (b ∷ bs) (c ∷ cs) e = ground (arith, same_bytes→≡ bs cs)

module _ {ℓ} {V : Type ℓ} where
  pub get-insert :
      (k j : Bytes) (v : V) (m : KeyMap V)
      → get j (insert k v m) ≡ (if same_bytes k j then some v else get j m)
  unfolding get insert
  get-insert k j v [] = refl
  get-insert k j v ((i, w) ∷ m) = elim (Bool-cases (same_bytes i k)) [
    | inl e ↦ rw e (rw (same_bytes→≡ i k e) (ground arith))
    | inr e ↦ rw e (elim (Bool-cases (same_bytes k j)) [
      | inl f ↦
          rw (sym (ap (same_bytes i) (same_bytes→≡ k j f)), e) (rw f (get-insert k j v m ∙ rw f))
      | inr f ↦ rw f (ground (arith, get-insert k j v m, f))
    ])
  ]

  pub get-remove :
      (k j : Bytes) (m : KeyMap V) → get j (remove k m) ≡ (if same_bytes k j then none else get j m)
  unfolding get remove
  get-remove k j [] = ground arith
  get-remove k j ((i, w) ∷ m) = elim (Bool-cases (same_bytes i k)) [
    | inl e ↦ rw e (rw (same_bytes→≡ i k e) (ground (arith, get-remove k j m)))
    | inr e ↦ rw e (elim (Bool-cases (same_bytes k j)) [
      | inl f ↦
          rw (sym (ap (same_bytes i) (same_bytes→≡ k j f)), e) (rw f (get-remove k j m ∙ rw f))
      | inr f ↦ rw f (ground (arith, get-remove k j m, f))
    ])
  ]
