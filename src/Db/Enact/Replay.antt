-- ===== src/Db/Enact/Replay.antt =====
-- A record that `flush_to_file` has written is read back by the loop of `enact_logs`.
use mathlib.Core.List.{append_assoc}
use blockchain_parity_db.Prelude.{ℕ, suc, ◌≡◌, refl, ◌∙◌, List, [], ◌∷◌, ◌++◌}
use blockchain_parity_db.Bytes.{Bytes}
use blockchain_parity_db.Outcome.{ok}
use blockchain_parity_db.Log.Reader.{Crc32, LogReader, advance}
use blockchain_parity_db.Log.Reader.Stands.{Stands, advance-Stands}
use blockchain_parity_db.Log.Reader.Moved.{Moved, Moved-trans, Moved-refl, advance-Moved}
use blockchain_parity_db.Log.Record.{index_payload, index_head, value_head}
use blockchain_parity_db.Log.Record.Heads.{next-index_head, next-value_head, next-drop_head}
use blockchain_parity_db.Log.Record.Items.{
  Item, index_item, value_item, drop_item, item_bytes, all_bytes, Fits, noted_index, noted_values,
}
use blockchain_parity_db.Db.Enact.{Handlers, enact_action, enact_loop}

abbrev pub All {ℓ κ} : {A : Type ℓ} → (A → Type κ) → List A → Type κ
All P [] = Unit
All P (x ∷ xs) = P x × All P xs

-- What the handlers have to do for an action of the record `id`: to read its payload, all of it
-- and no more, and to change the tables as `apply` says.
abbrev pub Enacts : {S : Type 0} → Handlers S → (Item → S → S) → ℕ → Item → Type 0
Enacts {S} h apply id (index_item table index c) =
    (s : S) (r : LogReader) (rest : Bytes)
    → Stands r (index_payload c ++ rest)
    → h.enact_index table index s r
      ≡ ok (apply (index_item table index c) s, advance (index_payload c) r)
Enacts {S} h apply id (value_item table index v) =
    (s : S) (r : LogReader) (rest : Bytes)
    → Stands r (v.entry ++ rest)
    → h.enact_value table index s r ≡ ok (apply (value_item table index v) s, advance v.entry r)
Enacts {S} h apply id (drop_item table) =
    (s : S) → h.drop_index table id s ≡ ok (apply (drop_item table) s)

abbrev pub apply_all : {S : Type 0} → (Item → S → S) → List Item → S → S
apply_all apply [] s = s
apply_all apply (x ∷ xs) s = apply_all apply xs (apply x s)

-- The fuel for `xs` and `n` rounds more
abbrev pub rounds : List Item → ℕ → ℕ
rounds [] n = n
rounds (x ∷ xs) n = suc (rounds xs n)

module _ ⦃crc : Crc32⦄ {S : Type 0} (h : Handlers S) (apply : Item → S → S) (id : ℕ) where
  enact_item :
      (x : Item) (fuel : ℕ) (s : S) (tail : Bytes) {r : LogReader}
      → Fits x
      → Enacts h apply id x
      → r.record_id ≡ id
      → Stands r (item_bytes x ++ tail)
      → (r' : LogReader) × (enact_loop h (suc fuel) s r ≡ enact_loop h fuel (apply x s) r')
        × Stands r' tail
        × Moved r r' (item_bytes x) (noted_index (x ∷ [])) (noted_values (x ∷ []))
  unfolding enact_loop enact_action
  enact_item (index_item table index c) fuel s tail {r} (ht, hi, hm) does same st =
      let (r₁, e, s₁, m) =
        next-index_head table index ht hi (index_payload c ++ tail)
          (rw (append_assoc (index_head table index)) at st) in
      (
        advance (index_payload c) r₁,
        rw (e, enact_action, does s r₁ tail s₁),
        advance-Stands (index_payload c) tail s₁,
        Moved-trans m (advance-Moved r₁ (index_payload c)),
      )
  enact_item (value_item table index v) fuel s tail {r} (ht, hi) does same st =
      let (r₁, e, s₁, m) =
        next-value_head table index ht hi (v.entry ++ tail)
          (rw (append_assoc (value_head table index)) at st) in
      (
        advance v.entry r₁,
        rw (e, enact_action, does s r₁ tail s₁),
        advance-Stands v.entry tail s₁,
        Moved-trans m (advance-Moved r₁ v.entry),
      )
  enact_item (drop_item table) fuel s tail {r} ht does same st =
      let (r₁, e, s₁, m) = next-drop_head table tail ht st in
      (r₁, rw (e, enact_action, m.same_id, same, does s), s₁, m)

  noted_index-cons :
      (x : Item) (xs : List Item) → noted_index (x ∷ []) ++ noted_index xs ≡ noted_index (x ∷ xs)
  noted_index-cons (index_item table index c) xs = refl
  noted_index-cons (value_item table index v) xs = refl
  noted_index-cons (drop_item table) xs = refl

  noted_values-cons :
      (x : Item) (xs : List Item) → noted_values (x ∷ []) ++ noted_values xs ≡ noted_values (x ∷ xs)
  noted_values-cons (index_item table index c) xs = refl
  noted_values-cons (value_item table index v) xs = refl
  noted_values-cons (drop_item table) xs = refl

  pub enact_items :
      (xs : List Item) (n : ℕ) (s : S) (tail : Bytes) {r : LogReader}
      → All Fits xs
      → All (Enacts h apply id) xs
      → r.record_id ≡ id
      → Stands r (all_bytes xs ++ tail)
      → (r' : LogReader) × (enact_loop h (rounds xs n) s r
          ≡ enact_loop h n (apply_all apply xs s) r')
        × Stands r' tail
        × Moved r r' (all_bytes xs) (noted_index xs) (noted_values xs)
  enact_items [] n s tail {r} fits does same st = (r, refl, st, Moved-refl r)
  enact_items (x ∷ xs) n s tail {r} (fx, fxs) (dx, dxs) same st =
      let (r₁, e₁, s₁, m₁) =
        enact_item x (rounds xs n) s (all_bytes xs ++ tail) fx dx same
          (rw (append_assoc (item_bytes x)) at st) in
      let (r₂, e₂, s₂, m₂) = enact_items xs n (apply x s) tail fxs dxs (m₁.same_id ∙ same) s₁ in
      (r₂, e₁ ∙ e₂, s₂, rw (← noted_index-cons x xs, ← noted_values-cons x xs) (Moved-trans m₁ m₂))
