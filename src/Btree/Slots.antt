-- ===== src/Btree/Slots.antt =====
-- src/btree/node.rs: the loops over an array of a node, which are the same for the separators and for the
-- children. An index out of range panics.
use blockchain_parity_db.Prelude.{
  ℕ, zero, suc, ◌+◌, ◌-◌, Bool, true, false, Option, none, some, List, get_elem?, set, length, ltb,
  ◌==◌, if◌then◌else◌,
}
use blockchain_parity_db.Outcome.{Result, ok, panic, stuck, ◌>>=◌}

-- What the loops use of an element
pub record Slot (A : Type 0) : Type 0 where
  pub default : A
  pub mark : A → A
  pub is_used : A → Bool

abbrev pub found : {A : Type 0} → Option A → Result A
found none = panic
found (some a) = ok a

-- `xs[i]`, and `xs[i] = a`
abbrev pub at_slot : {A : Type 0} → ℕ → List A → Result A
at_slot i xs = found (get_elem? xs i)

abbrev pub set_slot : {A : Type 0} → ℕ → A → List A → Result (List A)
set_slot i a xs = if ltb i (length xs) then ok (set xs i a) else panic

-- `if ins.0 == i`
abbrev is_at : {A : Type 0} → ℕ → Option (ℕ × A) → Bool
is_at i none = false
is_at i (some (j, a)) = j == i

module _ {A : Type 0} (slot : Slot A) where
  -- `remove_separator`, `remove_child`
  unfoldable pub remove_slot : ℕ → List A → Result (A × List A)
  remove_slot i xs = do a ← at_slot i xs; ok (slot.mark a, set xs i (slot.mark slot.default))

  -- A loop of `shift_from`, once the element at `i` is taken out: `current` moves to the next place.
  unfoldable pub shift_loop : ℕ → ℕ → A → List A → Result (List A)
  shift_loop zero i current xs = stuck
  shift_loop (suc fuel) i current xs = elim (slot.is_used current) [
    | false ↦ ok xs
    | true ↦ elim (i + 1 == length xs) [
      | true ↦ ok xs
      | false ↦ do
        next ← at_slot (i + 1) xs
        xs' ← set_slot (i + 1) (slot.mark current) xs
        shift_loop fuel (i + 1) next xs'
    ]
  ]

  unfoldable pub shift_slots : ℕ → List A → Result (List A)
  shift_slots from xs = do
    (current, xs') ← remove_slot from xs
    shift_loop (length xs + 1) from current xs'

  -- A loop of `remove_from`, which stops where it has moved an empty element
  unfoldable pub close_loop : ℕ → ℕ → List A → Result (List A)
  close_loop zero i xs = stuck
  close_loop (suc fuel) i xs = elim (ltb i (length xs - 1)) [
    | false ↦ ok xs
    | true ↦ do
      (next, xs') ← remove_slot (i + 1) xs
      xs'' ← set_slot i next xs'
      elim (slot.is_used next) [ true ↦ close_loop fuel (i + 1) xs'' | false ↦ ok xs'' ]
  ]

  unfoldable pub close_slots : ℕ → List A → Result (List A)
  close_slots from xs = close_loop (length xs + 1) from xs

  -- `if let Some(..) = insert_right.take()`
  unfoldable pub insert_slot : ℕ → Option (ℕ × A) → List A → Result (List A)
  insert_slot start none right = ok right
  insert_slot start (some (j, a)) right = set_slot (j - start) a right

  -- A loop of `split`: the elements from `i` on go to the array on the right, and the new one among them.
  unfoldable pub split_loop :
      ℕ → ℕ → ℕ → ℕ → Option (ℕ × A) → List A → List A → Result (List A × List A)
  split_loop zero i start offset ins xs right = do
    right' ← insert_slot start ins right
    ok (xs, right')
  split_loop (suc count) i start offset ins xs right = do
    (a, xs') ← remove_slot i xs
    elim (is_at i ins) [
      | true ↦ do
        right' ← insert_slot start ins right
        right'' ← set_slot (i + 1 - start) a right'
        split_loop count (i + 1) start 1 none xs' right''
      | false ↦ do
        right' ← set_slot (i + offset - start) a right
        split_loop count (i + 1) start offset ins xs' right'
    ]
