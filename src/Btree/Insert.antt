-- ===== src/Btree/Insert.antt =====
-- src/btree/node.rs: a separator goes into a node, which splits if it is full. The node on the right is
-- given back where the source writes it to the log and keeps its address.
pub mod Order
use blockchain_parity_db.Prelude.{
  ℕ, ◌+◌, ◌-◌, ◌/◌, Bool, true, false, Option, none, some, ltb, ◌==◌,
}
use blockchain_parity_db.Outcome.{Result, ok, ◌>>=◌}
use blockchain_parity_db.Btree.{order, Separator, Child, Node}
use blockchain_parity_db.Btree.Operations.{
  is_some, remove_separator, has_separator, set_separator, set_child, shift_from, split,
}

abbrev pub middle : ℕ
middle = order / 2

-- A child that comes with the separator stands behind it.
unfoldable pub set_new_child : ℕ → Option Child → Node → Result Node
set_new_child i none n = ok n
set_new_child i (some c) n = set_child i c n

abbrev placed : {A : Type 0} → ℕ → Option A → Option (ℕ × A)
placed i none = none
placed i (some a) = some (i, a)

-- `shift_from` and what is set then
unfoldable pub insert_here : ℕ → Separator → Option Child → Node → Result Node
insert_here i s child n = do
  n₁ ← shift_from i (is_some child) false n
  n₂ ← set_separator i s n₁
  set_new_child (i + 1) child n₂

-- The three cases of a full node: the separator that goes up, with the nodes on its sides
unfoldable pub split_equal : Separator → Option Child → Node → Result (Node × Separator × Node)
split_equal s child n = do
  (left, right) ← split middle true none none (is_some child) n
  right' ← set_new_child 0 child right
  ok (left, s, right')

unfoldable pub split_less : ℕ → Separator → Option Child → Node → Result (Node × Separator × Node)
split_less i s child n = do
  (left, right) ← split middle false none none (is_some child) n
  (up, left₁) ← remove_separator (middle - 1) left
  left₂ ← insert_here i s child left₁
  ok (left₂, up, right)

unfoldable pub split_greater :
    ℕ → Separator → Option Child → Node → Result (Node × Separator × Node)
split_greater i s child n = do
  (left, right) ← split (middle + 1) false (some (i, s)) (placed i child) (is_some child) n
  (up, left') ← remove_separator middle left
  ok (left', up, right)

unfoldable pub insert_full : ℕ → Separator → Option Child → Node → Result (Node × Separator × Node)
insert_full i s child n = elim (i == middle) [
  | true ↦ split_equal s child n
  | false ↦ elim (ltb i middle) [
    | true ↦ split_less i s child n
    | false ↦ split_greater i s child n
  ]
]

abbrev pub after_split : Node × Separator × Node → Node × Option (Separator × Node)
after_split (left, up, right) = (left, some (up, right))

-- `insert_node`, and with no child the end of `insert` in a leaf
unfoldable pub insert_node :
    ℕ → Separator → Option Child → Node → Result (Node × Option (Separator × Node))
insert_node i s child n = do
  full ← has_separator (order - 1) n
  elim full [
    | true ↦ do r ← insert_full i s child n; ok (after_split r)
    | false ↦ do n' ← insert_here i s child n; ok (n', none)
  ]
