-- ===== src/Btree/Operations.antt =====
-- src/btree/node.rs, `Node`: the operations on one node in memory. What `split` gives back beside the
-- right node, an address, is always `None` there.
use blockchain_parity_db.Prelude.{
  ℕ, ◌+◌, ◌-◌, ◌/◌, Bool, true, false, not, Option, none, some, List, [], ◌∷◌, ◌==◌, if◌then◌else◌,
}
use mathlib.Core.Option
use blockchain_parity_db.Outcome.{Result, ok, ◌>>=◌}
use blockchain_parity_db.Btree.{
  order, order_child, SeparatorInner, Separator, Child, Node, no_separator, no_child, empty_node,
}
use blockchain_parity_db.Btree.Slots.{
  Slot, at_slot, set_slot, remove_slot, shift_slots, close_slots, split_loop,
}

abbrev pub is_some : {A : Type 0} → Option A → Bool
is_some none = false
is_some (some a) = true

abbrev pub separator_slot : Slot Separator
separator_slot = record {
  default = no_separator;
  mark = λ s. record s { modified = true };
  is_used = λ s. is_some s.separator;
}

abbrev pub child_slot : Slot Child
child_slot = record {
  default = no_child;
  mark = λ c. record c { moved = true };
  is_used = λ c. is_some c.entry_index;
}

unfoldable pub remove_separator : ℕ → Node → Result (Separator × Node)
remove_separator i n = do
  (s, ss) ← remove_slot separator_slot i n.separators
  ok (s, record n { separators = ss; changed = true })

unfoldable pub remove_child : ℕ → Node → Result (Child × Node)
remove_child i n = do
  (c, cs) ← remove_slot child_slot i n.children
  ok (c, record n { children = cs; changed = true })

unfoldable pub has_separator : ℕ → Node → Result Bool
has_separator i n = do s ← at_slot i n.separators; ok (is_some s.separator)

unfoldable pub separator_address : ℕ → Node → Result (Option ℕ)
separator_address i n = do
  s ← at_slot i n.separators
  ok (Option.map (λ (x : SeparatorInner). x.value) s.separator)

unfoldable pub set_separator : ℕ → Separator → Node → Result Node
set_separator i s n = do
  ss ← set_slot i (record s { modified = true }) n.separators
  ok (record n { separators = ss; changed = true })

unfoldable pub new_child : Option ℕ → Child
new_child index = record { moved = true; entry_index = index }

unfoldable pub set_child : ℕ → Child → Node → Result Node
set_child i c n = do
  cs ← set_slot i (record c { moved = true }) n.children
  ok (record n { children = cs; changed = true })

unfoldable pub shift_from : ℕ → Bool → Bool → Node → Result Node
shift_from from has_child with_left_child n = do
  ss ← shift_slots separator_slot from n.separators
  cs ←
      if has_child
      then shift_slots child_slot (if with_left_child then from else from + 1) n.children
      else ok n.children
  ok (record { separators = ss; children = cs; changed = true })

unfoldable pub remove_from : ℕ → Bool → Bool → Node → Result Node
remove_from from has_child with_left_child n = do
  ss ← close_slots separator_slot from n.separators
  cs ←
      if has_child
      then close_slots child_slot (if with_left_child then from else from + 1) n.children
      else ok n.children
  ok (record { separators = ss; children = cs; changed = true })

-- The child that is to go to the right stands one place behind its separator.
abbrev child_place : Option (ℕ × Child) → Option (ℕ × Child)
child_place none = none
child_place (some (i, c)) = some (i + 1, record c { moved = true })

-- The children of `split`
unfoldable pub split_children :
    ℕ → Bool → Option (ℕ × Child) → List Child → Result (List Child × List Child)
split_children at skip_left_child insert_right_child cs =
    let skip : ℕ = if skip_left_child then 1 else 0 in
    split_loop child_slot (order_child - (at + skip)) (at + skip) at 0
      (child_place insert_right_child) cs empty_node.children

-- `self`, and the node on the right
unfoldable pub split :
    ℕ → Bool → Option (ℕ × Separator) → Option (ℕ × Child) → Bool → Node → Result (Node × Node)
split at skip_left_child insert_right insert_right_child has_child n = do
  (ss, right) ←
      split_loop separator_slot (order - at) at at 0 insert_right n.separators empty_node.separators
  (cs, right_cs) ←
      if has_child
      then split_children at skip_left_child insert_right_child n.children
      else ok (n.children, empty_node.children)
  ok (
    record { separators = ss; children = cs; changed = true },
    record { separators = right; children = right_cs; changed = true },
  )

unfoldable pub number_separator : List Separator → ℕ
number_separator [] = 0
number_separator (s ∷ ss) =
    let more = number_separator ss in if is_some s.separator then more + 1 else 0

unfoldable pub need_rebalance : Node → Result Bool
need_rebalance n = do b ← has_separator (order / 2 - 1) n; ok (not b)

-- `last_separator_index`
unfoldable pub last_separator_index : Node → Option ℕ
last_separator_index n =
    let i = number_separator n.separators in if i == 0 then none else some (i - 1)
