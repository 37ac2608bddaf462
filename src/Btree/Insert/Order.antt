-- ===== src/Btree/Insert/Order.antt =====
-- Insertion into a full node, at each of its nine places: the order of the separators and of the children.
use blockchain_parity_db.Prelude.{
  ℕ, zero, suc, ◌+◌, ◌≤◌, ◌≡◌, refl, Bool, Option, none, some, List, [], ◌∷◌, ◌++◌, map, take, drop,
  arith,
}
use blockchain_parity_db.Outcome.{Result, ok}
use blockchain_parity_db.Btree.{SeparatorInner, Separator, Child, Node}
use blockchain_parity_db.Btree.Slots.{remove_slot, shift_loop, shift_slots, insert_slot, split_loop}
use blockchain_parity_db.Btree.Operations.{
  remove_separator, has_separator, set_separator, set_child, shift_from, split, split_children,
  number_separator,
}
use blockchain_parity_db.Btree.Insert.{
  set_new_child, insert_here, split_equal, split_less, split_greater, insert_full, insert_node,
}

abbrev pub key_first : Option SeparatorInner → List SeparatorInner → List SeparatorInner
key_first none more = []
key_first (some k) more = k ∷ more

-- The keys of a node with their values, up to the first empty place
abbrev pub keys : List Separator → List SeparatorInner
keys [] = []
keys (s ∷ ss) = key_first s.separator (keys ss)

-- The addresses of the children of an inner node, one more than it has keys; none are those of a leaf.
abbrev pub addresses : Option Child → Node → List (Option ℕ)
addresses none n = []
addresses (some c) n =
    take (number_separator n.separators + 1) (map (λ (x : Child). x.entry_index) n.children)

abbrev pub table : {A : Type 0} → ℕ → ℕ → (ℕ → A) → List A
table zero i f = []
table (suc n) i f = f i ∷ table n (i + 1) f

abbrev pub insert : {A : Type 0} → ℕ → A → List A → List A
insert i a xs = take i xs ++ a ∷ drop i xs

abbrev pub with_child : Option Child → ℕ → List (Option ℕ) → List (Option ℕ)
with_child none i cs = []
with_child (some c) i cs = insert i c.entry_index cs

-- The parts of a full node, with their marks: eight separators, and nine children in an inner node
module _ (key : ℕ → SeparatorInner) (index : ℕ → ℕ) (modified moved changed : ℕ → Bool) where
  abbrev pub children_of : Option Child → List Child → List Child
  children_of none others = others
  children_of (some c) others =
      table 9 0 (λ i. record { moved = moved i; entry_index = some (index i) })

  abbrev pub full : Option Child → List Child → Node
  full child others = record {
    separators = table 8 0 (λ i. record { modified = modified i; separator = some (key i) });
    children = children_of child others;
    changed = changed 0;
  }

  -- What a split makes of the full node
  pub record IsSplit (i : ℕ) (s : SeparatorInner) (child : Option Child)
      (out : Node × Separator × Node) : Type 0 where
    pub keys_in_order :
        keys out.0.separators ++ keys (out.1 ∷ out.2.separators) ≡ insert i s (table 8 0 key)
    pub children_in_order :
        addresses child out.0 ++ addresses child out.2
        ≡ with_child child (i + 1) (table 9 0 (λ j. some (index j)))
    pub left_half : number_separator out.0.separators ≡ 4
    pub right_half : number_separator out.2.separators ≡ 4

  abbrev pub Splits :
      ℕ → SeparatorInner → Option Child → Result (Node × Option (Separator × Node)) → Type 0
  Splits i s child (ok (left, some (up, right))) = IsSplit i s child (left, up, right)
  Splits i s child r = ⊥

  -- A key goes with its address into a full node, at each of its nine places, and in an inner node a child
  -- stands behind it: the node splits. The keys on the left, the key that goes up and those on the right are
  -- the eight keys with the new one at its place, the children are the nine with the new one behind that
  -- place, and both halves have four keys. Every child of the inner node is there.
  pub insert_node-IsSplit :
      (i : ℕ) (s : SeparatorInner) (b : Bool) (child : Option Child) (others : List Child)
      → i ≤ 8
      → Splits i s child
          (insert_node i (record { modified = b; separator = some s }) child (full child others))
  unfolding insert_node insert_full insert_here set_new_child split_equal split_less split_greater
      remove_separator has_separator set_separator set_child shift_from split split_children
      number_separator remove_slot shift_loop shift_slots insert_slot split_loop
  insert_node-IsSplit zero s b none others h = record {
    keys_in_order = refl;
    children_in_order = refl;
    left_half = refl;
    right_half = refl;
  }
  insert_node-IsSplit zero s b (some c) others h = record {
    keys_in_order = refl;
    children_in_order = refl;
    left_half = refl;
    right_half = refl;
  }
  insert_node-IsSplit (suc zero) s b none others h = record {
    keys_in_order = refl;
    children_in_order = refl;
    left_half = refl;
    right_half = refl;
  }
  insert_node-IsSplit (suc zero) s b (some c) others h = record {
    keys_in_order = refl;
    children_in_order = refl;
    left_half = refl;
    right_half = refl;
  }
  insert_node-IsSplit (suc (suc zero)) s b none others h = record {
    keys_in_order = refl;
    children_in_order = refl;
    left_half = refl;
    right_half = refl;
  }
  insert_node-IsSplit (suc (suc zero)) s b (some c) others h = record {
    keys_in_order = refl;
    children_in_order = refl;
    left_half = refl;
    right_half = refl;
  }
  insert_node-IsSplit (suc (suc (suc zero))) s b none others h = record {
    keys_in_order = refl;
    children_in_order = refl;
    left_half = refl;
    right_half = refl;
  }
  insert_node-IsSplit (suc (suc (suc zero))) s b (some c) others h = record {
    keys_in_order = refl;
    children_in_order = refl;
    left_half = refl;
    right_half = refl;
  }
  insert_node-IsSplit (suc (suc (suc (suc zero)))) s b none others h = record {
    keys_in_order = refl;
    children_in_order = refl;
    left_half = refl;
    right_half = refl;
  }
  insert_node-IsSplit (suc (suc (suc (suc zero)))) s b (some c) others h = record {
    keys_in_order = refl;
    children_in_order = refl;
    left_half = refl;
    right_half = refl;
  }
  insert_node-IsSplit (suc (suc (suc (suc (suc zero))))) s b none others h = record {
    keys_in_order = refl;
    children_in_order = refl;
    left_half = refl;
    right_half = refl;
  }
  insert_node-IsSplit (suc (suc (suc (suc (suc zero))))) s b (some c) others h = record {
    keys_in_order = refl;
    children_in_order = refl;
    left_half = refl;
    right_half = refl;
  }
  insert_node-IsSplit (suc (suc (suc (suc (suc (suc zero)))))) s b none others h = record {
    keys_in_order = refl;
    children_in_order = refl;
    left_half = refl;
    right_half = refl;
  }
  insert_node-IsSplit (suc (suc (suc (suc (suc (suc zero)))))) s b (some c) others h = record {
    keys_in_order = refl;
    children_in_order = refl;
    left_half = refl;
    right_half = refl;
  }
  insert_node-IsSplit (suc (suc (suc (suc (suc (suc (suc zero))))))) s b none others h = record {
    keys_in_order = refl;
    children_in_order = refl;
    left_half = refl;
    right_half = refl;
  }
  insert_node-IsSplit (suc (suc (suc (suc (suc (suc (suc zero))))))) s b (some c) others h =
      record { keys_in_order = refl; children_in_order = refl; left_half = refl; right_half = refl }
  insert_node-IsSplit (suc (suc (suc (suc (suc (suc (suc (suc zero)))))))) s b none others h =
      record { keys_in_order = refl; children_in_order = refl; left_half = refl; right_half = refl }
  insert_node-IsSplit (suc (suc (suc (suc (suc (suc (suc (suc zero)))))))) s b (some c) others h =
      record { keys_in_order = refl; children_in_order = refl; left_half = refl; right_half = refl }
  insert_node-IsSplit (suc (suc (suc (suc (suc (suc (suc (suc (suc i))))))))) s b child others h =
      absurd (omega arith)
