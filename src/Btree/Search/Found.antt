-- ===== src/Btree/Search/Found.antt =====
-- The search of a key against the list of all keys of the tree
use Prim.Native.Nat.{Ordering}
use blockchain_parity_db.Prelude.{
  ℕ, zero, suc, ◌+◌, ◌≡◌, refl, sym, ap, ◌∙◌, Bool, true, false, Option, none, some, List, [], ◌∷◌,
  ◌++◌, get_elem?, arith,
}
use mathlib.Core.Path.{subst}
use blockchain_parity_db.Bytes.{Bytes}
use blockchain_parity_db.Outcome.{Result, ok, bind_ok, ◌>>=◌}
use blockchain_parity_db.Btree.{SeparatorInner, Separator, Child, Node}
use blockchain_parity_db.Btree.Operations.{separator_address}
use blockchain_parity_db.Btree.Search.{
  compare_keys, after_compare, after_separator, position_from, position, fetch_index, fetch_child,
  in_child, after_position, get_address,
}
use blockchain_parity_db.Btree.Search.Listing.{
  below_of, joined, list_slots, listing, IsSorted, lookup, lookup_lt, lookup_eq, lookup_gt,
  IsSorted-left, IsSorted-right,
}

module _ (entry_at : ℕ → Result Bytes) (key : Bytes) (search : Node → Result (Option ℕ))
    (list : Node → Result (List SeparatorInner))
    (agree : (m : Node) (ks : List SeparatorInner)
      → list m ≡ ok ks
      → IsSorted ks
      → search m ≡ ok (lookup key ks))
    (n : Node) where
  in_child_lem :
      (child : Option Node) (ks : List SeparatorInner)
      → below_of entry_at child list ≡ ok ks
      → IsSorted ks
      → in_child entry_at child search ≡ ok (lookup key ks)
  unfolding lookup
  in_child_lem none [] e sorted = refl
  in_child_lem none (k ∷ ks) e sorted = cc
  in_child_lem (some m) ks e sorted = agree m ks e sorted

  -- The search goes down where `position` has stopped without the key.
  below_lem :
      (i : ℕ) (c : Child) (child : Option Node) (ks : List SeparatorInner)
      → get_elem? n.children i ≡ some c
      → fetch_index entry_at c.entry_index ≡ ok child
      → below_of entry_at child list ≡ ok ks
      → IsSorted ks
      → after_position entry_at n search (false, i) ≡ ok (lookup key ks)
  unfolding fetch_child
  below_lem i c child ks at fetched e sorted = rw (at, fetched) (in_child_lem child ks e sorted)

  at_key :
      (i : ℕ) (s : Separator) (k : SeparatorInner)
      → get_elem? n.separators i ≡ some s
      → s.separator ≡ some k
      → after_position entry_at n search (true, i) ≡ ok (some k.value)
  unfolding separator_address
  at_key i s k at e = rw (at, e) refl

  compared :
      (o : Ordering) (i : ℕ) (s : Separator) (k : SeparatorInner) (below more : List SeparatorInner)
      (rest : Bool × ℕ)
      → compare_keys key k.key ≡ o
      → get_elem? n.separators i ≡ some s
      → s.separator ≡ some k
      → IsSorted (below ++ k ∷ more)
      → after_position entry_at n search (false, i) ≡ ok (lookup key below)
      → after_position entry_at n search rest ≡ ok (lookup key more)
      → after_position entry_at n search (after_compare o i rest)
        ≡ ok (lookup key (below ++ k ∷ more))
  compared Ordering.lt i s k below more rest e at is_k sorted left right =
      left ∙ ap (λ (o : Option ℕ). ok o) (sym (lookup_lt key below k more e sorted))
  compared Ordering.eq i s k below more rest e at is_k sorted left right =
      at_key i s k at is_k ∙ ap (λ (o : Option ℕ). ok o) (sym (lookup_eq key below k more e sorted))
  compared Ordering.gt i s k below more rest e at is_k sorted left right =
      right ∙ ap (λ (o : Option ℕ). ok o) (sym (lookup_gt key below k more e sorted))

  separator_lem :
      (o : Option SeparatorInner) (i : ℕ) (s : Separator) (below ks : List SeparatorInner)
      (rest : Bool × ℕ) (listed : Result (List SeparatorInner))
      → get_elem? n.separators i ≡ some s
      → s.separator ≡ o
      → joined entry_at below o listed ≡ ok ks
      → IsSorted ks
      → (IsSorted below → after_position entry_at n search (false, i) ≡ ok (lookup key below))
      → ((more : List SeparatorInner)
          → listed ≡ ok more
          → IsSorted more
          → after_position entry_at n search rest ≡ ok (lookup key more))
      → after_position entry_at n search (after_separator key o i rest) ≡ ok (lookup key ks)
  separator_lem none i s below ks rest listed at is_o e sorted left right =
      let same : below ≡ ks = cc in
      left (subst (λ l. IsSorted l) (sym same) sorted) ∙ ap (λ l. ok (lookup key l)) same
  separator_lem (some k) i s below ks rest listed at is_o e sorted left right =
      let (more, listed', e') =
        bind_ok listed (λ (more : List SeparatorInner). ok (below ++ k ∷ more)) e in
      let same : below ++ k ∷ more ≡ ks = cc in
      let all : IsSorted (below ++ k ∷ more) = subst (λ l. IsSorted l) (sym same) sorted in
      compared (compare_keys key k.key) i s k below more rest refl at is_o all
        (left (IsSorted-left below (k ∷ more) all))
        (right more listed' (IsSorted-right below (k ∷ more) all).1)
      ∙ ap (λ l. ok (lookup key l)) same

  slots_lem :
      (i : ℕ) (cs : List Child) (ss : List Separator) (ks : List SeparatorInner)
      → ((j : ℕ) → get_elem? n.children (i + j) ≡ get_elem? cs j)
      → ((j : ℕ) → get_elem? n.separators (i + j) ≡ get_elem? ss j)
      → list_slots entry_at list cs ss ≡ ok ks
      → IsSorted ks
      → after_position entry_at n search (position_from key i ss) ≡ ok (lookup key ks)
  unfolding list_slots position_from
  slots_lem i [] ss ks at_c at_s e sorted = cc
  slots_lem i (c ∷ cs) [] ks at_c at_s e sorted =
      let (child, fetched, e') =
        bind_ok (fetch_index entry_at c.entry_index)
          (λ (child : Option Node). below_of entry_at child list) e in
      let at : get_elem? n.children i ≡ some c = ap (get_elem? n.children) (omega arith) ∙ at_c 0 in
      below_lem i c child ks at fetched e' sorted
  slots_lem i (c ∷ cs) (s ∷ ss) ks at_c at_s e sorted =
      let (child, fetched, e₁) =
        bind_ok (fetch_index entry_at c.entry_index)
          (λ (child : Option Node).
            below_of entry_at child list >>= (λ (below : List SeparatorInner).
              joined entry_at below s.separator (list_slots entry_at list cs ss)))
          e in
      let (below, listed, e₂) =
        bind_ok (below_of entry_at child list)
          (λ (below : List SeparatorInner).
            joined entry_at below s.separator (list_slots entry_at list cs ss))
          e₁ in
      let at : get_elem? n.children i ≡ some c = ap (get_elem? n.children) (omega arith) ∙ at_c 0 in
      let at' : get_elem? n.separators i ≡ some s =
        ap (get_elem? n.separators) (omega arith) ∙ at_s 0 in
      separator_lem s.separator i s below ks (position_from key (i + 1) ss)
        (list_slots entry_at list cs ss) at' refl e₂ sorted
        (λ all. below_lem i c child below at fetched listed all)
        (λ more listed' all.
          slots_lem (i + 1) cs ss more (λ j. ap (get_elem? n.children) (omega arith) ∙ at_c (suc j))
            (λ j. ap (get_elem? n.separators) (omega arith) ∙ at_s (suc j)) listed' all)

-- If every node of a tree of at most `levels` levels can be read, and its keys, listed in order, grow, then
-- the search from its root, with fuel for as many levels, returns the address of the key in that list, or that it is
-- not there.
pub get_address-listing :
    (entry_at : ℕ → Result Bytes) (levels : ℕ) (key : Bytes) (n : Node) (ks : List SeparatorInner)
    → listing entry_at levels n ≡ ok ks
    → IsSorted ks
    → get_address entry_at levels key n ≡ ok (lookup key ks)
unfolding listing get_address position
get_address-listing entry_at zero key n ks e sorted = cc
get_address-listing entry_at (suc levels) key n ks e sorted =
    slots_lem entry_at key (get_address entry_at levels key) (listing entry_at levels)
      (get_address-listing entry_at levels key) n 0 n.children n.separators ks
      (λ j. ap (get_elem? n.children) (omega arith))
      (λ j. ap (get_elem? n.separators) (omega arith)) e sorted
