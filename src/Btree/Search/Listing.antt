-- ===== src/Btree/Search/Listing.antt =====
-- The keys of a tree in order, and what the search of a key finds among them
use Prim.Native.Nat.{Ordering}
use blockchain_parity_db.Prelude.{
  ℕ, zero, suc, ◌≡◌, ◌≢◌, refl, sym, ap, ◌∙◌, Bool-cases, false, inl, inr, Option, none, some, List,
  [], ◌∷◌, ◌++◌, arith, if◌then◌else◌,
}
use blockchain_parity_db.Bytes.{Bytes}
use blockchain_parity_db.Outcome.{Result, ok, panic, stuck, ◌>>=◌}
use blockchain_parity_db.Value.Entry.{same_bytes}
use blockchain_parity_db.Value.Entry.Cursor.{same_bytes_refl}
use blockchain_parity_db.KeyMap.{same_bytes→≡}
use blockchain_parity_db.Btree.{SeparatorInner, Separator, Child, Node}
use blockchain_parity_db.Btree.Search.{compare_keys, fetch_index}

module _ (entry_at : ℕ → Result Bytes) where
  abbrev pub below_of :
      Option Node → (Node → Result (List SeparatorInner)) → Result (List SeparatorInner)
  below_of none list = ok []
  below_of (some n) list = list n

  abbrev pub joined :
      List SeparatorInner
      → Option SeparatorInner
      → Result (List SeparatorInner)
      → Result (List SeparatorInner)
  joined below none rest = ok below
  joined below (some k) rest = do more ← rest; ok (below ++ k ∷ more)

  -- The keys below the children and between them, up to the first empty separator
  unfoldable pub list_slots :
      (Node → Result (List SeparatorInner))
      → List Child
      → List Separator
      → Result (List SeparatorInner)
  list_slots list [] ss = panic
  list_slots list (c ∷ cs) [] = do child ← fetch_index entry_at c.entry_index; below_of child list
  list_slots list (c ∷ cs) (s ∷ ss) = do
    child ← fetch_index entry_at c.entry_index
    below ← below_of child list
    joined below s.separator (list_slots list cs ss)

  -- The keys of a tree of at most that many levels, with their addresses, in order
  unfoldable pub listing : ℕ → Node → Result (List SeparatorInner)
  listing zero n = stuck
  listing (suc levels) n = list_slots (listing levels) n.children n.separators

abbrev pub AllAfter : Bytes → List SeparatorInner → Type 0
AllAfter key [] = Unit
AllAfter key (k ∷ ks) = (compare_keys key k.key ≡ Ordering.lt) × AllAfter key ks

-- Every key is less than all that follow it.
abbrev pub IsSorted : List SeparatorInner → Type 0
IsSorted [] = Unit
IsSorted (k ∷ ks) = AllAfter k.key ks × IsSorted ks

-- The address of a key in a list
unfoldable pub lookup : Bytes → List SeparatorInner → Option ℕ
lookup key [] = none
lookup key (k ∷ ks) = if same_bytes k.key key then some k.value else lookup key ks

compare_same : (a : Bytes) → compare_keys a a ≡ Ordering.eq
unfolding compare_keys
compare_same [] = refl
compare_same (b ∷ bs) = ground (arith, compare_same bs)

compare_eq : (a b : Bytes) → compare_keys a b ≡ Ordering.eq → a ≡ b
unfolding compare_keys
compare_eq [] [] e = refl
compare_eq [] (c ∷ cs) e = cc
compare_eq (b ∷ bs) [] e = cc
compare_eq (b ∷ bs) (c ∷ cs) e = ground (arith, compare_eq bs cs)

compare_gt : (a b : Bytes) → compare_keys a b ≡ Ordering.gt → compare_keys b a ≡ Ordering.lt
unfolding compare_keys
compare_gt [] [] e = cc
compare_gt [] (c ∷ cs) e = cc
compare_gt (b ∷ bs) [] e = refl
compare_gt (b ∷ bs) (c ∷ cs) e = ground (arith, compare_gt bs cs)

compare_lt : (a b : Bytes) → compare_keys a b ≡ Ordering.lt → compare_keys b a ≡ Ordering.gt
unfolding compare_keys
compare_lt [] [] e = cc
compare_lt [] (c ∷ cs) e = refl
compare_lt (b ∷ bs) [] e = cc
compare_lt (b ∷ bs) (c ∷ cs) e = ground (arith, compare_lt bs cs)

-- A key is not the same as one of which it is not the equal.
not_same :
    (a b : Bytes) (o : Ordering) → compare_keys a b ≡ o → o ≢ Ordering.eq → same_bytes b a ≡ false
not_same a b o e ne = elim (Bool-cases (same_bytes b a)) [
  | inl same ↦
      absurd
        (ne (sym e ∙ ap (λ (x : Bytes). compare_keys a x) (same_bytes→≡ b a same) ∙ compare_same a))
  | inr other ↦ other
]

lt≢eq : Ordering.lt ≢ Ordering.eq
lt≢eq e = cc

gt≢eq : Ordering.gt ≢ Ordering.eq
gt≢eq e = cc

-- A key before `k` is not among those behind it.
lookup-AllAfter :
    (key k : Bytes) (ks : List SeparatorInner)
    → compare_keys key k ≢ Ordering.gt
    → AllAfter k ks
    → lookup key ks ≡ none
unfolding lookup
lookup-AllAfter key k [] before after = refl
lookup-AllAfter key k (j ∷ ks) before after = elim (Bool-cases (same_bytes j.key key)) [
  | inl same ↦ absurd (
      before (compare_lt k key (ap (compare_keys k) (sym (same_bytes→≡ j.key key same)) ∙ after.0)))
  | inr other ↦ rw other (lookup-AllAfter key k ks before after.1)
]

AllAfter-mid :
    (b : Bytes) (xs : List SeparatorInner) (k : SeparatorInner) (more : List SeparatorInner)
    → AllAfter b (xs ++ k ∷ more)
    → compare_keys b k.key ≡ Ordering.lt
AllAfter-mid b [] k more after = after.0
AllAfter-mid b (x ∷ xs) k more after = AllAfter-mid b xs k more after.1

-- A key that is not before `k` is not among those in front of it.
lookup-before :
    (key : Bytes) (below : List SeparatorInner) (k : SeparatorInner) (more : List SeparatorInner)
    → compare_keys key k.key ≢ Ordering.lt
    → IsSorted (below ++ k ∷ more)
    → lookup key below ≡ none
unfolding lookup
lookup-before key [] k more from sorted = refl
lookup-before key (b ∷ below) k more from sorted = elim (Bool-cases (same_bytes b.key key)) [
  | inl same ↦ absurd (
      from (
        ap (λ (x : Bytes). compare_keys x k.key) (sym (same_bytes→≡ b.key key same))
        ∙ AllAfter-mid b.key below k more sorted.0))
  | inr other ↦ rw other (lookup-before key below k more from sorted.1)
]

AllAfter-left : (b : Bytes) (xs ys : List SeparatorInner) → AllAfter b (xs ++ ys) → AllAfter b xs
AllAfter-left b [] ys after = tt
AllAfter-left b (x ∷ xs) ys after = (after.0, AllAfter-left b xs ys after.1)

pub IsSorted-left : (xs ys : List SeparatorInner) → IsSorted (xs ++ ys) → IsSorted xs
IsSorted-left [] ys sorted = tt
IsSorted-left (x ∷ xs) ys sorted =
    (AllAfter-left x.key xs ys sorted.0, IsSorted-left xs ys sorted.1)

pub IsSorted-right : (xs ys : List SeparatorInner) → IsSorted (xs ++ ys) → IsSorted ys
IsSorted-right [] ys sorted = sorted
IsSorted-right (x ∷ xs) ys sorted = IsSorted-right xs ys sorted.1

lookup-append_none :
    (key : Bytes) (xs ys : List SeparatorInner)
    → lookup key xs ≡ none
    → lookup key (xs ++ ys) ≡ lookup key ys
unfolding lookup
lookup-append_none key [] ys e = refl
lookup-append_none key (x ∷ xs) ys e = ground (arith, lookup-append_none key xs ys)

lookup-append_left :
    (key : Bytes) (xs ys : List SeparatorInner)
    → lookup key ys ≡ none
    → lookup key (xs ++ ys) ≡ lookup key xs
unfolding lookup
lookup-append_left key [] ys e = e
lookup-append_left key (x ∷ xs) ys e = ground (arith, lookup-append_left key xs ys e)

-- Where a key is in `below`, `k` and `more`
pub lookup_lt :
    (key : Bytes) (below : List SeparatorInner) (k : SeparatorInner) (more : List SeparatorInner)
    → compare_keys key k.key ≡ Ordering.lt
    → IsSorted (below ++ k ∷ more)
    → lookup key (below ++ k ∷ more) ≡ lookup key below
unfolding lookup
lookup_lt key below k more e sorted =
    let behind = (IsSorted-right below (k ∷ more) sorted).0 in
    let absent : lookup key (k ∷ more) ≡ none =
      rw (not_same key k.key Ordering.lt e lt≢eq) (
        lookup-AllAfter key k.key more (λ (g : compare_keys key k.key ≡ Ordering.gt). cc) behind) in
    lookup-append_left key below (k ∷ more) absent

pub lookup_eq :
    (key : Bytes) (below : List SeparatorInner) (k : SeparatorInner) (more : List SeparatorInner)
    → compare_keys key k.key ≡ Ordering.eq
    → IsSorted (below ++ k ∷ more)
    → lookup key (below ++ k ∷ more) ≡ some k.value
unfolding lookup
lookup_eq key below k more e sorted =
    let same : key ≡ k.key = compare_eq key k.key e in
    lookup-append_none key below (k ∷ more)
      (lookup-before key below k more (λ (g : compare_keys key k.key ≡ Ordering.lt). cc) sorted)
    ∙ rw (sym same) (rw (same_bytes_refl key) refl)

pub lookup_gt :
    (key : Bytes) (below : List SeparatorInner) (k : SeparatorInner) (more : List SeparatorInner)
    → compare_keys key k.key ≡ Ordering.gt
    → IsSorted (below ++ k ∷ more)
    → lookup key (below ++ k ∷ more) ≡ lookup key more
unfolding lookup
lookup_gt key below k more e sorted =
    lookup-append_none key below (k ∷ more)
      (lookup-before key below k more (λ (g : compare_keys key k.key ≡ Ordering.lt). cc) sorted)
    ∙ rw (not_same key k.key Ordering.gt e gt≢eq) refl
