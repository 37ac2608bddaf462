-- ===== src/Btree/Search.antt =====
-- src/btree/node.rs, src/btree/btree.rs and src/btree/mod.rs: the search of a key, down from the root. The
-- fuel bounds the levels of the tree.
pub mod Listing
pub mod Found
use Prim.Native.Nat.{Ordering, compare}
use Prim.Native.String.{String}
use blockchain_parity_db.Prelude.{
  ℕ, zero, suc, ◌+◌, Bool, true, false, Option, none, some, List, [], ◌∷◌, get_elem?, ◌==◌,
  if◌then◌else◌,
}
use mathlib.Core.Option
use blockchain_parity_db.Bytes.{Bytes, Memory}
use blockchain_parity_db.Outcome.{Error, Result, ok, err, panic, stuck, corruption, ◌>>=◌}
use blockchain_parity_db.Index.Address
use blockchain_parity_db.Index.Address.{Address}
use blockchain_parity_db.Log.Overlay.{LogQuery}
use blockchain_parity_db.Value.Key.{TableKey, TableKeyQuery}
use blockchain_parity_db.Value.Entry.{new, read_u64}
use blockchain_parity_db.Column.{TablesRef}
use blockchain_parity_db.Column.Compression.{Codecs}
use blockchain_parity_db.Column.Values.{get_value}
use blockchain_parity_db.Btree.{
  null_address, BTreeHeader, SeparatorInner, Separator, Child, Node, empty_node,
}
use blockchain_parity_db.Btree.Slots.{at_slot}
use blockchain_parity_db.Btree.Operations.{separator_address}
use blockchain_parity_db.Btree.Codec.{from_encoded, read_u32}

-- `cmp` of two byte slices
unfoldable pub compare_keys : Bytes → Bytes → Ordering
compare_keys [] [] = Ordering.eq
compare_keys [] (c ∷ cs) = Ordering.lt
compare_keys (b ∷ bs) [] = Ordering.gt
compare_keys (b ∷ bs) (c ∷ cs) =
    let rest = compare_keys bs cs in
    elim (compare b c) [
      | Ordering.lt ↦ Ordering.lt
      | Ordering.eq ↦ rest
      | Ordering.gt ↦ Ordering.gt
    ]

abbrev pub after_compare : Ordering → ℕ → Bool × ℕ → Bool × ℕ
after_compare Ordering.lt i rest = (false, i)
after_compare Ordering.eq i rest = (true, i)
after_compare Ordering.gt i rest = rest

abbrev pub after_separator : Bytes → Option SeparatorInner → ℕ → Bool × ℕ → Bool × ℕ
after_separator key none i rest = (false, i)
after_separator key (some k) i rest = after_compare (compare_keys key k.key) i rest

-- The loop of `position`
unfoldable pub position_from : Bytes → ℕ → List Separator → Bool × ℕ
position_from key i [] = (false, i)
position_from key i (s ∷ ss) = after_separator key s.separator i (position_from key (i + 1) ss)

unfoldable pub position : Bytes → Node → Bool × ℕ
position key n = position_from key 0 n.separators

module _ (entry_at : ℕ → Result Bytes) where
  unfoldable pub fetch_index : Option ℕ → Result (Option Node)
  fetch_index none = ok none
  fetch_index (some index) = do enc ← entry_at index; n ← from_encoded enc; ok (some n)

  unfoldable pub fetch_child : ℕ → Node → Result (Option Node)
  fetch_child i n = do c ← at_slot i n.children; fetch_index c.entry_index

  abbrev pub in_child : Option Node → (Node → Result (Option ℕ)) → Result (Option ℕ)
  in_child none search = ok none
  in_child (some n) search = search n

  abbrev pub after_position : Node → (Node → Result (Option ℕ)) → Bool × ℕ → Result (Option ℕ)
  after_position n search (true, i) = separator_address i n
  after_position n search (false, i) = do child ← fetch_child i n; in_child child search

  -- `Node::get`
  unfoldable pub get_address : ℕ → Bytes → Node → Result (Option ℕ)
  get_address zero key n = stuck
  get_address (suc fuel) key n = after_position n (get_address fuel key) (position key n)

  -- `fetch_root`
  unfoldable pub fetch_root : ℕ → Result Node
  fetch_root root = if root == null_address then ok empty_node else (entry_at root >>= from_encoded)

abbrev pub header_address : Address
header_address = Address.new 1 0

abbrev pub present : Option (ℕ × Bytes) → Result Bytes
present none = err (corruption "Missing btree entry")
present (some (tier, value)) = ok value

abbrev pub header_of : Option (ℕ × Bytes) → Result BTreeHeader
header_of none = ok (record { root = null_address; depth = 0 })
header_of (some (tier, enc)) = do
  (root, e) ← read_u64 (new enc)
  (depth, e') ← read_u32 e
  ok (record { root = root; depth = depth })

-- `levels` bounds the nodes on the way down, and `fuel` the slots of a value.
module _ (codecs : Codecs) (uninit : Memory) (fuel levels : ℕ) where
  module _ {L : Type 0} ⦃log_query : LogQuery L⦄ (log : L) (ts : TablesRef) where
    unfoldable pub get_encoded_entry : ℕ → Result Bytes
    get_encoded_entry at = do
      found ← get_value codecs uninit fuel (TableKeyQuery.check TableKey.no_hash) at ts log
      present found

    unfoldable pub btree_header : Result BTreeHeader
    btree_header = do
      found ← get_value codecs uninit fuel TableKeyQuery.fetch_none header_address ts log
      header_of found

    abbrev value_at : Option ℕ → Result (Option Bytes)
    value_at none = ok none
    value_at (some address) = do
      found ← get_value codecs uninit fuel TableKeyQuery.fetch_none address ts log
      ok (Option.map (λ (r : ℕ × Bytes). r.1) found)

    -- `BTree::get`
    unfoldable pub get_in_tree : ℕ → Bytes → Result (Option Bytes)
    get_in_tree root key = do
      n ← fetch_root get_encoded_entry root
      address ← get_address get_encoded_entry levels key n
      value_at address

    -- `BTreeTable::get`
    unfoldable pub get : Bytes → Result (Option Bytes)
    get key = do
      h ← btree_header
      if h.root == null_address then ok none else get_in_tree h.root key
