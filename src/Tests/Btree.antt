-- ===== src/Tests/Btree.antt =====
-- Nodes of a B-tree: an insertion into a full one, one that is written and read, and a search.
use blockchain_parity_db.Prelude.{
  ℕ, ◌+◌, ◌-◌, ◌≡◌, refl, Bool, true, false, Option, some, List, [], ◌∷◌, ◌++◌, map, length,
  replicate, ◌==◌, if◌then◌else◌, arith,
}
use blockchain_parity_db.Bytes.{Bytes, to_le, from_le, slice, splice}
use blockchain_parity_db.Outcome.{Result, ok}
use blockchain_parity_db.Value.Entry.{new, read_u64, read_slice, write_u64, write_slice}
use blockchain_parity_db.Btree.{SeparatorInner, Separator, Child, Node, no_separator, no_child}
use blockchain_parity_db.Btree.Insert.{insert_node}
use blockchain_parity_db.Btree.Insert.Order.{Splits, full, insert_node-IsSplit}
use blockchain_parity_db.Btree.Codec.{
  node_bytes, from_encoded, read_node, read_separator, read_there, read_key_size, read_u32,
  read_child_index, write_node, write_separator, write_key_size, write_u32, write_child_index,
}
use blockchain_parity_db.Btree.Codec.Written.{ArePacked}
use blockchain_parity_db.Btree.Codec.RoundTrip.{from_encoded-node_bytes, read_back}
use blockchain_parity_db.Btree.Search.{compare_keys, fetch_index, get_address}
use blockchain_parity_db.Btree.Search.Listing.{listing, list_slots, IsSorted, lookup}
use blockchain_parity_db.Btree.Search.Found.{get_address-listing}

abbrev key_of : ℕ → SeparatorInner
key_of i = record { key = (10 + i) ∷ []; value = 100 + i }

abbrev index_of : ℕ → ℕ
index_of i = 200 + i

abbrev unmarked : ℕ → Bool
unmarked i = false

abbrev new_key : SeparatorInner
new_key = record { key = 15 ∷ 1 ∷ []; value = 300 }

abbrev new_right : Option Child
new_right = some (record { moved = true; entry_index = some 400 })

-- Into the sixth place of an inner node
insert_node-IsSplit_example :
    Splits key_of index_of unmarked unmarked unmarked 6 new_key new_right (
      insert_node 6
        (record { modified = true; separator = some new_key })
        new_right
        (full key_of index_of unmarked unmarked unmarked new_right []))
insert_node-IsSplit_example =
    insert_node-IsSplit key_of index_of unmarked unmarked unmarked 6 new_key true new_right []
      (omega arith)

abbrev child : ℕ → Child
child i = record { moved = true; entry_index = some i }

abbrev separator : SeparatorInner → Separator
separator k = record { modified = true; separator = some k }

-- Two keys and three children
abbrev small : Node
small = record {
  separators =
      separator (key_of 1)
      ∷ separator new_key
      ∷ no_separator
      ∷ no_separator
      ∷ no_separator
      ∷ no_separator
      ∷ no_separator
      ∷ no_separator
      ∷ [];
  children =
      child 7
      ∷ child 8
      ∷ child 9
      ∷ no_child
      ∷ no_child
      ∷ no_child
      ∷ no_child
      ∷ no_child
      ∷ no_child
      ∷ [];
  changed = true;
}

packed : ArePacked small.children small.separators
packed = (
  omega arith,
  (
    omega arith,
    (
      omega arith,
      (
        omega arith,
        (
          omega arith,
          (
            refl,
            (refl, (refl, (refl, (refl, (refl, (refl, (refl, (refl, (refl, (refl, tt)))))))))),
          ),
        ),
      ),
    ),
  ),
)

from_encoded-node_bytes_example :
    (enc : Bytes) × (node_bytes small ≡ ok enc) × (from_encoded enc ≡ ok (read_back small))
from_encoded-node_bytes_example = from_encoded-node_bytes small refl refl packed

-- A tree of two levels: one key in the root, and two leaves below it
abbrev leaf : List SeparatorInner → Node
leaf ks = record {
  separators = map separator ks ++ replicate (8 - length ks) no_separator;
  children = replicate 9 no_child;
  changed = false;
}

abbrev entry_at : ℕ → Result Bytes
entry_at i = node_bytes (if i == 7 then leaf (key_of 1 ∷ key_of 2 ∷ []) else leaf (key_of 5 ∷ []))

abbrev root : Node
root = record {
  separators = separator (key_of 3) ∷ replicate 7 no_separator;
  children = child 7 ∷ child 8 ∷ replicate 7 no_child;
  changed = false;
}

abbrev all_keys : List SeparatorInner
all_keys = key_of 1 ∷ key_of 2 ∷ key_of 3 ∷ key_of 5 ∷ []

lists_all : listing entry_at 2 root ≡ ok all_keys
unfolding listing list_slots fetch_index from_encoded read_node read_separator read_there
    read_key_size read_u32 read_child_index node_bytes write_node write_separator write_key_size
    write_u32 write_child_index new read_u64 read_slice write_u64 write_slice to_le from_le slice
    splice
lists_all = refl

all_keys-IsSorted : IsSorted all_keys
unfolding compare_keys
all_keys-IsSorted = ((refl, (refl, (refl, tt))), ((refl, (refl, tt)), ((refl, tt), (tt, tt))))

get_address-listing_example : get_address entry_at 2 (15 ∷ []) root ≡ ok (lookup (15 ∷ []) all_keys)
get_address-listing_example =
    get_address-listing entry_at 2 (15 ∷ []) root all_keys lists_all all_keys-IsSorted
