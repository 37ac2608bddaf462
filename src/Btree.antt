-- ===== src/Btree.antt =====
-- src/btree/mod.rs and src/btree/node.rs: the nodes of a B-tree, and the arrays in them.
pub mod Slots
pub mod Operations
pub mod Insert
pub mod Codec
pub mod Search
use blockchain_parity_db.Prelude.{ℕ, Bool, true, false, Option, none, some, List, replicate}
use blockchain_parity_db.Bytes.{Bytes}

abbrev pub order : ℕ
order = 8

abbrev pub order_child : ℕ
order_child = 9

-- `NULL_ADDRESS`
abbrev pub null_address : ℕ
null_address = 0

pub record BTreeHeader : Type 0 where
  pub root : ℕ
  pub depth : ℕ

pub record SeparatorInner : Type 0 where
  pub key : Bytes
  pub value : ℕ

pub record Separator : Type 0 where
  pub modified : Bool
  pub separator : Option SeparatorInner

pub record Child : Type 0 where
  pub moved : Bool
  pub entry_index : Option ℕ

pub record Node : Type 0 where
  pub separators : List Separator
  pub children : List Child
  pub changed : Bool

abbrev pub no_separator : Separator
no_separator = record { modified = false; separator = none }

abbrev pub no_child : Child
no_child = record { moved = false; entry_index = none }

-- `default`
abbrev pub empty_node : Node
empty_node = record {
  separators = replicate order no_separator;
  children = replicate order_child no_child;
  changed = true;
}
