-- ===== src/Btree/Codec.antt =====
-- src/btree/mod.rs and src/btree/node.rs: the bytes of a node and of the header. A node ends behind its last
-- child, and the places of the arrays that were not read keep their default.
pub mod Written
pub mod RoundTrip
use blockchain_parity_db.Prelude.{
  ℕ, zero, suc, ◌+◌, ◌%◌, ◌^◌, Bool, true, false, Option, none, some, List, [], ◌∷◌, ◌++◌,
  replicate, length, leb, take, ◌==◌, if◌then◌else◌,
}
use blockchain_parity_db.Bytes.{Bytes, to_le, from_le}
use blockchain_parity_db.Outcome.{Result, ok, panic, stuck, ◌>>=◌}
use blockchain_parity_db.Value.Entry.{
  Entry, new, read_slice, write_slice, read_u64, write_u64, set_offset,
}
use blockchain_parity_db.Btree.{
  order_child, null_address, BTreeHeader, SeparatorInner, Separator, Child, Node, no_separator,
  no_child,
}

-- `inner_mut().resize(inner_size + n, 0)`
abbrev pub resized : ℕ → Entry → Entry
resized n e = record e { bytes = e.bytes ++ replicate n 0 }

unfoldable pub read_u32 : Entry → Result (ℕ × Entry)
read_u32 e = do (bs, e') ← read_slice 4 e; ok (from_le bs, e')

unfoldable pub write_u32 : ℕ → Entry → Result Entry
write_u32 n = write_slice (to_le 4 n)

unfoldable pub read_key_size : Entry → Result (ℕ × Entry)
read_key_size e = do
  (head, e') ← read_slice 1 e
  if from_le head == 0xff then read_u32 e' else ok (from_le head, e')

abbrev pub non_null : {A : Type 0} → ℕ → A → Option A
non_null n a = if n == null_address then none else some a

-- `read_separator`, once the buffer is not at its end
unfoldable pub read_there : Entry → Result (Option SeparatorInner × Entry)
read_there e = do
  (value, e₁) ← read_u64 e
  (size, e₂) ← read_key_size e₁
  (key, e₃) ← read_slice size e₂
  ok (non_null value (record { key = key; value = value }), e₃)

unfoldable pub read_separator : Entry → Result (Option SeparatorInner × Entry)
read_separator e = if e.offset == length e.bytes then ok (none, e) else read_there e

unfoldable pub write_key_size : ℕ → Entry → Result Entry
write_key_size size e =
    if leb 0xff size
    then write_slice (0xff ∷ []) e >>= (λ (e' : Entry). write_u32 (size % 2 ^ 32) e')
    else write_slice (size ∷ []) e

unfoldable pub write_separator : Bytes → ℕ → Entry → Result Entry
write_separator key value e = do
  e₁ ← write_u64 value (
      if leb 0xff (length key)
      then resized (8 + 1 + 4 + length key) e
      else resized (8 + 1 + length key) e)
  e₂ ← write_key_size (length key) e₁
  write_slice key e₂

unfoldable pub read_child_index : Entry → Result (Option ℕ × Entry)
read_child_index e = do (index, e') ← read_u64 e; ok (non_null index index, e')

unfoldable pub write_child_index : ℕ → Entry → Result Entry
write_child_index index e = write_u64 index (resized 8 e)

-- `write_header`: the buffer has the 12 bytes of the header.
unfoldable pub write_header : BTreeHeader → Entry → Result Entry
write_header h e = do
  e' ← write_u64 h.root (record { offset = 0; bytes = take 12 (e.bytes ++ replicate 12 0) })
  write_u32 h.depth e'

-- `entry_index`, or `NULL_ADDRESS`
abbrev pub address_of : Option ℕ → ℕ
address_of none = null_address
address_of (some a) = a

-- The separator behind a child, and the rest of the loop
abbrev pub write_rest : Option SeparatorInner → Entry → (Entry → Result Entry) → Result Entry
write_rest none e rest = ok e
write_rest (some k) e rest = do e' ← write_separator k.key k.value e; rest e'

-- The loop of `write_node_plan`
unfoldable pub write_node : List Child → List Separator → Entry → Result Entry
write_node [] ss e = panic
write_node (c ∷ []) ss e = write_child_index (address_of c.entry_index) e
write_node (c ∷ d ∷ cs) [] e = panic
write_node (c ∷ d ∷ cs) (s ∷ ss) e = do
  e' ← write_child_index (address_of c.entry_index) e
  write_rest s.separator e' (write_node (d ∷ cs) ss)

-- The bytes that `write_node_plan` hands to the value tables
unfoldable pub node_bytes : Node → Result Bytes
node_bytes n = do e ← write_node n.children n.separators (new []); ok e.bytes

abbrev pub child_at : Option ℕ → Child
child_at index = record { moved = false; entry_index = index }

abbrev pub separator_of : SeparatorInner → Separator
separator_of k = record { modified = false; separator = some k }

-- The separator behind a child, and the rest of the loop
abbrev pub read_rest :
    ℕ
    → Option ℕ
    → Option SeparatorInner
    → Entry
    → (Entry → Result (List Child × List Separator))
    → Result (List Child × List Separator)
read_rest n c none e rest =
    ok (child_at c ∷ replicate (suc n) no_child, no_separator ∷ replicate n no_separator)
read_rest n c (some k) e rest = do (cs, ss) ← rest e; ok (child_at c ∷ cs, separator_of k ∷ ss)

-- The loop of `from_encoded`, for the children that are left
unfoldable pub read_node : ℕ → Entry → Result (List Child × List Separator)
read_node zero e = stuck
read_node (suc zero) e = do (c, e') ← read_child_index e; ok (child_at c ∷ [], [])
read_node (suc (suc n)) e = do
  (c, e₁) ← read_child_index e
  (s, e₂) ← read_separator e₁
  read_rest n c s e₂ (read_node (suc n))

unfoldable pub from_encoded : Bytes → Result Node
from_encoded enc = do
  (cs, ss) ← read_node order_child (new enc)
  ok (record { separators = ss; children = cs; changed = false })
