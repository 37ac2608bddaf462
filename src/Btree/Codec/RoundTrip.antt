-- ===== src/Btree/Codec/RoundTrip.antt =====
-- A node that is written and read again
use blockchain_parity_db.Prelude.{
  ℕ, suc, ◌^◌, ◌<◌, ◌≡◌, refl, sym, ap, ap₂, ◌∙◌, Bool, true, false, Option, none, some, List, [],
  ◌∷◌, ◌++◌, replicate, length, leb, take, drop, length-drop, ◌==◌, map, arith,
}
use mathlib.Core.List.{append-nil, append_assoc}
use mathlib.Core.Path.{subst}
use blockchain_parity_db.Bytes.{Bytes, to_le, from_le, length-to_le, from_le-to_le, take-length}
use blockchain_parity_db.Outcome.{Result, ok, ◌>>=◌}
use blockchain_parity_db.Value.Entry.{Entry, new, read_slice, read_u64}
use blockchain_parity_db.Value.Entry.Cursor.{
  Ahead, moved, read_slice-Ahead, read_bytes-Ahead, new-Wrote,
}
use blockchain_parity_db.Btree.{
  order, order_child, SeparatorInner, Separator, Child, Node, no_separator, no_child,
}
use blockchain_parity_db.Btree.Codec.{
  read_u32, read_key_size, non_null, read_there, read_separator, read_child_index, read_rest,
  address_of, node_bytes, child_at, read_node, from_encoded,
}
use blockchain_parity_db.Btree.Codec.Written.{
  size_bytes, separator_bytes, KeyFits, key_bytes, bytes_of, IsAddress, AreUnused, PackedRest,
  ArePacked, write_node-Full,
}

read_u64-Ahead :
    (n : ℕ) (rest : Bytes) {e : Entry}
    → n < 2 ^ 64
    → Ahead e (to_le 8 n ++ rest)
    → (read_u64 e ≡ ok (n, moved 8 e)) × Ahead (moved 8 e) rest
unfolding read_u64
read_u64-Ahead n rest {e} h a =
    let (got, there) = read_bytes-Ahead 8 (to_le 8 n) rest (length-to_le 8 n) a in
    (rw (got, from_le-to_le 8 n h) refl, there)

read_u32-Ahead :
    (n : ℕ) (rest : Bytes) {e : Entry}
    → n < 2 ^ 32
    → Ahead e (to_le 4 n ++ rest)
    → (read_u32 e ≡ ok (n, moved 4 e)) × Ahead (moved 4 e) rest
unfolding read_u32
read_u32-Ahead n rest {e} h a =
    let (got, there) = read_bytes-Ahead 4 (to_le 4 n) rest (length-to_le 4 n) a in
    (rw (got, from_le-to_le 4 n h) refl, there)

non_null_address : (o : Option ℕ) → IsAddress o → non_null (address_of o) (address_of o) ≡ o
non_null_address none h = refl
non_null_address (some a) h = ground arith

address-lt : (o : Option ℕ) → IsAddress o → address_of o < 2 ^ 64
address-lt none h = omega arith
address-lt (some a) h = h.1

read_child-Ahead :
    (o : Option ℕ) (rest : Bytes) {e : Entry}
    → IsAddress o
    → Ahead e (to_le 8 (address_of o) ++ rest)
    → (read_child_index e ≡ ok (o, moved 8 e)) × Ahead (moved 8 e) rest
unfolding read_child_index
read_child-Ahead o rest {e} h a =
    let (got, there) = read_u64-Ahead (address_of o) rest (address-lt o h) a in
    (rw (got, non_null_address o h) refl, there)

read_size-case :
    (n : ℕ) (large : Bool) (rest : Bytes) {e : Entry}
    → leb 0xff n ≡ large
    → n < 2 ^ 32
    → Ahead e (size_bytes n ++ rest)
    → (e' : Entry) × (read_key_size e ≡ ok (n, e')) × Ahead e' rest
unfolding read_key_size from_le
read_size-case n true rest {e} large h a =
    let same : size_bytes n ≡ 0xff ∷ to_le 4 n = rw large refl in
    let (got, there) =
      read_bytes-Ahead 1 (0xff ∷ []) (to_le 4 n ++ rest) refl
        (subst (λ (x : Bytes). Ahead e (x ++ rest)) same a) in
    let (got', there') = read_u32-Ahead n rest h there in (moved 4 (moved 1 e), rw got got', there')
read_size-case n false rest {e} large h a =
    let same : size_bytes n ≡ n ∷ [] = rw large refl in
    let (got, there) =
      read_bytes-Ahead 1 (n ∷ []) rest refl (subst (λ (x : Bytes). Ahead e (x ++ rest)) same a) in
    (moved 1 e, rw got (ground (arith, large)), there)

read_parts :
    (k : SeparatorInner) (e e₁ e₂ e₃ : Entry)
    → (e.offset == length e.bytes) ≡ false
    → read_u64 e ≡ ok (k.value, e₁)
    → read_key_size e₁ ≡ ok (length k.key, e₂)
    → read_slice (length k.key) e₂ ≡ ok (k.key, e₃)
    → 0 < k.value
    → read_separator e ≡ ok (some k, e₃)
unfolding read_separator read_there
read_parts k e e₁ e₂ e₃ more got₁ got₂ got₃ used = rw (more, got₁, got₂, got₃) (ground arith)

not_at_end :
    (b : ℕ) (x : Bytes) {e : Entry} → Ahead e (b ∷ x) → (e.offset == length e.bytes) ≡ false
not_at_end b x {e} a =
    let there : length (drop e.offset e.bytes) ≡ suc (length x) = ap length a.rest in
    ground (arith, length-drop e.offset e.bytes, there)

read_separator-Ahead :
    (k : SeparatorInner) (rest : Bytes) {e : Entry}
    → KeyFits k
    → Ahead e (separator_bytes k ++ rest)
    → (e' : Entry) × (read_separator e ≡ ok (some k, e')) × Ahead e' rest
unfolding to_le
read_separator-Ahead k rest {e} fits a =
    let n = length k.key in
    let apart : Ahead e (to_le 8 k.value ++ (size_bytes n ++ (k.key ++ rest))) =
      subst (λ (x : Bytes). Ahead e x)
        (append_assoc (to_le 8 k.value) (size_bytes n ++ k.key) rest
          ∙ ap (λ (x : Bytes). to_le 8 k.value ++ x) (append_assoc (size_bytes n) k.key rest))
        a in
    let (got₁, a₁) = read_u64-Ahead k.value (size_bytes n ++ (k.key ++ rest)) fits.1 apart in
    let (e₂, got₂, a₂) = read_size-case n (leb 0xff n) (k.key ++ rest) refl fits.2 a₁ in
    let (got₃, a₃) = read_slice-Ahead k.key rest a₂ in
    (
      moved n e₂,
      read_parts k e (moved 8 e) e₂ (moved n e₂) (not_at_end _ _ apart) got₁ got₂ got₃ fits.0,
      a₃,
    )

at_end : {e : Entry} → Ahead e [] → read_separator e ≡ ok (none, e)
unfolding read_separator
at_end {e} a =
    let none_left : length (drop e.offset e.bytes) ≡ 0 = ap length a.rest in
    let last : (e.offset == length e.bytes) ≡ true =
      ground (arith, length-drop e.offset e.bytes, none_left, a.bound) in
    rw last refl

-- What a node is when it is read: no part of it has changed.
abbrev pub unmoved : Child → Child
unmoved c = record c { moved = false }

abbrev pub unmodified : Separator → Separator
unmodified s = record s { modified = false }

unused_children :
    (cs : List Child) (ss : List Separator)
    → AreUnused cs ss
    → replicate (length cs) no_child ≡ map unmoved cs
unused_children [] ss h = refl
unused_children (c ∷ cs) ss h =
    ap₂ (λ (x : Child) xs. x ∷ xs) (ap (λ o. child_at o) (sym h.0)) (unused_children cs ss h.1)

unused_separators :
    (cs : List Child) (ss : List Separator)
    → AreUnused cs ss
    → replicate (length ss) no_separator ≡ map unmodified ss
unused_separators (c ∷ cs) ss h = unused_separators cs ss h.1
unused_separators [] [] h = refl
unused_separators [] (s ∷ ss) h =
    ap₂ (λ (x : Separator) xs. x ∷ xs)
      (ap (λ o. let s : Separator = record { modified = false; separator = o } in s) (sym h.0))
      (unused_separators [] ss h.1)

abbrev Slots : Type 0
Slots = List Child × List Separator

read_rest-Ahead :
    (o : Option SeparatorInner) (c : Child) (cs : List Child) (ss : List Separator) (P : Type 0)
    (rest : Entry → Result Slots) (x : Bytes) {e : Entry}
    → length cs ≡ suc (length ss)
    → PackedRest o cs ss P
    → Ahead e (key_bytes o x)
    → (P → (e' : Entry) → Ahead e' x → rest e' ≡ ok (map unmoved cs, map unmodified ss))
    → (read_separator e >>= (λ (r : Option SeparatorInner × Entry).
        read_rest (length ss) c.entry_index r.0 r.1 rest))
      ≡ ok (
        unmoved c ∷ map unmoved cs,
        record { modified = false; separator = o } ∷ map unmodified ss,
      )
read_rest-Ahead none c cs ss P rest x {e} len packed a reads =
    let behind : replicate (suc (length ss)) no_child ≡ map unmoved cs =
      ap (λ (n : ℕ). replicate n no_child) (sym len) ∙ unused_children cs ss packed in
    rw (at_end a) (
      ap₂ (λ (l : List Child) (m : List Separator). ok (unmoved c ∷ l, no_separator ∷ m)) behind
        (unused_separators cs ss packed))
read_rest-Ahead (some k) c cs ss P rest x {e} len packed a reads =
    let (e', got, there) = read_separator-Ahead k x packed.0 a in
    let more = reads packed.1 e' there in rw got (rw more refl)

read_node-Ahead :
    (cs : List Child) (ss : List Separator)
    → length cs ≡ suc (length ss)
    → ArePacked cs ss
    → (e : Entry) → Ahead e (bytes_of cs ss)
    → read_node (length cs) e ≡ ok (map unmoved cs, map unmodified ss)
unfolding read_node
read_node-Ahead [] ss len packed e a = absurd packed
read_node-Ahead (c ∷ []) [] len packed e a =
    let (got, there) = read_child-Ahead c.entry_index [] packed (
      subst (λ (x : Bytes). Ahead e x) (sym (append-nil (to_le 8 (address_of c.entry_index)))) a) in
    rw got refl
read_node-Ahead (c ∷ []) (s ∷ ss) len packed e a = absurd packed
read_node-Ahead (c ∷ d ∷ cs) [] len packed e a = absurd packed
read_node-Ahead (c ∷ d ∷ cs) (s ∷ ss) len packed e a =
    let (got, there) =
      read_child-Ahead c.entry_index (key_bytes s.separator (bytes_of (d ∷ cs) ss)) packed.0 a in
    let n : length cs ≡ length ss = omega (arith, len) in
    let more =
      read_rest-Ahead s.separator c (d ∷ cs) ss (ArePacked (d ∷ cs) ss)
        (read_node (suc (length cs))) (bytes_of (d ∷ cs) ss) (omega (arith, len)) packed.1 there
        (λ p e' a'. read_node-Ahead (d ∷ cs) ss (omega (arith, len)) p e' a') in
    rw (got, n) (rw n at more)

abbrev pub read_back : Node → Node
read_back n = record {
  separators = map unmodified n.separators;
  children = map unmoved n.children;
  changed = false;
}

-- A node that is written to bytes is read back from them as it was, with no part of it marked as changed. Its
-- separators fill their array of eight from the left, with no child of the nine behind the last one's; the
-- addresses are words other than the null address, and a key has less than 2^32 bytes.
pub from_encoded-node_bytes :
    (n : Node)
    → length n.children ≡ order_child
    → length n.separators ≡ order
    → ArePacked n.children n.separators
    → (enc : Bytes) × (node_bytes n ≡ ok enc) × (from_encoded enc ≡ ok (read_back n))
unfolding node_bytes from_encoded new
from_encoded-node_bytes n nine eight packed =
    let (e, got, w) = write_node-Full n.children n.separators packed [] (new []) (new-Wrote []) in
    let all : e.bytes ≡ bytes_of n.children n.separators =
      sym (take-length e.bytes)
      ∙ ap (λ (i : ℕ). take i e.bytes) (w.sized ∙ sym w.at_end)
      ∙ w.done in
    let back =
      read_node-Ahead n.children n.separators (omega (arith, nine, eight)) packed (new e.bytes)
        (record { bound = omega arith; rest = all }) in
    (e.bytes, rw got refl, rw (rw nine at back) refl)
