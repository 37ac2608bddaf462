-- ===== src/Btree/Codec/Written.antt =====
-- The bytes that a node is written as
use blockchain_parity_db.Prelude.{
  ℕ, suc, ◌+◌, ◌%◌, ◌^◌, ◌≤◌, ◌<◌, ◌≡◌, refl, sym, ap, ◌∙◌, Bool, true, false, Bool-cases, inl, inr,
  Option, none, some, List, [], ◌∷◌, ◌++◌, replicate, length, leb, length-append, length-replicate,
  if◌then◌else◌, arith,
}
use mathlib.Core.List.{append-nil, append_assoc}
use mathlib.Core.Path.{subst}
use blockchain_parity_db.Bytes.{Bytes, to_le, length-to_le, take-append}
use blockchain_parity_db.Outcome.{Result, ok}
use blockchain_parity_db.Value.Entry.{Entry, write_slice, write_u64}
use blockchain_parity_db.Value.Entry.Cursor.{Wrote, write_slice-Wrote}
use blockchain_parity_db.Btree.{SeparatorInner, Separator, Child}
use blockchain_parity_db.Btree.Codec.{
  resized, write_u32, write_key_size, write_separator, write_child_index, write_rest, address_of,
  write_node,
}

-- The bytes of a key's size, of a separator and of a child
abbrev pub size_bytes : ℕ → Bytes
size_bytes size = if leb 0xff size then 0xff ∷ to_le 4 size else size ∷ []

abbrev pub separator_bytes : SeparatorInner → Bytes
separator_bytes k = to_le 8 k.value ++ (size_bytes (length k.key) ++ k.key)

abbrev pub KeyFits : SeparatorInner → Type 0
KeyFits k = (0 < k.value) × (k.value < 2 ^ 64) × (length k.key < 2 ^ 32)

-- The buffer is full of `bs`.
abbrev pub Full : Entry → Bytes → Type 0
Full e bs = Wrote e (length bs) bs

resized-Wrote :
    (n size : ℕ) (bs : Bytes) {e : Entry}
    → Wrote e size bs
    → length bs ≤ size
    → Wrote (resized n e) (size + n) bs
resized-Wrote n size bs {e} w le = record {
  at_end = w.at_end;
  sized =
      length-append e.bytes (replicate n 0)
      ∙ omega (arith, w.sized, length-replicate n (let z : ℕ = 0 in z));
  done = take-append e.offset e.bytes (replicate n 0) (omega (arith, w.at_end, w.sized)) ∙ w.done;
}

write_u64-Wrote :
    (n : ℕ) (bs : Bytes) (size : ℕ) {e : Entry}
    → Wrote e size bs
    → length bs + 8 ≤ size
    → (e' : Entry) × (write_u64 n e ≡ ok e') × Wrote e' size (bs ++ to_le 8 n)
unfolding write_u64
write_u64-Wrote n bs size w room =
    write_slice-Wrote (to_le 8 n) bs size w (omega (arith, length-to_le 8 n))

write_child-Full :
    (index : ℕ) (bs : Bytes) {e : Entry}
    → Full e bs
    → (e' : Entry) × (write_child_index index e ≡ ok e') × Full e' (bs ++ to_le 8 index)
unfolding write_child_index
write_child-Full index bs {e} w =
    let (e', got, there) =
      write_u64-Wrote index bs (length bs + 8) (resized-Wrote 8 (length bs) bs w (omega arith))
        (omega arith) in
    (
      e',
      got,
      subst (λ (n : ℕ). Wrote e' n (bs ++ to_le 8 index))
          (omega (arith, length-append bs (to_le 8 index), length-to_le 8 index)) there,
    )

large_size :
    (n : ℕ) (e e₁ e₂ : Entry)
    → leb 0xff n ≡ true
    → write_slice (0xff ∷ []) e ≡ ok e₁
    → write_slice (to_le 4 (n % 2 ^ 32)) e₁ ≡ ok e₂
    → write_key_size n e ≡ ok e₂
unfolding write_key_size write_u32
large_size n e e₁ e₂ large got₁ got₂ = rw (large, got₁) got₂

separator_parts :
    (k : SeparatorInner) (e e₀ e₁ e₂ e₃ : Entry)
    → (if leb 0xff (length k.key)
        then resized (8 + 1 + 4 + length k.key) e
        else resized (8 + 1 + length k.key) e)
      ≡ e₀
    → write_u64 k.value e₀ ≡ ok e₁
    → write_key_size (length k.key) e₁ ≡ ok e₂
    → write_slice k.key e₂ ≡ ok e₃
    → write_separator k.key k.value e ≡ ok e₃
unfolding write_separator
separator_parts k e e₀ e₁ e₂ e₃ grown got₁ got₂ got₃ = rw (grown, got₁, got₂) got₃

size_case :
    (n : ℕ) (bs : Bytes) (size : ℕ) (large : Bool) {e : Entry}
    → leb 0xff n ≡ large
    → n < 2 ^ 32
    → Wrote e size bs
    → length bs + length (size_bytes n) ≤ size
    → (e' : Entry) × (write_key_size n e ≡ ok e') × Wrote e' size (bs ++ size_bytes n)
unfolding write_key_size
size_case n bs size true {e} large small w room =
    let fits : length bs + 5 ≤ size = ground (arith, large, length-to_le 4 n) in
    let (e₁, got₁, w₁) = write_slice-Wrote (0xff ∷ []) bs size w (omega arith) in
    let (e₂, got₂, w₂) =
      write_slice-Wrote (to_le 4 (n % 2 ^ 32)) (bs ++ 0xff ∷ []) size w₁
        (omega (arith, length-append bs (0xff ∷ []), length-to_le 4 (n % 2 ^ 32))) in
    let same : n % 2 ^ 32 ≡ n = omega arith in
    let bytes : (bs ++ 0xff ∷ []) ++ to_le 4 (n % 2 ^ 32) ≡ bs ++ size_bytes n =
      append_assoc bs (0xff ∷ []) (to_le 4 (n % 2 ^ 32))
      ∙ rw large (ap (λ (x : ℕ). bs ++ 0xff ∷ to_le 4 x) same) in
    (e₂, large_size n e e₁ e₂ large got₁ got₂, subst (λ (x : Bytes). Wrote e₂ size x) bytes w₂)
size_case n bs size false {e} large small w room =
    let (e₁, got₁, w₁) = write_slice-Wrote (n ∷ []) bs size w (ground (arith, large)) in
    (e₁, rw large got₁, subst (λ (x : Bytes). Wrote e₁ size x) (rw large refl) w₁)

length-size_bytes : (n : ℕ) → length (size_bytes n) ≡ (if leb 0xff n then 5 else 1)
length-size_bytes n = elim (Bool-cases (leb 0xff n)) [
  | inl e ↦ rw e (ap suc (length-to_le 4 n))
  | inr e ↦ rw e refl
]

-- What `write_separator` makes room for
grown-Wrote :
    (k : Bytes) (bs : Bytes) (large : Bool) {e : Entry}
    → leb 0xff (length k) ≡ large
    → Full e bs
    → Wrote
        (if leb 0xff (length k)
          then resized (8 + 1 + 4 + length k) e
          else resized (8 + 1 + length k) e)
        (length bs + (8 + length (size_bytes (length k)) + length k))
        bs
grown-Wrote k bs true {e} large w = rw (length-size_bytes (length k)) (
    rw large (
      subst (λ (n : ℕ). Wrote (resized (8 + 1 + 4 + length k) e) n bs) (omega arith)
        (resized-Wrote (8 + 1 + 4 + length k) (length bs) bs w (omega arith))))
grown-Wrote k bs false {e} large w = rw (length-size_bytes (length k)) (
    rw large (
      subst (λ (n : ℕ). Wrote (resized (8 + 1 + length k) e) n bs) (omega arith)
        (resized-Wrote (8 + 1 + length k) (length bs) bs w (omega arith))))

write_separator-Full :
    (k : SeparatorInner) (bs : Bytes) {e : Entry}
    → KeyFits k
    → Full e bs
    → (e' : Entry) × (write_separator k.key k.value e ≡ ok e') × Full e' (bs ++ separator_bytes k)
write_separator-Full k bs {e} fits w =
    let n = length k.key in
    let total : ℕ = length bs + (8 + length (size_bytes n) + n) in
    let b₁ : Bytes = bs ++ to_le 8 k.value in
    let b₂ : Bytes = b₁ ++ size_bytes n in
    let l₁ : length b₁ ≡ length bs + 8 =
      omega (arith, length-append bs (to_le 8 k.value), length-to_le 8 k.value) in
    let l₂ : length b₂ ≡ length b₁ + length (size_bytes n) = length-append b₁ (size_bytes n) in
    let (e₁, got₁, w₁) =
      write_u64-Wrote k.value bs total (grown-Wrote k.key bs (leb 0xff n) refl w) (omega arith) in
    let (e₂, got₂, w₂) = size_case n b₁ total (leb 0xff n) refl fits.2 w₁ (omega (arith, l₁)) in
    let (e₃, got₃, w₃) = write_slice-Wrote k.key b₂ total w₂ (omega (arith, l₁, l₂)) in
    let bytes : b₂ ++ k.key ≡ bs ++ separator_bytes k =
      append_assoc b₁ (size_bytes n) k.key
      ∙ append_assoc bs (to_le 8 k.value) (size_bytes n ++ k.key) in
    let same : total ≡ length (b₂ ++ k.key) = omega (arith, length-append b₂ k.key, l₁, l₂) in
    (
      e₃,
      separator_parts k e _ e₁ e₂ e₃ refl got₁ got₂ got₃,
      subst (λ (x : Bytes). Full e₃ x) bytes (subst (λ (m : ℕ). Wrote e₃ m (b₂ ++ k.key)) same w₃),
    )

-- The bytes of a node
abbrev pub key_bytes : Option SeparatorInner → Bytes → Bytes
key_bytes none rest = []
key_bytes (some k) rest = separator_bytes k ++ rest

abbrev pub bytes_of : List Child → List Separator → Bytes
bytes_of [] ss = []
bytes_of (c ∷ []) ss = to_le 8 (address_of c.entry_index)
bytes_of (c ∷ d ∷ cs) [] = []
bytes_of (c ∷ d ∷ cs) (s ∷ ss) =
    to_le 8 (address_of c.entry_index) ++ key_bytes s.separator (bytes_of (d ∷ cs) ss)

-- An address is a word other than the null address.
abbrev pub IsAddress : Option ℕ → Type 0
IsAddress none = Unit
IsAddress (some a) = (0 < a) × (a < 2 ^ 64)

abbrev pub AreUnused : List Child → List Separator → Type 0
AreUnused [] [] = Unit
AreUnused [] (s ∷ ss) = (s.separator ≡ none) × AreUnused [] ss
AreUnused (c ∷ cs) ss = (c.entry_index ≡ none) × AreUnused cs ss

-- The separators of a node fill its array from the left, and no child stands behind the last one's.
abbrev pub PackedRest : Option SeparatorInner → List Child → List Separator → Type 0 → Type 0
PackedRest none cs ss rest = AreUnused cs ss
PackedRest (some k) cs ss rest = KeyFits k × rest

abbrev pub ArePacked : List Child → List Separator → Type 0
ArePacked [] ss = ⊥
ArePacked (c ∷ []) [] = IsAddress c.entry_index
ArePacked (c ∷ []) (s ∷ ss) = ⊥
ArePacked (c ∷ d ∷ cs) [] = ⊥
ArePacked (c ∷ d ∷ cs) (s ∷ ss) =
    IsAddress c.entry_index × PackedRest s.separator (d ∷ cs) ss (ArePacked (d ∷ cs) ss)

abbrev pub Writes : (Entry → Result Entry) → Bytes → Type 0
Writes write x =
    (bs : Bytes) (e : Entry) → Full e bs → (e' : Entry) × (write e ≡ ok e') × Full e' (bs ++ x)

write_rest-Full :
    (o : Option SeparatorInner) (cs : List Child) (ss : List Separator) (P : Type 0)
    (rest : Entry → Result Entry) (x : Bytes)
    → PackedRest o cs ss P
    → (P → Writes rest x)
    → Writes (λ e. write_rest o e rest) (key_bytes o x)
write_rest-Full none cs ss P rest x packed writes bs e w =
    (e, refl, subst (λ (b : Bytes). Full e b) (sym (append-nil bs)) w)
write_rest-Full (some k) cs ss P rest x packed writes bs e w =
    let (e₁, got₁, w₁) = write_separator-Full k bs packed.0 w in
    let (e₂, got₂, w₂) = writes packed.1 (bs ++ separator_bytes k) e₁ w₁ in
    (e₂, rw got₁ got₂, subst (λ (b : Bytes). Full e₂ b) (append_assoc bs (separator_bytes k) x) w₂)

pub write_node-Full :
    (cs : List Child) (ss : List Separator)
    → ArePacked cs ss
    → Writes (write_node cs ss) (bytes_of cs ss)
unfolding write_node
write_node-Full [] ss packed bs e w = absurd packed
write_node-Full (c ∷ []) [] packed bs e w = write_child-Full (address_of c.entry_index) bs w
write_node-Full (c ∷ []) (s ∷ ss) packed bs e w = absurd packed
write_node-Full (c ∷ d ∷ cs) [] packed bs e w = absurd packed
write_node-Full (c ∷ d ∷ cs) (s ∷ ss) packed bs e w =
    let index = address_of c.entry_index in
    let (e₁, got₁, w₁) = write_child-Full index bs w in
    let (e₂, got₂, w₂) =
      write_rest-Full s.separator (d ∷ cs) ss (ArePacked (d ∷ cs) ss) (write_node (d ∷ cs) ss)
        (bytes_of (d ∷ cs) ss) packed.1 (write_node-Full (d ∷ cs) ss) (bs ++ to_le 8 index) e₁ w₁ in
    (
      e₂,
      rw got₁ got₂,
      subst (λ (b : Bytes). Full e₂ b)
          (append_assoc bs (to_le 8 index) (key_bytes s.separator (bytes_of (d ∷ cs) ss))) w₂,
    )
