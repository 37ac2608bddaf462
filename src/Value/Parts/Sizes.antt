-- ===== src/Value/Parts/Sizes.antt =====
-- The callbacks of `size` and of `get` on the same slots.
use blockchain_parity_db.Prelude.{
  ℕ, zero, suc, ◌+◌, ◌%◌, ◌^◌, ◌++◌, ◌≡◌, refl, sym, ap, ◌∙◌, Bool, true, false, Option, none, some,
  [], replicate, length, length-append, if◌then◌else◌, ◌==◌, arith,
}
use blockchain_parity_db.Bytes.{Bytes, Memory, read_bytes}
use blockchain_parity_db.Outcome.{Result, ok, err, panic, stuck, bind_bind, ◌>>=◌}
use blockchain_parity_db.Log.Overlay.{LogQuery}
use blockchain_parity_db.Value.Entry
use blockchain_parity_db.Value.Entry.{Entry, partial_size}
use blockchain_parity_db.Value.Key.{TableKey, TableKeyQuery, check}
use blockchain_parity_db.Value.Table.{ValueTable}
use blockchain_parity_db.Value.Parts.{
  max_entry_buf_size, Found, not_found, remaining_to, part_head, part_meta, read_part, load,
  parts_loop, for_parts, extend_result, add_length, if_counted, get_value, query, get, size,
}

-- What was found with the length of the value, in 32 bits, in place of the value
abbrev lengthen : Found Bytes → Found ℕ
lengthen s = record {
  rc = s.rc;
  compressed = s.compressed;
  key = s.key;
  gathered = length s.gathered % 2 ^ 32;
}

bind_same {ℓ κ} :
    {S : Type ℓ} {T : Type κ} (r : Result S) {f g : S → Result T}
    → ((s : S) → f s ≡ g s)
    → (r >>= f) ≡ (r >>= g)
bind_same (ok s) h = h s
bind_same (err why) h = refl
bind_same panic h = refl
bind_same stuck h = refl

-- Related steps in front of related continuations
bind_related {ℓ κ μ} :
    {S : Type ℓ} {T : Type κ} {V : Type μ} (r : Result S) (f : S → Result T) (g : S → Result V)
    (k : T → Result V)
    → ((s : S) → g s ≡ (f s >>= k))
    → (r >>= g) ≡ (r >>= f >>= k)
bind_related r f g k h = bind_same r h ∙ sym (bind_bind r f k)

abbrev lengthen_part : Found Bytes × ℕ → Result (Found ℕ × ℕ)
lengthen_part x = ok (lengthen (x.0), x.1)

if-related {ℓ κ} :
    {S : Type ℓ} {T : Type κ} (b : Bool) (x y : Result S) {x' y' : Result T} (k : S → Result T)
    → x' ≡ (x >>= k)
    → y' ≡ (y >>= k)
    → (if b then x' else y') ≡ ((if b then x else y) >>= k)
if-related true x y k e e' = e
if-related false x y k e e' = e'

-- A related step, and a related continuation
bind_through {ℓ κ μ ν} :
    {S : Type ℓ} {S' : Type κ} {T : Type μ} {V : Type ν} (r : Result S) {r' : Result S'}
    (p : S → Result S') (f : S → Result T) (f' : S' → Result V) (k : T → Result V)
    → r' ≡ (r >>= p)
    → ((s : S) → (p s >>= f') ≡ (f s >>= k))
    → (r' >>= f') ≡ (r >>= f >>= k)
bind_through r p f f' k e h = ap (λ z. z >>= f') e ∙ bind_bind r p f' ∙ bind_related r f _ k h

-- A sum of 32 bits that goes on is the length of what is gathered, in 32 bits.
summed : (a b : Bytes) → (length a % 2 ^ 32 + length b % 2 ^ 32) % 2 ^ 32 ≡ length (a ++ b) % 2 ^ 32
summed a b = omega (arith, length-append a b)

read_part-lengthen :
    (t : ValueTable) (q : TableKeyQuery) (first : Bool) (buf : Entry) (s : Found Bytes)
    → read_part add_length t q first buf (lengthen s)
      ≡ (read_part extend_result t q first buf s >>= lengthen_part)
unfolding read_part
read_part-lengthen t q first buf s =
    bind_related (part_head t first s.compressed buf) _ _ lengthen_part (λ head.
      bind_related (part_meta t q first s.rc s.key head.1) _ _ lengthen_part (λ meta.
        if-related (meta.0.2) _ _ lengthen_part
          (bind_related (remaining_to head.0.0 meta.1) _ _ lengthen_part (λ bytes.
            ap
              (λ n. ok (
                record { rc = meta.0.0; compressed = head.0.2; key = meta.0.1; gathered = n },
                head.0.1,
              ))
              (summed s.gathered bytes)))
          refl))

module _ {L : Type 0} ⦃log_query : LogQuery L⦄ where
  parts_loop-lengthen :
      (fuel : ℕ) (t : ValueTable) (q : TableKeyQuery) (index : ℕ) (log : L) (first : Bool)
      (buf : Bytes) (s : Found Bytes)
      → parts_loop add_length fuel t q index log first buf (lengthen s)
        ≡ (parts_loop extend_result fuel t q index log first buf s >>= (λ x. ok (lengthen x)))
  unfolding parts_loop
  parts_loop-lengthen zero t q index log first buf s = refl
  parts_loop-lengthen (suc fuel) t q index log first buf s =
      let k : Found Bytes → Result (Found ℕ) = λ x. ok (lengthen x) in
      bind_related (load t index log buf) _ _ k (λ e.
        bind_through
          (if Entry.is_tombstone e
            then ok (not_found s, 0)
            else read_part extend_result t q first e s)
          lengthen_part _ _ k
          (if-related (Entry.is_tombstone e) _ _ lengthen_part refl
            (read_part-lengthen t q first e s))
          (λ x.
            if-related (x.1 == 0) _ _ k refl
              (parts_loop-lengthen fuel t q x.1 log false e.bytes (x.0))))

-- `Option::map`, of the value and its flag to the length, in 32 bits, and the flag
abbrev pub length_of : Option (Bytes × Bool) → Option (ℕ × Bool)
length_of none = none
length_of (some (value, compressed)) = some (length value % 2 ^ 32, compressed)

if_counted-length :
    (rc : ℕ) (value : Bytes) (compressed : Bool)
    → if_counted rc (length value % 2 ^ 32, compressed)
      ≡ length_of (get_value (if_counted rc (value, compressed, rc)))
unfolding get_value
if_counted-length rc value compressed = ground arith

-- `size` is the length modulo 2^32 of what `get` reads, with the same flag, and `None` or an error where
-- `get` is: for every log, every file and every fuel.
pub size-get :
    (u : Memory) (fuel : ℕ) {L : Type 0} ⦃log_query : LogQuery L⦄ (t : ValueTable) (key : TableKey)
    (index : ℕ) (log : L)
    → size u fuel t key index log ≡ (get u fuel t key index log >>= (λ v. ok (length_of v)))
unfolding size get query for_parts
size-get u fuel t key index log =
    let start : Found Bytes = record {
      rc = 1;
      compressed = false;
      key = replicate partial_size 0;
      gathered = [];
    } in
    let buf = read_bytes u 0 max_entry_buf_size in
    let r = parts_loop extend_result fuel t (check key) index log true buf start in
    bind_through r (λ s. ok (lengthen s)) _ _ (λ v. ok (length_of v))
      (parts_loop-lengthen fuel t (check key) index log true buf start)
      (λ s. ap ok (if_counted-length s.rc s.gathered s.compressed))
    ∙ ap (λ z. z >>= (λ v. ok (length_of v)))
        (sym (
          bind_bind r (λ s. ok (if_counted s.rc (s.gathered, s.compressed, s.rc), s.key))
            (λ x. ok (get_value (x.0)))))
