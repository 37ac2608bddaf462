-- ===== src/Value/Parts/Slot.antt =====
-- What the slots of a value hold, and what `read_part` makes of them.
use mathlib.Core.List.{append_assoc}
use blockchain_parity_db.Prelude.{
  ℕ, ◌+◌, ◌-◌, ◌*◌, ◌%◌, ◌^◌, ◌≤◌, ◌<◌, ◌≡◌, ◌≢◌, refl, sym, ap, ◌∙◌, Bool, true, false, ◌&&◌, ◌||◌,
  [], ◌∷◌, ◌++◌, length, take, length-append, length-drop, ltb, leb, if◌then◌else◌, arith,
}
use blockchain_parity_db.Bytes.{
  Bytes, to_le, from_le, slice, length-to_le, from_le-to_le, take-length-append,
}
use blockchain_parity_db.Outcome.{ok}
use blockchain_parity_db.Value.Entry
use blockchain_parity_db.Value.Entry.{Entry, multipart, multihead, multihead_compressed, same_bytes}
use blockchain_parity_db.Value.Entry.Cursor.{
  Ahead, moved, read_bytes-Ahead, read_size-Ahead, size_word, size_word-lt, same_bytes_refl,
}
use blockchain_parity_db.Value.Key.{
  TableKey, partial, no_hash, check, encoded_size, partial_key, compare_key, fetch_partial,
  fetch_key,
}
use blockchain_parity_db.Value.Table.{ValueTable}
use blockchain_parity_db.Value.Parts.{
  Found, remaining_to, part_head, part_rc, part_key, part_meta, read_part, extend_result,
}

-- The counter and the key, in the first slot
abbrev pub rc_bytes : Bool → Bytes
rc_bytes true = to_le 4 1
rc_bytes false = []

abbrev pub key_bytes : TableKey → Bytes
key_bytes (partial k) = partial_key k
key_bytes no_hash = []

-- A key of 32 bytes, or none
abbrev pub IsTableKey : TableKey → Type 0
IsTableKey key = length (key_bytes key) ≡ encoded_size key

abbrev pub meta_bytes : ValueTable → TableKey → Bool → Bytes
meta_bytes t key first = if first then rc_bytes t.ref_counted ++ key_bytes key else []

-- The marker of a slot that is not the last
abbrev pub marker_of : Bool → Bool → Bytes
marker_of first compressed =
    if first then (if compressed then multihead_compressed else multihead) else multipart

abbrev pub link_bytes : Bytes → ℕ → Bytes → Bytes
link_bytes marker next body = marker ++ (to_le 8 next ++ body)

abbrev pub last_bytes : ℕ → Bool → Bytes → Bytes
last_bytes size compressed body = to_le 2 (size_word size compressed) ++ body

pub length-last_bytes :
    (size : ℕ) (compressed : Bool) (body : Bytes)
    → length (last_bytes size compressed body) ≡ 2 + length body
length-last_bytes size compressed body =
    let word = to_le 2 (size_word size compressed) in
    omega (arith, length-append word body, length-to_le 2 (size_word size compressed))

pub moved-zero : (e : Entry) → e ≡ moved 0 e
moved-zero e = ap (λ n. record e { offset = n }) (omega arith)

pub moved-moved : (m n : ℕ) (e : Entry) → moved n (moved m e) ≡ moved (m + n) e
moved-moved m n e = ap (λ k. record e { offset = k }) (omega arith)

rc_case :
    (b : Bool) (rest : Bytes) {e : Entry}
    → Ahead e (rc_bytes b ++ rest)
    → ((if b then Entry.read_rc e else ok (1, e)) ≡ ok (1, moved (length (rc_bytes b)) e))
      × Ahead (moved (length (rc_bytes b)) e) rest
unfolding Entry.read_rc to_le from_le
rc_case true rest {e} a =
    let (got, there) = read_bytes-Ahead 4 (to_le 4 1) rest refl a in (rw got refl, there)
rc_case false rest {e} a = (ap (λ x. ok (1, x)) (moved-zero e), rw (← moved-zero e) a)

part_rc-Ahead :
    (t : ValueTable) (rest : Bytes) {e : Entry}
    → Ahead e (rc_bytes t.ref_counted ++ rest)
    → (part_rc t e ≡ ok (1, moved (length (rc_bytes t.ref_counted)) e))
      × Ahead (moved (length (rc_bytes t.ref_counted)) e) rest
unfolding part_rc
part_rc-Ahead t rest a = rc_case t.ref_counted rest a

part_key-Ahead :
    (key : TableKey) (k rest : Bytes) {e : Entry}
    → IsTableKey key
    → 26 ≤ length e.bytes
    → Ahead e (key_bytes key ++ rest)
    → (part_key (check key) k e ≡ ok ((k, true), moved (length (key_bytes key)) e))
      × Ahead (moved (length (key_bytes key)) e) rest
unfolding part_key fetch_key fetch_partial compare_key encoded_size
part_key-Ahead (partial h) k rest {e} len large a =
    let (got, there) = read_bytes-Ahead 26 (partial_key h) rest len a in
    (rw len (ground (arith, got, large, same_bytes_refl (partial_key h))), rw len there)
part_key-Ahead no_hash k rest {e} len large a =
    (ap (λ x. ok ((k, true), x)) (moved-zero e), rw (← moved-zero e) a)

part_meta-Ahead :
    (t : ValueTable) (key : TableKey) (first : Bool) (k rest : Bytes) {e : Entry}
    → IsTableKey key
    → 26 ≤ length e.bytes
    → Ahead e (meta_bytes t key first ++ rest)
    → (part_meta t (check key) first 1 k e
        ≡ ok ((1, k, true), moved (length (meta_bytes t key first)) e))
      × Ahead (moved (length (meta_bytes t key first)) e) rest
unfolding part_meta
part_meta-Ahead t key false k rest {e} len large a =
    (ap (λ x. ok ((1, k, true), x)) (moved-zero e), rw (← moved-zero e) a)
part_meta-Ahead t key true k rest {e} len large a =
    let rcs = rc_bytes t.ref_counted in
    let a' : Ahead e (rcs ++ (key_bytes key ++ rest)) = rw (append_assoc rcs) at a in
    let (got, a₁) = part_rc-Ahead t (key_bytes key ++ rest) a' in
    let (got', a₂) = part_key-Ahead key k rest len large a₁ in
    let e' = moved-moved (length rcs) (length (key_bytes key)) e in
    (
      rw (got, got')
          (ap (λ x. ok ((1, k, true), x))
            (e' ∙ ap (λ n. moved n e) (sym (length-append rcs (key_bytes key))))),
      rw (length-append rcs (key_bytes key), ← e') a₂,
    )

remaining_to-Ahead :
    (chunk junk : Bytes) (end : ℕ) {e : Entry}
    → Ahead e (chunk ++ junk)
    → end ≡ e.offset + length chunk
    → remaining_to end e ≡ ok chunk
unfolding remaining_to slice
remaining_to-Ahead chunk junk end {e} a h =
    let room : e.offset + length chunk ≤ length e.bytes =
      omega (
        arith,
        a.bound,
        length-drop e.offset e.bytes,
        ap length a.rest,
        length-append chunk junk,
      ) in
    let n : end - e.offset ≡ length chunk = omega (arith, h) in
    rw n (
      rw (ap (take (length chunk)) a.rest ∙ take-length-append chunk junk)
        (ground (arith, h, room)))

-- `Found` after a slot with `chunk`
abbrev pub gather : Bool → Bytes → Found Bytes → Found Bytes
gather compressed chunk s = record s { compressed = compressed; gathered = s.gathered ++ chunk }

-- The marker tells which slot it is.
record Marked (t : ValueTable) (first compressed : Bool) (e : Entry) : Type 0 where
  used : Entry.is_tombstone e ≡ false
  multi : Entry.is_multi t.db_version e ≡ true
  flag : first && true && Entry.is_multihead_compressed e ≡ first && compressed

marker-Marked :
    (t : ValueTable) (first compressed : Bool) (x : Bytes)
    → Marked t first compressed (Entry.new (marker_of first compressed ++ x))
unfolding Entry.is_tombstone Entry.is_multi Entry.is_multipart Entry.is_multihead
    Entry.is_multihead_compressed Entry.has_marker Entry.new slice
marker-Marked t true true x = record { used = refl; multi = refl; flag = refl }
marker-Marked t true false x = record { used = refl; multi = refl; flag = refl }
marker-Marked t false true x = record { used = refl; multi = refl; flag = refl }
marker-Marked t false false x = record { used = refl; multi = refl; flag = refl }

pub link-used :
    (t : ValueTable) (first compressed : Bool) (x : Bytes)
    → Entry.is_tombstone (Entry.new (marker_of first compressed ++ x)) ≡ false
link-used t first compressed x = let m = marker-Marked t first compressed x in m.used

pub length-marker : (first compressed : Bool) → length (marker_of first compressed) ≡ 2
length-marker true true = refl
length-marker true false = refl
length-marker false c = refl

pub length-link_bytes :
    (first compressed : Bool) (next : ℕ) (body : Bytes)
    → length (link_bytes (marker_of first compressed) next body) ≡ 10 + length body
length-link_bytes first compressed next body =
    let m = marker_of first compressed in
    omega (
      arith,
      length-append m (to_le 8 next ++ body),
      length-append (to_le 8 next) body,
      length-to_le 8 next,
      length-marker first compressed,
    )

pub Ahead-new : (bs : Bytes) → Ahead (Entry.new bs) bs
unfolding Entry.new
Ahead-new bs = record { bound = omega arith; rest = refl }

read_next-Ahead :
    (next : ℕ) (rest : Bytes) {e : Entry}
    → next < 2 ^ 64
    → Ahead e (to_le 8 next ++ rest)
    → (Entry.read_next e ≡ ok (next, moved 8 e)) × Ahead (moved 8 e) rest
unfolding Entry.read_next Entry.read_u64
read_next-Ahead next rest {e} small a =
    let (got, there) = read_bytes-Ahead 8 (to_le 8 next) rest (length-to_le 8 next) a in
    (rw got (ap (λ n. ok (n, moved 8 e)) (from_le-to_le 8 next small)), there)

part_head-link :
    (t : ValueTable) (first compressed before : Bool) (next : ℕ) (rest : Bytes)
    → t.multipart ≡ true
    → 6 < t.db_version
    → next < 2 ^ 64
    → let e = Entry.new (marker_of first compressed ++ (to_le 8 next ++ rest)) in
      (part_head t first before e
        ≡ ok ((t.entry_size, next, (first && compressed) || before), moved 10 e))
      × Ahead (moved 10 e) rest
unfolding part_head Entry.skip_size
part_head-link t first compressed before next rest multi version small =
    let bs = marker_of first compressed ++ (to_le 8 next ++ rest) in
    let e = Entry.new bs in
    let m = marker-Marked t first compressed (to_le 8 next ++ rest) in
    let (skipped, a₁) =
      read_bytes-Ahead 2 (marker_of first compressed) (to_le 8 next ++ rest)
        (length-marker first compressed) (Ahead-new bs) in
    let (got, a₂) = read_next-Ahead next rest small a₁ in
    let newer : ltb 6 t.db_version ≡ true = ground arith in
    (
      rw (multi, m.multi, got, newer, m.flag)
          (ap (λ x. ok ((t.entry_size, next, (first && compressed) || before), x))
            (moved-moved 2 8 e)),
      rw (← moved-moved 2 8 e) a₂,
    )

pub read_part-link :
    (t : ValueTable) (key : TableKey) (first compressed : Bool) (next : ℕ) (chunk junk : Bytes)
    (s : Found Bytes)
    → t.multipart ≡ true
    → 6 < t.db_version
    → IsTableKey key
    → next < 2 ^ 64
    → s.rc ≡ 1
    → t.entry_size ≡ 10 + (length (meta_bytes t key first) + length chunk)
    → let bs =
        marker_of first compressed
        ++ (to_le 8 next ++ (meta_bytes t key first ++ (chunk ++ junk))) in
      26 ≤ length bs
      → read_part extend_result t (check key) first (Entry.new bs) s
        ≡ ok (gather ((first && compressed) || s.compressed) chunk s, next)
unfolding read_part Entry.new
read_part-link t key first compressed next chunk junk s multi version len small one size large =
    let meta = meta_bytes t key first in
    let (got, a₁) =
      part_head-link t first compressed s.compressed next (meta ++ (chunk ++ junk)) multi version
        small in
    let (got', a₂) = part_meta-Ahead t key first s.key (chunk ++ junk) len large a₁ in
    let rem = remaining_to-Ahead chunk junk t.entry_size a₂ (omega (arith, size)) in
    rw (got, one, got', rem) refl

size_word-apart :
    (size n : ℕ) (compressed : Bool)
    → size < 0x7ffd
    → 0x7ffd ≤ n % 0x8000
    → size_word size compressed ≢ n
size_word-apart size n true small h e = omega (arith, e)
size_word-apart size n false small h e = omega (arith, e)

-- A size word is none of the markers.
size_word-marker :
    (size : ℕ) (compressed : Bool) (rest : Bytes) (low high : ℕ)
    → size < 0x7ffd
    → size_word size compressed ≢ low + 256 * high
    → Entry.has_marker (low ∷ high ∷ []) (Entry.new (to_le 2 (size_word size compressed) ++ rest))
      ≡ false
unfolding Entry.has_marker Entry.new slice to_le
size_word-marker size compressed rest low high small apart =
    let bound = size_word-lt size compressed (omega (arith, small)) in ground (arith, bound, apart)

pub last-used :
    (size : ℕ) (compressed : Bool) (rest : Bytes)
    → size < 0x7ffd
    → Entry.is_tombstone (Entry.new (to_le 2 (size_word size compressed) ++ rest)) ≡ false
unfolding Entry.is_tombstone
last-used size compressed rest h =
    size_word-marker size compressed rest 0xff 0xff h
      (size_word-apart size 0xffff compressed h (omega arith))

last-single :
    (t : ValueTable) (size : ℕ) (compressed : Bool) (rest : Bytes)
    → 6 < t.db_version
    → size < 0x7ffd
    → Entry.is_multi t.db_version (Entry.new (to_le 2 (size_word size compressed) ++ rest)) ≡ false
unfolding Entry.is_multi Entry.is_multipart Entry.is_multihead Entry.is_multihead_compressed
last-single t size compressed rest version h =
    let a =
      size_word-marker size compressed rest 0xfe 0xff h
        (size_word-apart size 0xfffe compressed h (omega arith)) in
    let b =
      size_word-marker size compressed rest 0xfd 0xff h
        (size_word-apart size 0xfffd compressed h (omega arith)) in
    let c =
      size_word-marker size compressed rest 0xfd 0x7f h
        (size_word-apart size 0x7ffd compressed h (omega arith)) in
    rw (a, b, c) (ground (arith, version))

if-or_false : (b x y : Bool) → (if b || false then x else y) ≡ (if b then x else y)
if-or_false true x y = refl
if-or_false false x y = refl

-- Where the last slot ends
part_head-last :
    (t : ValueTable) (first compressed before : Bool) (size : ℕ) (rest : Bytes)
    → 6 < t.db_version
    → size < 0x7ffd
    → let e = Entry.new (to_le 2 (size_word size compressed) ++ rest) in
      (part_head t first before e
        ≡ ok ((2 + size, 0, if first then compressed else before), moved 2 e))
      × Ahead (moved 2 e) rest
unfolding part_head Entry.new
part_head-last t first compressed before size rest version small =
    let word = to_le 2 (size_word size compressed) in
    let e = Entry.new (word ++ rest) in
    let (got, a) =
      read_size-Ahead size compressed rest (omega (arith, small)) (Ahead-new (word ++ rest)) in
    let newer : leb t.db_version 6 ≡ false = ground arith in
    let one : t.multipart && Entry.is_multi t.db_version e ≡ false =
      rw (last-single t size compressed rest version small) (ground arith) in
    (
      rw (one, got, newer)
          (ap (λ b. ok ((2 + size, 0, b), moved 2 e)) (if-or_false first compressed before)),
      a,
    )

pub read_part-last :
    (t : ValueTable) (key : TableKey) (first compressed : Bool) (size : ℕ) (chunk junk : Bytes)
    (s : Found Bytes)
    → 6 < t.db_version
    → IsTableKey key
    → size < 0x7ffd
    → s.rc ≡ 1
    → size ≡ length (meta_bytes t key first) + length chunk
    → let bs = to_le 2 (size_word size compressed) ++ (meta_bytes t key first ++ (chunk ++ junk)) in
      26 ≤ length bs
      → read_part extend_result t (check key) first (Entry.new bs) s
        ≡ ok (gather (if first then compressed else s.compressed) chunk s, 0)
unfolding read_part Entry.new
read_part-last t key first compressed size chunk junk s version len small one whole large =
    let meta = meta_bytes t key first in
    let (got, a₁) =
      part_head-last t first compressed s.compressed size (meta ++ (chunk ++ junk)) version small in
    let (got', a₂) = part_meta-Ahead t key first s.key (chunk ++ junk) len large a₁ in
    let rem = remaining_to-Ahead chunk junk (2 + size) a₂ (omega (arith, whole)) in
    rw (got, one, got', rem) refl
