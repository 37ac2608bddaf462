-- ===== src/Value/Parts/Chain.antt =====
-- A value in the slots of a chain, as the record under way has them, and the loop that reads it.
use mathlib.Core.List.{append_assoc}
use blockchain_parity_db.Prelude.{
  ℕ, zero, suc, ◌+◌, ◌^◌, ◌≤◌, ◌<◌, ◌≡◌, ◌≢◌, refl, sym, ap, ◌∙◌, ◌⊎◌, inl, inr, Bool, true, false,
  ◌&&◌, ◌||◌, some, ◌++◌, length, drop, length-append, if◌then◌else◌, ◌==◌, arith,
}
use blockchain_parity_db.Bytes.{Bytes, splice, to_le, length-splice, take-past}
use blockchain_parity_db.Outcome.{ok}
use blockchain_parity_db.Log.Overlay.{LogWriter, LogWriter_query, writer_value, copy_min}
use blockchain_parity_db.Value.Entry
use blockchain_parity_db.Value.Entry.{Entry}
use blockchain_parity_db.Value.Entry.Cursor.{size_word}
use blockchain_parity_db.Value.Key.{TableKey, check}
use blockchain_parity_db.Value.Table.{ValueTable, fill_buf}
use blockchain_parity_db.Value.Parts.{Found, load, read_part, parts_loop, extend_result}
use blockchain_parity_db.Value.Parts.Slot.{
  IsTableKey, meta_bytes, marker_of, link_bytes, last_bytes, gather, length-last_bytes,
  length-link_bytes, read_part-link, read_part-last, last-used, link-used,
}

-- The log answers for a slot with what was written to it.
abbrev pub Holds : ValueTable → LogWriter → ℕ → Bytes → Type 0
Holds t w i bs = (dest : Bytes) → writer_value w t.id i dest ≡ some (copy_min dest bs)

-- The slots from `i` on hold a value: each but the last is full and leads to the next.
pub data Chain (t : ValueTable) (key : TableKey) (compressed : Bool) (w : LogWriter)
    : Bool → ℕ → Bytes → ℕ → Type 0 where
  last :
      {first : Bool} {i : ℕ} {chunk : Bytes} (size : ℕ)
      → Holds t w i (last_bytes size compressed (meta_bytes t key first ++ chunk))
      → size ≡ length (meta_bytes t key first) + length chunk
      → size < 0x7ffd
      → Chain t key compressed w first i chunk 1
  more :
      {first : Bool} {i n : ℕ} (next : ℕ) (chunk rest : Bytes)
      → Holds t w i (link_bytes (marker_of first compressed) next (meta_bytes t key first ++ chunk))
      → t.entry_size ≡ 10 + (length (meta_bytes t key first) + length chunk)
      → next ≢ 0
      → next < 2 ^ 64
      → Chain t key compressed w false next rest n
      → Chain t key compressed w first i (chunk ++ rest) (suc n)

-- What was copied stands in front of what was there.
copy_min-whole :
    (bs dest : Bytes) → length bs ≤ length dest → copy_min dest bs ≡ bs ++ drop (length bs) dest
unfolding copy_min splice
copy_min-whole bs dest h = rw (take-past (length dest) bs h) refl

pub load-Holds :
    (t : ValueTable) (w : LogWriter) (i : ℕ) (bs buf : Bytes)
    → Holds t w i bs
    → length bs ≤ length buf
    → load t i w buf ≡ ok (Entry.new (bs ++ drop (length bs) buf))
unfolding load fill_buf
load-Holds t w i bs buf there room = rw (there buf, copy_min-whole bs buf room) refl

length-load :
    (bs buf : Bytes) → length bs ≤ length buf → length (bs ++ drop (length bs) buf) ≡ length buf
unfolding splice
length-load bs buf h = length-splice 0 bs buf (omega (arith, h))

-- The buffer of a chain's slot after its marker or its size
slot-junk : (m k b x : Bytes) → (m ++ (k ++ b)) ++ x ≡ m ++ (k ++ (b ++ x))
slot-junk m k b x = append_assoc m (k ++ b) x ∙ ap (λ y. m ++ y) (append_assoc k b x)

-- The flag of a value is that of its first slot.
last_flag :
    (first compressed x : Bool)
    → x ≡ (if first then false else compressed)
    → (if first then compressed else x) ≡ compressed
last_flag true compressed x e = refl
last_flag false compressed x e = e

more_flag :
    (first compressed x : Bool)
    → x ≡ (if first then false else compressed)
    → (first && compressed) || x ≡ compressed
more_flag true true x e = refl
more_flag true false x e = e
more_flag false compressed x e = e

next_used : (next : ℕ) → next ≢ 0 → next == 0 ≡ false
next_used next apart = ground (arith, apart)

Chain-some :
    {t : ValueTable} {key : TableKey} {compressed : Bool} {w : LogWriter} {first : Bool} {i n : ℕ}
    {value : Bytes}
    → Chain t key compressed w first i value n
    → n ≢ 0
Chain-some (last size there whole small) e = omega (arith, e)
Chain-some (more next chunk rest there full apart small c) e = omega (arith, e)

module _ (t : ValueTable) (key : TableKey) (compressed : Bool) (w : LogWriter) where
  loop-step :
      (fuel i next : ℕ) (first : Bool) (buf bytes : Bytes) (s s' : Found Bytes)
      → load t i w buf ≡ ok (Entry.new bytes)
      → Entry.is_tombstone (Entry.new bytes) ≡ false
      → read_part extend_result t (check key) first (Entry.new bytes) s ≡ ok (s', next)
      → parts_loop extend_result (suc fuel) t (check key) i w first buf s ≡ (
          if next == 0
          then ok s'
          else parts_loop extend_result fuel t (check key) next w false bytes s')
  unfolding parts_loop Entry.new
  loop-step fuel i next first buf bytes s s' loaded used part = rw (loaded, used, part) refl

  -- What the loop finds
  pub parts_loop-Chain :
      {first : Bool} {i n : ℕ} {value : Bytes}
      → Chain t key compressed w first i value n
      → (t.multipart ≡ true) ⊎ (n ≡ 1)
      → 6 < t.db_version
      → IsTableKey key
      → t.entry_size ≤ 0x7ff8
      → (fuel : ℕ) → n ≤ fuel
      → (buf : Bytes) → length buf ≡ 0x8000
      → (s : Found Bytes) → s.rc ≡ 1
      → s.compressed ≡ (if first then false else compressed)
      → parts_loop extend_result fuel t (check key) i w first buf s ≡ ok (gather compressed value s)
  parts_loop-Chain (last size there whole small) multi version len entry zero enough buf sized s one
        flag =
      absurd (omega arith)
  parts_loop-Chain (more next chunk rest there full apart small c) multi version len entry zero
        enough buf sized s one flag =
      absurd (omega arith)
  parts_loop-Chain {first} {i} {value = chunk} (last size there whole small) multi version len entry
        (suc fuel) enough buf sized s one flag =
      let meta = meta_bytes t key first in
      let bs = last_bytes size compressed (meta ++ chunk) in
      let word = to_le 2 (size_word size compressed) in
      let room : length bs ≤ length buf = omega (
        arith,
        length-last_bytes size compressed (meta ++ chunk),
        length-append meta chunk,
        whole,
        small,
        sized,
      ) in
      let junk = drop (length bs) buf in
      let e : bs ++ junk ≡ word ++ (meta ++ (chunk ++ junk)) = slot-junk word meta chunk junk in
      let large = ap length (sym e) ∙ length-load bs buf room ∙ sized in
      let part =
        read_part-last t key first compressed size chunk junk s version len small one whole
          (omega (arith, large)) in
      loop-step fuel i 0 first buf (word ++ (meta ++ (chunk ++ junk))) s
        (gather (if first then compressed else s.compressed) chunk s)
        (load-Holds t w i bs buf there room ∙ ap (λ x. ok (Entry.new x)) e)
        (last-used size compressed (meta ++ (chunk ++ junk)) small) part
      ∙ ap (λ b. ok (gather b chunk s)) (last_flag first compressed s.compressed flag)
  parts_loop-Chain {first} {i} (more next chunk rest there full apart small c) multi version len
        entry (suc fuel) enough buf sized s one flag =
      let chained : t.multipart ≡ true = elim multi [
        | inl linked ↦ linked
        | inr single ↦ absurd (Chain-some c (omega (arith, single)))
      ] in
      let meta = meta_bytes t key first in
      let marker = marker_of first compressed in
      let bs = link_bytes marker next (meta ++ chunk) in
      let room : length bs ≤ length buf = omega (
        arith,
        length-link_bytes first compressed next (meta ++ chunk),
        length-append meta chunk,
        full,
        entry,
        sized,
      ) in
      let junk = drop (length bs) buf in
      let form = marker ++ (to_le 8 next ++ (meta ++ (chunk ++ junk))) in
      let e : bs ++ junk ≡ form =
        slot-junk marker (to_le 8 next) (meta ++ chunk) junk
        ∙ ap (λ x. marker ++ (to_le 8 next ++ x)) (append_assoc meta chunk junk) in
      let large = ap length (sym e) ∙ length-load bs buf room ∙ sized in
      let part =
        read_part-link t key first compressed next chunk junk s chained version len small one full
          (omega (arith, large)) in
      loop-step fuel i next first buf form s
        (gather ((first && compressed) || s.compressed) chunk s)
        (load-Holds t w i bs buf there room ∙ ap (λ x. ok (Entry.new x)) e)
        (link-used t first compressed (to_le 8 next ++ (meta ++ (chunk ++ junk)))) part
      ∙ rw (next_used next apart, more_flag first compressed s.compressed flag)
          (parts_loop-Chain c (inl chained) version len entry fuel (omega arith) form large
              (gather compressed chunk s) one refl
            ∙ ap (λ x. ok (record s { compressed = compressed; gathered = x }))
                (append_assoc s.gathered chunk rest))
