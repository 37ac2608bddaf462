-- ===== src/Value/Entry/Cursor.antt =====
-- A buffer that is filled, and one that is read, slice by slice.
use blockchain_parity_db.Prelude.{
  ℕ, ◌+◌, ◌≤◌, ◌<◌, ◌≡◌, refl, ap, ◌∙◌, Bool, true, false, [], ◌∷◌, ◌++◌, length, take, drop,
  length-append, length-drop, bit_and, ltb, if◌then◌else◌, arith,
}
use blockchain_parity_db.Bytes.{
  Bytes, to_le, slice, splice, length-to_le, from_le-to_le, take-splice, length-splice,
  take-length-append, drop-length-append, drop-add,
}
use blockchain_parity_db.Word.{bit_or_fields, bit_and_mask, bit_and_bit}
use blockchain_parity_db.Outcome.{ok}
use blockchain_parity_db.Value.Entry.{
  Entry, write_slice, read_slice, read_size, write_size, same_bytes, new, compressed_mask,
}

-- The buffer of `size` bytes holds `bs` in front of its cursor.
pub record Wrote (e : Entry) (size : ℕ) (bs : Bytes) : Type 0 where
  pub at_end : e.offset ≡ length bs
  pub sized : length e.bytes ≡ size
  pub done : take e.offset e.bytes ≡ bs

pub new-Wrote : (buf : Bytes) → Wrote (new buf) (length buf) []
unfolding new
new-Wrote buf = record { at_end = refl; sized = refl; done = refl }

pub write_slice-Wrote :
    (x bs : Bytes) (size : ℕ) {e : Entry}
    → Wrote e size bs
    → length bs + length x ≤ size
    → (e' : Entry) × (write_slice x e ≡ ok e') × Wrote e' size (bs ++ x)
unfolding write_slice
write_slice-Wrote x bs size {e} w room = (
  record { offset = e.offset + length x; bytes = splice e.offset x e.bytes },
  ground (arith, w.at_end, w.sized),
  record {
    at_end = omega (arith, w.at_end, length-append bs x);
    sized = length-splice e.offset x e.bytes (omega (arith, w.at_end, w.sized)) ∙ w.sized;
    done =
        take-splice e.offset (e.offset + length x) x e.bytes refl (omega (arith, w.at_end, w.sized))
        ∙ ap (λ t. t ++ x) w.done;
  },
)

-- The buffer has `bs` behind its cursor.
pub record Ahead (e : Entry) (bs : Bytes) : Type 0 where
  pub bound : e.offset ≤ length e.bytes
  pub rest : drop e.offset e.bytes ≡ bs

-- The cursor moved on
abbrev pub moved : ℕ → Entry → Entry
moved n e = record e { offset = e.offset + n }

pub read_slice-Ahead :
    (x rest : Bytes) {e : Entry}
    → Ahead e (x ++ rest)
    → (read_slice (length x) e ≡ ok (x, moved (length x) e)) × Ahead (moved (length x) e) rest
unfolding read_slice slice
read_slice-Ahead x rest {e} a =
    let room : e.offset + length x ≤ length e.bytes =
      omega
        (arith, a.bound, length-drop e.offset e.bytes, ap length a.rest, length-append x rest) in
    let got : take (length x) (drop e.offset e.bytes) ≡ x =
      ap (take (length x)) a.rest ∙ take-length-append x rest in
    (
      rw got (ground (arith, room)),
      record {
        bound = room;
        rest =
            drop-add e.offset (length x) e.bytes
            ∙ ap (drop (length x)) a.rest
            ∙ drop-length-append x rest;
      },
    )

-- The same for a slice whose length is known
pub read_bytes-Ahead :
    (n : ℕ) (x rest : Bytes) {e : Entry}
    → length x ≡ n
    → Ahead e (x ++ rest)
    → (read_slice n e ≡ ok (x, moved n e)) × Ahead (moved n e) rest
read_bytes-Ahead n x rest {e} h a =
    let (got, there) = read_slice-Ahead x rest a in (rw h at got, rw h at there)

-- The size word: the size below the flag
abbrev pub size_word : ℕ → Bool → ℕ
size_word size compressed = if compressed then 0x8000 + size else size

pub write_size_lem :
    (size : ℕ) (compressed : Bool) (e : Entry)
    → size < 0x8000
    → write_size size compressed e ≡ write_slice (to_le 2 (size_word size compressed)) e
unfolding write_size
write_size_lem size true e h = ap (λ n. write_slice (to_le 2 n) e) (bit_or_fields 15 1 size h)
write_size_lem size false e h = refl

word_size :
    (size : ℕ) (compressed : Bool)
    → size < 0x8000
    → bit_and (size_word size compressed) 0x7fff ≡ size
word_size size true h = bit_and_mask 15 (0x8000 + size) ∙ omega arith
word_size size false h = bit_and_mask 15 size ∙ omega arith

word_flag :
    (size : ℕ) (compressed : Bool)
    → size < 0x8000
    → ltb 0 (bit_and (size_word size compressed) compressed_mask) ≡ compressed
word_flag size true h = rw (bit_and_bit 15 (0x8000 + size)) (ground arith)
word_flag size false h = rw (bit_and_bit 15 size) (ground arith)

pub size_word-lt :
    (size : ℕ) (compressed : Bool) → size < 0x8000 → size_word size compressed < 0x10000
size_word-lt size true h = omega arith
size_word-lt size false h = omega arith

pub read_size-Ahead :
    (size : ℕ) (compressed : Bool) (rest : Bytes) {e : Entry}
    → size < 0x8000
    → Ahead e (to_le 2 (size_word size compressed) ++ rest)
    → (read_size e ≡ ok ((size, compressed), moved 2 e)) × Ahead (moved 2 e) rest
unfolding read_size
read_size-Ahead size compressed rest {e} h a =
    let word = size_word size compressed in
    let (got, there) = read_bytes-Ahead 2 (to_le 2 word) rest (length-to_le 2 word) a in
    (
      rw
          (
            got,
            from_le-to_le 2 word (size_word-lt size compressed h),
            word_size size compressed h,
            word_flag size compressed h,
          )
          refl,
      there,
    )

pub same_bytes_refl : (bs : Bytes) → same_bytes bs bs ≡ true
same_bytes_refl [] = refl
same_bytes_refl (b ∷ bs) = ground (arith, same_bytes_refl bs)
