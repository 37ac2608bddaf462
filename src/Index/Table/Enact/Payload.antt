-- ===== src/Index/Table/Enact/Payload.antt =====
-- `enact_plan` reads the payload that `flush_to_file` wrote, and brings the changed entries to the
-- map.
use mathlib.Core.List.{append_assoc}
use blockchain_parity_db.Prelude.{
  ℕ, zero, suc, ◌+◌, ◌*◌, ◌/◌, ◌^◌, ◌≤◌, ◌<◌, ◌≡◌, sym, ap, ◌∙◌, some, List, [], ◌∷◌, ◌++◌, length,
  length-take, length-drop, drop, arith, false, leb,
}
use blockchain_parity_db.Bytes.{Bytes, Memory, to_le, slice, write_bytes}
use blockchain_parity_db.Outcome.{ok}
use blockchain_parity_db.Word.{mask_bits, ones, mask_bits-ones}
use blockchain_parity_db.Index.Chunk.{Chunk, chunk_entries, entry_bytes}
use blockchain_parity_db.Index.Chunk.Entries.{IsChunk}
use blockchain_parity_db.Index.Table.{IndexTable, total_entries, chunk_offset}
use blockchain_parity_db.Index.TableId
use blockchain_parity_db.Index.Table.Enact.{
  enact_entries, enact_plan, skip_entries, skip_plan, validate_plan, or_blank,
}
use blockchain_parity_db.Log.Overlay.{IndexChange}
use blockchain_parity_db.Log.Reader.{LogReader, advance, read}
use blockchain_parity_db.Log.Reader.Stands.{Stands, advance-Stands, read-Stands, read_word-Stands}
use blockchain_parity_db.Log.Reader.Moved.{advance-append, advance-nil}
use blockchain_parity_db.Log.Record.{masked_entries, index_payload}

-- Every place is that of an entry.
abbrev pub AllBelow : ℕ → List ℕ → Type 0
AllBelow n [] = Unit
AllBelow n (i ∷ is) = (i < n) × AllBelow n is

ones-AllBelow : (k n x m : ℕ) → k + n ≤ m → AllBelow m (ones k n x)
unfolding ones
ones-AllBelow k zero x m h = tt
ones-AllBelow k (suc n) x m h = ground (arith, ones-AllBelow (k + 1) n (x / 2) m (omega arith))

pub mask_bits-AllBelow : (mask : ℕ) → mask < 2 ^ 64 → AllBelow chunk_entries (mask_bits mask)
mask_bits-AllBelow mask h = rw (mask_bits-ones mask h) (ones-AllBelow 0 64 mask 64 (omega arith))

-- The entries of `c` at the given places, written to their places in the map
abbrev pub write_masked : List ℕ → ℕ → Chunk → Memory → Memory
write_masked [] offset c m = m
write_masked (i ∷ is) offset c m =
    write_masked is offset c
      (write_bytes m (offset + i * entry_bytes) (slice (i * entry_bytes) entry_bytes c))

pub length-entry :
    (i : ℕ) (c : Chunk) → i < chunk_entries → IsChunk c → length (slice (i * 8) 8 c) ≡ 8
unfolding slice
length-entry i c hi hc = omega (arith, length-take 8 (drop (i * 8) c), length-drop (i * 8) c)

enact_entries-masked :
    (is : List ℕ) (offset : ℕ) (c : Chunk) (m : Memory) (rest : Bytes) {r : LogReader}
    → AllBelow chunk_entries is
    → IsChunk c
    → Stands r (masked_entries is c ++ rest)
    → enact_entries is offset m r ≡ ok (write_masked is offset c m, advance (masked_entries is c) r)
unfolding enact_entries masked_entries
enact_entries-masked [] offset c m rest {r} below hc st = ap (λ v. ok (m, v)) (sym (advance-nil r))
enact_entries-masked (i ∷ is) offset c m rest {r} (hi, below) hc st =
    let bs = slice (i * 8) 8 c in
    let st' : Stands r (bs ++ (masked_entries is c ++ rest)) = rw (append_assoc bs) at st in
    let got : read 8 r ≡ ok (bs, advance bs r) =
      ap (λ n. read n r) (sym (length-entry i c hi hc)) ∙ read-Stands bs _ st' in
    rw got (
      enact_entries-masked is offset c (write_bytes m (offset + i * 8) bs) rest below hc
        (advance-Stands bs _ st')
      ∙ ap (λ v. ok (write_masked (i ∷ is) offset c m, v))
          (advance-append r bs (masked_entries is c)))

-- `enact_plan` reads exactly the payload of a change, and writes the entries of its mask.
pub enact_plan-index_payload :
    (index : ℕ) (t : IndexTable) (c : IndexChange) (rest : Bytes) {r : LogReader}
    → c.modified_mask < 2 ^ 64
    → IsChunk c.chunk
    → Stands r (index_payload c ++ rest)
    → enact_plan index t r
      ≡ ok (
        record t {
          map = some (
              write_masked
                (mask_bits c.modified_mask)
                (chunk_offset index)
                c.chunk
                (or_blank t.map));
        },
        advance (index_payload c) r,
      )
unfolding enact_plan index_payload
enact_plan-index_payload index t c rest {r} hm hc st =
    let head = to_le 8 c.modified_mask in
    let body = masked_entries (mask_bits c.modified_mask) c.chunk in
    let st' : Stands r (head ++ (body ++ rest)) = rw (append_assoc head) at st in
    rw
      (
        read_word-Stands 8 c.modified_mask (body ++ rest) hm st',
        enact_entries-masked (mask_bits c.modified_mask) (chunk_offset index) c.chunk
            (or_blank t.map) rest (mask_bits-AllBelow c.modified_mask hm) hc
            (advance-Stands head (body ++ rest) st'),
      )
      (ap
        (λ v. ok (
          record t {
            map = some (
                write_masked (mask_bits c.modified_mask) (chunk_offset index) c.chunk
                  (or_blank t.map));
          },
          v,
        ))
        (advance-append r head body))

skip_entries-masked :
    (is : List ℕ) (c : Chunk) (rest : Bytes) {r : LogReader}
    → AllBelow chunk_entries is
    → IsChunk c
    → Stands r (masked_entries is c ++ rest)
    → skip_entries is r ≡ ok (advance (masked_entries is c) r)
unfolding skip_entries masked_entries
skip_entries-masked [] c rest {r} below hc st = ap ok (sym (advance-nil r))
skip_entries-masked (i ∷ is) c rest {r} (hi, below) hc st =
    let bs = slice (i * 8) 8 c in
    let st' : Stands r (bs ++ (masked_entries is c ++ rest)) = rw (append_assoc bs) at st in
    let got : read 8 r ≡ ok (bs, advance bs r) =
      ap (λ n. read n r) (sym (length-entry i c hi hc)) ∙ read-Stands bs _ st' in
    rw got (
      skip_entries-masked is c rest below hc (advance-Stands bs _ st')
      ∙ ap ok (advance-append r bs (masked_entries is c)))

-- `validate_plan` reads exactly the payload of a change whose chunk number it lets pass.
pub validate_plan-index_payload :
    (index : ℕ) (t : IndexTable) (c : IndexChange) (rest : Bytes) {r : LogReader}
    → index < total_entries (TableId.index_bits t.id)
    → c.modified_mask < 2 ^ 64
    → IsChunk c.chunk
    → Stands r (index_payload c ++ rest)
    → validate_plan index t r ≡ ok (advance (index_payload c) r)
unfolding validate_plan skip_plan index_payload
validate_plan-index_payload index t c rest {r} small hm hc st =
    let head = to_le 8 c.modified_mask in
    let body = masked_entries (mask_bits c.modified_mask) c.chunk in
    let st' : Stands r (head ++ (body ++ rest)) = rw (append_assoc head) at st in
    let passes : leb (total_entries (TableId.index_bits t.id)) index ≡ false = ground arith in
    rw
      (
        passes,
        read_word-Stands 8 c.modified_mask (body ++ rest) hm st',
        skip_entries-masked (mask_bits c.modified_mask) c.chunk rest
            (mask_bits-AllBelow c.modified_mask hm) hc (advance-Stands head (body ++ rest) st'),
      )
      (ap ok (advance-append r head body))
