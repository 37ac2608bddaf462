-- ===== src/Log/Reader/Stands.antt =====
-- Reading bytes that are there: a reader stands in front of `bs`.
use blockchain_parity_db.Prelude.{
  ℕ, ◌+◌, ◌≤◌, ◌<◌, ◌^◌, ◌≡◌, sym, ap, ◌∙◌, ◌++◌, length, drop, take, length-drop, length-append,
  arith,
}
use blockchain_parity_db.Bytes.{
  Bytes, to_le, length-to_le, from_le-to_le, slice, take-length-append, drop-length-append,
  drop-add,
}
use blockchain_parity_db.Outcome.{ok}
use blockchain_parity_db.Log.Reader.{LogReader, advance, read, read_unchecked, read_word}

pub record Stands (r : LogReader) (bs : Bytes) : Type 0 where
  pub bound : r.position ≤ length r.file
  pub ahead : drop r.position r.file ≡ bs

module _ (bs rest : Bytes) {r : LogReader} (s : Stands r (bs ++ rest)) where
  enough : r.position + length bs ≤ length r.file
  enough =
      omega
        (arith, s.bound, length-drop r.position r.file, ap length s.ahead, length-append bs rest)

  bytes : slice r.position (length bs) r.file ≡ bs
  unfolding slice
  bytes = ap (take (length bs)) s.ahead ∙ take-length-append bs rest

  -- `read` returns the bytes that stand ahead, and leaves the reader behind them.
  pub read-Stands : read (length bs) r ≡ ok (bs, advance bs r)
  unfolding read
  read-Stands = rw bytes (ground (arith, enough))

  pub advance-Stands : Stands (advance bs r) rest
  unfolding advance
  advance-Stands = record {
    bound = enough;
    ahead =
        drop-add r.position (length bs) r.file
        ∙ ap (drop (length bs)) s.ahead
        ∙ drop-length-append bs rest;
  }

  pub read_unchecked-Stands :
      read_unchecked (length bs) r
      ≡ ok (
        bs,
        record r { position = r.position + length bs; read_bytes = r.read_bytes + length bs },
      )
  unfolding read_unchecked
  read_unchecked-Stands = rw bytes (ground (arith, enough))

-- A word of `w` bytes is read as it was written.
pub read_word-Stands :
    (w x : ℕ) (rest : Bytes) {r : LogReader}
    → x < 256 ^ w
    → Stands r (to_le w x ++ rest)
    → read_word w r ≡ ok (x, advance (to_le w x) r)
unfolding read_word
read_word-Stands w x rest {r} h s =
    let got : read w r ≡ ok (to_le w x, advance (to_le w x) r) =
      ap (λ n. read n r) (sym (length-to_le w x)) ∙ read-Stands (to_le w x) rest s in
    rw got (ap (λ v. ok (v, advance (to_le w x) r)) (from_le-to_le w x h))
