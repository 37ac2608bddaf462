-- ===== src/Log/Record/End.antt =====
-- The end of a record: the checksum of all that was read is compared with the one in the file.
use blockchain_parity_db.Prelude.{
  ℕ, ◌+◌, ◌^◌, ◌<◌, ◌≡◌, ◌≢◌, sym, ap, ◌∙◌, true, false, [], ◌++◌, length, ◌==◌, arith,
}
use blockchain_parity_db.Bytes.{Bytes, to_le, length-to_le, from_le-to_le}
use blockchain_parity_db.Outcome.{ok, err, corruption}
use blockchain_parity_db.Log.Reader.{
  Crc32, LogReader, end_record, advance, read_unchecked, next, next_by_tag, next_end,
  end_record_tag,
}
use blockchain_parity_db.Log.Reader.Stands.{
  Stands, advance-Stands, read_word-Stands, read_unchecked-Stands,
}

-- The reader behind the tag and the checksum
abbrev pub behind_end : ℕ → LogReader → LogReader
behind_end k r =
    let r₁ = advance (to_le 1 end_record_tag) r in
    record r₁ {
      position = r₁.position + length (to_le 4 k);
      read_bytes = r₁.read_bytes + length (to_le 4 k);
    }

module _ ⦃crc : Crc32⦄ (k : ℕ) (fits : k < 2 ^ 32) (rest : Bytes) {r : LogReader}
    (s : Stands r (to_le 1 end_record_tag ++ (to_le 4 k ++ rest))) where
  abbrev r₁ : LogReader
  r₁ = advance (to_le 1 end_record_tag) r

  s₁ : Stands r₁ (to_le 4 k ++ rest)
  s₁ = advance-Stands (to_le 1 end_record_tag) (to_le 4 k ++ rest) s

  checksum_read : read_unchecked 4 r₁ ≡ ok (to_le 4 k, behind_end k r)
  checksum_read =
      ap (λ n. read_unchecked n r₁) (sym (length-to_le 4 k))
      ∙ read_unchecked-Stands (to_le 4 k) rest s₁

  next-next_end : next r ≡ next_end r₁
  unfolding next next_by_tag
  next-next_end = rw (read_word-Stands 1 end_record_tag (to_le 4 k ++ rest) (omega arith) s)

  pub behind_end-Stands : Stands (behind_end k r) rest
  behind_end-Stands =
      let t = advance-Stands (to_le 4 k) rest s₁ in
      record { bound = unfold advance in t.bound; ahead = unfold advance in t.ahead }

  pub next-end_unchecked : r.validate ≡ false → next r ≡ ok (end_record, behind_end k r)
  next-end_unchecked mode = next-next_end ∙ unfold next_end advance in rw (checksum_read, mode)

  pub next-end_checked :
      r.validate ≡ true
      → k ≡ crc.checksum r₁.crc32
      → next r ≡ ok (end_record, record (behind_end k r) { crc32 = [] })
  next-end_checked mode same =
      let mode₁ : r₁.validate ≡ true = unfold advance in mode in
      let value = from_le-to_le 4 k fits in
      let test : (k == crc.checksum r₁.crc32) ≡ true = ground arith in
      next-next_end ∙ unfold next_end in rw (checksum_read, mode₁, value, test)

  pub next-end_mismatch :
      r.validate ≡ true
      → k ≢ crc.checksum r₁.crc32
      → next r ≡ err (corruption "Log record CRC-32 mismatch")
  next-end_mismatch mode differs =
      let mode₁ : r₁.validate ≡ true = unfold advance in mode in
      let value = from_le-to_le 4 k fits in
      let test : (k == crc.checksum r₁.crc32) ≡ false = ground arith in
      next-next_end ∙ unfold next_end in rw (checksum_read, mode₁, value, test)
