-- ===== src/Log/Record/Heads.antt =====
-- `next` reads the head of an action as `flush_to_file` wrote it.
use mathlib.Core.List.{append-nil, append_assoc}
use blockchain_parity_db.Prelude.{ℕ, ◌^◌, ◌<◌, ◌≡◌, refl, ap, ◌∙◌, [], ◌∷◌, ◌++◌, arith}
use blockchain_parity_db.Bytes.{Bytes, to_le}
use blockchain_parity_db.Outcome.{ok}
use blockchain_parity_db.Log.Reader.{
  Crc32, LogReader, Cleared, read_word, begin_record, insert_index, insert_value, drop_table,
  advance, next, next_by_tag, next_begin, next_index, next_value, next_drop, begin_record_tag,
  insert_index_tag, insert_value_tag, drop_table_tag,
}
use blockchain_parity_db.Log.Reader.Stands.{Stands, advance-Stands, read_word-Stands}
use blockchain_parity_db.Log.Reader.Moved.{Moved, Moved-trans, advance-Moved}
use blockchain_parity_db.Log.Record.{begin_head, page_head, index_head, value_head, drop_head}

-- The words of an insertion's head, read one after the other.
record IsPageHead (tag table index : ℕ) (r : LogReader) (rest : Bytes) : Type 0 where
  r₁ : LogReader
  r₂ : LogReader
  end : LogReader
  tag_read : read_word 1 r ≡ ok (tag, r₁)
  table_read : read_word 2 r₁ ≡ ok (table, r₂)
  index_read : read_word 8 r₂ ≡ ok (index, end)
  ahead : Stands end rest
  moved : Moved r end (page_head tag table index) [] []

page_head-IsPageHead :
    (tag table index : ℕ) (rest : Bytes) {r : LogReader}
    → tag < 2 ^ 8
    → table < 2 ^ 16
    → index < 2 ^ 64
    → Stands r (page_head tag table index ++ rest)
    → IsPageHead tag table index r rest
unfolding page_head
page_head-IsPageHead tag table index rest {r} hg ht hi s =
    let a = to_le 1 tag in
    let b = to_le 2 table in
    let c = to_le 8 index in
    let s₀ : Stands r (a ++ (b ++ (c ++ rest))) =
      rw (append_assoc a (b ++ c) rest, append_assoc b c rest) at s in
    let s₁ = advance-Stands a (b ++ (c ++ rest)) s₀ in
    let s₂ = advance-Stands b (c ++ rest) s₁ in
    record {
      r₁ = advance a r;
      r₂ = advance b (advance a r);
      end = advance c (advance b (advance a r));
      tag_read = read_word-Stands 1 tag (b ++ (c ++ rest)) hg s₀;
      table_read = read_word-Stands 2 table (c ++ rest) ht s₁;
      index_read = read_word-Stands 8 index rest hi s₂;
      ahead = advance-Stands c rest s₂;
      moved =
          Moved-trans (advance-Moved r a) (
            Moved-trans (advance-Moved (advance a r) b)
              (advance-Moved (advance b (advance a r)) c));
    }

-- A reader that notes pages or a record id stands where it stood.
noted :
    {r : LogReader} {bs : Bytes} (id : ℕ) (c : Cleared)
    → Stands r bs
    → Stands (record r { record_id = id; cleared = c }) bs
noted id c s = record { bound = s.bound; ahead = s.ahead }

module _ ⦃crc : Crc32⦄ where
  module _ (table index : ℕ) (ht : table < 2 ^ 16) (hi : index < 2 ^ 64) (rest : Bytes)
      {r : LogReader} where
    pub next-index_head :
        Stands r (index_head table index ++ rest)
        → (r' : LogReader) × (next r ≡ ok (insert_index table index, r'))
          × Stands r' rest
          × Moved r r' (index_head table index) ((table, index) ∷ []) []
    unfolding next next_by_tag next_index
    next-index_head s =
        let p = page_head-IsPageHead insert_index_tag table index rest (omega arith) ht hi s in
        let m = p.moved in
        (
          _,
          rw (p.tag_read, next_by_tag, next_index, p.table_read, p.index_read),
          noted p.end.record_id _ p.ahead,
          record {
            same_file = m.same_file;
            same_mode = m.same_mode;
            same_id = m.same_id;
            counted = m.counted;
            fed = m.fed;
            index_pages = ap (λ l. l ++ (table, index) ∷ []) (m.index_pages ∙ append-nil _);
            value_pages = m.value_pages;
          },
        )

    pub next-value_head :
        Stands r (value_head table index ++ rest)
        → (r' : LogReader) × (next r ≡ ok (insert_value table index, r'))
          × Stands r' rest
          × Moved r r' (value_head table index) [] ((table, index) ∷ [])
    unfolding next next_by_tag next_value
    next-value_head s =
        let p = page_head-IsPageHead insert_value_tag table index rest (omega arith) ht hi s in
        let m = p.moved in
        (
          _,
          rw (p.tag_read, next_by_tag, next_value, p.table_read, p.index_read),
          noted p.end.record_id _ p.ahead,
          record {
            same_file = m.same_file;
            same_mode = m.same_mode;
            same_id = m.same_id;
            counted = m.counted;
            fed = m.fed;
            index_pages = m.index_pages;
            value_pages = ap (λ l. l ++ (table, index) ∷ []) (m.value_pages ∙ append-nil _);
          },
        )

  pub next-drop_head :
      (table : ℕ) (rest : Bytes) {r : LogReader}
      → table < 2 ^ 16
      → Stands r (drop_head table ++ rest)
      → (r' : LogReader) × (next r ≡ ok (drop_table table, r'))
        × Stands r' rest
        × Moved r r' (drop_head table) [] []
  unfolding next next_by_tag next_drop drop_head
  next-drop_head table rest {r} ht s =
      let a = to_le 1 drop_table_tag in
      let b = to_le 2 table in
      let s₀ : Stands r (a ++ (b ++ rest)) = rw (append_assoc a b rest) at s in
      let s₁ = advance-Stands a (b ++ rest) s₀ in
      (
        advance b (advance a r),
        rw (
          read_word-Stands 1 drop_table_tag (b ++ rest) (omega arith) s₀,
          next_by_tag,
          next_drop,
          read_word-Stands 2 table rest ht s₁,
        ),
        advance-Stands b rest s₁,
        Moved-trans (advance-Moved r a) (advance-Moved (advance a r) b),
      )

  -- The head of a record: the reader takes over the record's id.
  pub next-begin_head :
      (id : ℕ) (rest : Bytes) {r : LogReader}
      → id < 2 ^ 64
      → Stands r (begin_head id ++ rest)
      → (r' : LogReader) × (next r ≡ ok (begin_record, r'))
        × Stands r' rest
        × (r'.record_id ≡ id)
        × Moved (record r { record_id = id }) r' (begin_head id) [] []
  unfolding next next_by_tag next_begin begin_head
  next-begin_head id rest {r} hid s =
      let a = to_le 1 begin_record_tag in
      let b = to_le 8 id in
      let s₀ : Stands r (a ++ (b ++ rest)) = rw (append_assoc a b rest) at s in
      let s₁ = advance-Stands a (b ++ rest) s₀ in
      let m = Moved-trans (advance-Moved r a) (advance-Moved (advance a r) b) in
      (
        _,
        rw (
          read_word-Stands 1 begin_record_tag (b ++ rest) (omega arith) s₀,
          next_by_tag,
          next_begin,
          read_word-Stands 8 id rest hid s₁,
        ),
        noted id (advance b (advance a r)).cleared (advance-Stands b rest s₁),
        refl,
        record {
          same_file = m.same_file;
          same_mode = m.same_mode;
          same_id = refl;
          counted = m.counted;
          fed = m.fed;
          index_pages = m.index_pages;
          value_pages = m.value_pages;
        },
      )
