-- ===== src/Log/Reader/Moved.antt =====
-- What a reader has read between two moments: the bytes, and the pages whose heads were among them.
use mathlib.Core.List.{append-nil, append_assoc}
use blockchain_parity_db.Prelude.{
  ℕ, ◌+◌, ◌≡◌, refl, ap, ◌∙◌, sym, Bool, true, false, List, [], ◌++◌, length, length-append, arith,
}
use blockchain_parity_db.Bytes.{Bytes}
use blockchain_parity_db.Index.TableId.{TableId}
use blockchain_parity_db.Log.Reader.{LogReader, advance}

abbrev pub Pages : Type 0
Pages = List (TableId × ℕ)

abbrev pub feed : Bool → Bytes → Bytes → Bytes
feed true crc bs = crc ++ bs
feed false crc bs = crc

pub record Moved (r r' : LogReader) (bs : Bytes) (is vs : Pages) : Type 0 where
  pub same_file : r'.file ≡ r.file
  pub same_mode : r'.validate ≡ r.validate
  pub same_id : r'.record_id ≡ r.record_id
  pub counted : r'.read_bytes ≡ r.read_bytes + length bs
  pub fed : r'.crc32 ≡ feed r.validate r.crc32 bs
  pub index_pages : r'.cleared.index ≡ r.cleared.index ++ is
  pub value_pages : r'.cleared.values ≡ r.cleared.values ++ vs

pub feed-append : (v : Bool) (crc xs bs : Bytes) → feed v (feed v crc xs) bs ≡ feed v crc (xs ++ bs)
feed-append true crc xs bs = append_assoc crc xs bs
feed-append false crc xs bs = refl

pub Moved-refl : (r : LogReader) → Moved r r [] [] []
Moved-refl r = record {
  same_file = refl;
  same_mode = refl;
  same_id = refl;
  counted = omega arith;
  fed = sym (feed-nil r.validate r.crc32);
  index_pages = sym (append-nil r.cleared.index);
  value_pages = sym (append-nil r.cleared.values);
}
  where
    feed-nil : (v : Bool) (bs : Bytes) → feed v bs [] ≡ bs
    feed-nil true bs = append-nil bs
    feed-nil false bs = refl

pub advance-Moved : (r : LogReader) (bs : Bytes) → Moved r (advance bs r) bs [] []
unfolding advance
advance-Moved r bs = record {
  same_file = refl;
  same_mode = refl;
  same_id = refl;
  counted = refl;
  fed = ground arith;
  index_pages = sym (append-nil r.cleared.index);
  value_pages = sym (append-nil r.cleared.values);
}

pub Moved-trans :
    {r r' r'' : LogReader} {xs bs : Bytes} {is vs is' vs' : Pages}
    → Moved r r' xs is vs
    → Moved r' r'' bs is' vs'
    → Moved r r'' (xs ++ bs) (is ++ is') (vs ++ vs')
Moved-trans {r} {r'} {r''} {xs} {bs} {is} {vs} {is'} {vs'} m n = record {
  same_file = n.same_file ∙ m.same_file;
  same_mode = n.same_mode ∙ m.same_mode;
  same_id = n.same_id ∙ m.same_id;
  counted = omega (arith, m.counted, n.counted, length-append xs bs);
  fed =
      n.fed
      ∙ ap (λ v. feed v r'.crc32 bs) m.same_mode
      ∙ ap (λ c. feed r.validate c bs) m.fed
      ∙ feed-append r.validate r.crc32 xs bs;
  index_pages =
      n.index_pages ∙ ap (λ l. l ++ is') m.index_pages ∙ append_assoc r.cleared.index is is';
  value_pages =
      n.value_pages ∙ ap (λ l. l ++ vs') m.value_pages ∙ append_assoc r.cleared.values vs vs';
}

-- To read on is to read all at once.
pub advance-append :
    (r : LogReader) (xs bs : Bytes) → advance bs (advance xs r) ≡ advance (xs ++ bs) r
unfolding advance
advance-append r xs bs = ground (arith, length-append xs bs, append_assoc r.crc32 xs bs)

pub advance-nil : (r : LogReader) → advance [] r ≡ r
unfolding advance
advance-nil r = ground (arith, append-nil r.crc32)
