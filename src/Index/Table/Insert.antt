-- ===== src/Index/Table/Insert.antt =====
-- What an insertion into the index does, on every branch, and that the entry is found.
use blockchain_parity_db.Prelude.{
  ℕ, suc, ◌+◌, ◌-◌, ◌%◌, ◌^◌, ◌≤◌, ◌<◌, ◌≡◌, ◌≢◌, sym, ap, ◌∙◌, ◌⊎◌, inl, inr, true, ◌&&◌, Option,
  none, some, Bool-cases, Option-cases, ltb, ◌==◌, if◌then◌else◌, arith,
}
use blockchain_parity_db.Outcome.{Result, ok}
use blockchain_parity_db.Word.{IsU64, two-pow-pos}
use blockchain_parity_db.Index.Address.{Address}
use blockchain_parity_db.Index.Entry
use blockchain_parity_db.Index.Entry.{Entry}
use blockchain_parity_db.Index.Entry.Fields.{new_fields, new_lem, new-lt, last_address_lem}
use blockchain_parity_db.Index.Entry.Prefix.{extract_key-lt}
use blockchain_parity_db.Index.TableId
use blockchain_parity_db.Index.Chunk.{
  Chunk, chunk_entries, empty_chunk, read_entry, write_entry, holds_key, find_from, find_entry,
}
use blockchain_parity_db.Index.Chunk.Entries.{IsChunk, read_entry-write_entry}
use blockchain_parity_db.Log.Overlay.{LogWriter, LogWriter_query}
use blockchain_parity_db.Log.Overlay.Queries.{with_index-insert_index}
use blockchain_parity_db.Index.Table.{
  IndexTable, Key, PlanOutcome, written, need_reindex, index_from_partial, current_chunk, get,
  put_entry, replace_entry, add_entry, plan_insert_chunk, write_insert_plan,
}
use blockchain_parity_db.Index.Table.Vacancy.{IsFirstEmpty, IsFull, first_empty_cases}

-- The index bits of a table, the number of the key's chunk, the entry that stands for an address
-- under the key, and the chunk that a plan starts from.
abbrev pub bits_of : IndexTable → ℕ
bits_of t = TableId.index_bits t.id

abbrev pub chunk_of : IndexTable → Key → ℕ
chunk_of t key = Entry.chunk_index (bits_of t) (index_from_partial key)

abbrev pub key_of : IndexTable → Key → ℕ
key_of t key = Entry.extract_key (index_from_partial key) (bits_of t)

abbrev pub entry_of : IndexTable → Key → Address → Entry
entry_of t key a = Entry.new a (key_of t key) (bits_of t)

abbrev pub or_empty : Option Chunk → Chunk
or_empty none = empty_chunk
or_empty (some c) = c

abbrev pub source : IndexTable → ℕ → LogWriter → Chunk
source t index w = or_empty (current_chunk t index w)

-- A change of one chunk shows in that chunk alone, to every table.
pub current_chunk-put_entry :
    (t t' : IndexTable) (index index' i : ℕ) (e : Entry) (c : Chunk) (w : LogWriter)
    → current_chunk t' index' (put_entry t index e i c w) ≡ (
        if t.id == t'.id && index == index'
        then some (write_entry e i c)
        else current_chunk t' index' w)
unfolding current_chunk put_entry
current_chunk-put_entry t t' index index' i e c w =
    ground (arith, with_index-insert_index t.id index (i % 256) t'.id index' (write_entry e i c) w)

pub current_chunk-put_entry_self :
    (t : IndexTable) (index i : ℕ) (e : Entry) (c : Chunk) (w : LogWriter)
    → current_chunk t index (put_entry t index e i c w) ≡ some (write_entry e i c)
current_chunk-put_entry_self t index i e c w =
    current_chunk-put_entry t t index index i e c w ∙ ground arith

pub current_chunk-put_entry_ne :
    (t : IndexTable) (index index' i : ℕ) (e : Entry) (c : Chunk) (w : LogWriter)
    → index ≢ index'
    → current_chunk t index' (put_entry t index e i c w) ≡ current_chunk t index' w
current_chunk-put_entry_ne t index index' i e c w h =
    current_chunk-put_entry t t index index' i e c w ∙ ground arith

-- A lookup reads the current chunk of its key.
pub get-current_chunk :
    (t : IndexTable) (key : Key) (sub_index : ℕ) (c : Chunk) (w : LogWriter)
    → current_chunk t (chunk_of t key) w ≡ some c
    → get t key sub_index w ≡ find_entry (bits_of t) (index_from_partial key) sub_index c
unfolding get
get-current_chunk t key sub_index c w e = rw (e, get)

write_insert_plan-source :
    (t : IndexTable) (key : Key) (a : Address) (sub_index : Option ℕ) (w : LogWriter)
    → write_insert_plan t key a sub_index w
      ≡ plan_insert_chunk t (index_from_partial key) a (source t (chunk_of t key) w) sub_index w
unfolding write_insert_plan
write_insert_plan-source t key a sub_index w =
    elim (Option-cases (current_chunk t (chunk_of t key) w)) [
      | inl e ↦ rw (e, write_insert_plan)
      | inr (c, e) ↦ rw (e, write_insert_plan)
    ]

-- An insertion with no place given leaves the record as it is and asks for a larger table if the
-- address does not fit the table's entries or the chunk is full; otherwise it writes the new entry
-- into the first empty place.
pub write_insert_plan_cases :
    (t : IndexTable) (key : Key) (a : Address) (w : LogWriter)
    → let c = source t (chunk_of t key) w in
      ((Entry.last_address (bits_of t) < a)
        × (write_insert_plan t key a none w ≡ ok (need_reindex, w)))
      ⊎ ((a ≤ Entry.last_address (bits_of t))
          × (IsFull 0 chunk_entries c × (write_insert_plan t key a none w ≡ ok (need_reindex, w))
              ⊎ ((i : ℕ) × IsFirstEmpty 0 chunk_entries c i
                  × (write_insert_plan t key a none w
                      ≡ ok (written, put_entry t (chunk_of t key) (entry_of t key a) i c w)))))
unfolding plan_insert_chunk add_entry
write_insert_plan_cases t key a w =
    rw write_insert_plan-source (branches (source t (chunk_of t key) w))
  where
    branches :
        (c : Chunk)
        → let r = plan_insert_chunk t (index_from_partial key) a c none w in
          ((Entry.last_address (bits_of t) < a) × (r ≡ ok (need_reindex, w)))
          ⊎ ((a ≤ Entry.last_address (bits_of t))
              × (IsFull 0 chunk_entries c × (r ≡ ok (need_reindex, w))
                  ⊎ ((i : ℕ) × IsFirstEmpty 0 chunk_entries c i
                      × (r ≡ ok (written, put_entry t (chunk_of t key) (entry_of t key a) i c w)))))
    branches c = elim (Bool-cases (ltb (Entry.last_address (bits_of t)) a)) [
      | inl over ↦ inl (ground arith, rw over)
      | inr fits ↦ inr (
        ground arith,
        elim (first_empty_cases c) [
          | inl (i, first, e) ↦ inr (i, first, rw (fits, e, add_entry))
          | inr (full, e) ↦ inl (full, rw (fits, e, add_entry))
        ],
      )
    ]

-- A search that begins at an entry that holds the key stops there.
pub find_entry-here :
    (bits key_prefix i : ℕ) (c : Chunk)
    → i < chunk_entries
    → holds_key bits (Entry.extract_key key_prefix bits) (read_entry c i) ≡ true
    → find_entry bits key_prefix i c ≡ (read_entry c i, i)
unfolding find_entry find_from
find_entry-here bits key_prefix i c h here =
    let e : chunk_entries - i ≡ suc (chunk_entries - i - 1) = omega arith in rw (e, here)

-- The new entry of a key holds the key, fits a word and gives the address back.
module _ (t : IndexTable) (key : Key) (a : Address) (pos : 0 < bits_of t) (hb : bits_of t ≤ 49)
    (used : 0 < a) (fits : a ≤ Entry.last_address (bits_of t)) where
  room : a < 2 ^ (bits_of t + 14)
  room = omega (arith, last_address_lem (bits_of t) hb, two-pow-pos (bits_of t + 14))

  pub address-entry_of : Entry.address (entry_of t key a) (bits_of t) ≡ a
  address-entry_of =
      (new_fields (bits_of t) hb a (key_of t key) room (extract_key-lt (bits_of t) _ hb pos)).0

  pub partial_key-entry_of : Entry.partial_key (entry_of t key a) (bits_of t) ≡ key_of t key
  partial_key-entry_of =
      (new_fields (bits_of t) hb a (key_of t key) room (extract_key-lt (bits_of t) _ hb pos)).1

  pub entry_of-IsU64 : IsU64 (entry_of t key a)
  entry_of-IsU64 = new-lt (bits_of t) hb a (key_of t key) room (extract_key-lt (bits_of t) _ hb pos)

  pub entry_of-holds : holds_key (bits_of t) (key_of t key) (entry_of t key a) ≡ true
  unfolding holds_key Entry.is_empty
  entry_of-holds =
      let p = key_of t key in
      let small = extract_key-lt (bits_of t) (index_from_partial key) hb pos in
      ground
        (arith, new_lem (bits_of t) hb a p room small, (new_fields (bits_of t) hb a p room small).1)

not_written :
    {w' : LogWriter} (v : LogWriter)
    → ◌≡◌ {A = Result (PlanOutcome × LogWriter)} (ok (need_reindex, v)) (ok (written, w'))
    → ⊥
not_written v p = cc

found :
    (t : IndexTable) (key : Key) (a : Address) (i : ℕ) (c : Chunk)
    → 0 < bits_of t
    → bits_of t ≤ 49
    → 0 < a
    → a ≤ Entry.last_address (bits_of t)
    → i < chunk_entries
    → read_entry c i ≡ entry_of t key a
    → find_entry (bits_of t) (index_from_partial key) i c ≡ (entry_of t key a, i)
found t key a i c pos hb used fits place e =
    find_entry-here (bits_of t) (index_from_partial key) i c place
      (rw e (entry_of-holds t key a pos hb used fits))
    ∙ ap (λ x. (x, i)) e

-- The record `w'` differs from `w` in one entry, that at `i` of the key's chunk, which stands for
-- the address `a` now: a lookup of the key from `i` on returns it and its address is `a`; the other
-- entries of the chunk and all other chunks of the table are as before.
pub record IsPlaced (t : IndexTable) (key : Key) (a : Address) (i : ℕ) (w w' : LogWriter)
    : Type 0 where
  pub found_at : get t key i w' ≡ (entry_of t key a, i)
  pub leads_to : Entry.address (entry_of t key a) (bits_of t) ≡ a
  pub others :
      (j : ℕ)
      → i ≢ j
      → read_entry (source t (chunk_of t key) w') j ≡ read_entry (source t (chunk_of t key) w) j
  pub elsewhere :
      (index : ℕ) → chunk_of t key ≢ index → current_chunk t index w' ≡ current_chunk t index w

put_entry-IsPlaced :
    (t : IndexTable) (key : Key) (a : Address) (i : ℕ) (w : LogWriter)
    → 0 < bits_of t
    → bits_of t ≤ 49
    → 0 < a
    → a ≤ Entry.last_address (bits_of t)
    → i < chunk_entries
    → IsChunk (source t (chunk_of t key) w)
    → IsPlaced t key a i w
        (put_entry t (chunk_of t key) (entry_of t key a) i (source t (chunk_of t key) w) w)
put_entry-IsPlaced t key a i w pos hb used fits place hc =
    let c = source t (chunk_of t key) w in
    let entry = entry_of t key a in
    let now = current_chunk-put_entry_self t (chunk_of t key) i entry c w in
    let read = λ (j : ℕ).
      read_entry-write_entry entry i j c place hc (entry_of-IsU64 t key a pos hb used fits) in
    record {
      found_at =
          get-current_chunk t key i (write_entry entry i c) _ now
          ∙ found t key a i (write_entry entry i c) pos hb used fits place (read i ∙ ground arith);
      leads_to = address-entry_of t key a pos hb used fits;
      others = λ j apart. ap (λ o. read_entry (or_empty o) j) now ∙ read j ∙ ground arith;
      elsewhere =
          λ index apart. current_chunk-put_entry_ne t (chunk_of t key) index i entry c w apart;
    }

-- An insertion that reports `Written`, with no place given and for an address that is not zero, has
-- put the entry of the key and the address into a place that was empty, and changed nothing else: a
-- lookup finds it. The table has 1 to 49 index bits, and the chunk is 512 bytes long.
pub get-write_insert_plan :
    (t : IndexTable) (key : Key) (a : Address) (w w' : LogWriter)
    → 0 < bits_of t
    → bits_of t ≤ 49
    → 0 < a
    → IsChunk (source t (chunk_of t key) w)
    → write_insert_plan t key a none w ≡ ok (written, w')
    → (i : ℕ) × (i < chunk_entries)
      × (Entry.is_empty (read_entry (source t (chunk_of t key) w) i) ≡ true)
      × IsPlaced t key a i w w'
get-write_insert_plan t key a w w' pos hb used hc done = elim (write_insert_plan_cases t key a w) [
  | inl (over, e) ↦ absurd (not_written w (sym e ∙ done))
  | inr (fits, inl (full, e)) ↦ absurd (not_written w (sym e ∙ done))
  | inr (fits, inr (i, first, e)) ↦
      let c = source t (chunk_of t key) w in
      let same : put_entry t (chunk_of t key) (entry_of t key a) i c w ≡ w' = cc in
      let place : i < chunk_entries = omega (arith, first.to) in
      rw (← same) (i, place, first.vacant, put_entry-IsPlaced t key a i w pos hb used fits place hc)
]

-- An insertion at a given place below 64, whose entry has the partial key of the key, replaces that
-- entry and changes nothing else, if the address is not zero and fits the table's entries.
pub write_insert_plan-replace :
    (t : IndexTable) (key : Key) (a : Address) (i : ℕ) (w : LogWriter)
    → 0 < bits_of t
    → bits_of t ≤ 49
    → 0 < a
    → a ≤ Entry.last_address (bits_of t)
    → i < chunk_entries
    → IsChunk (source t (chunk_of t key) w)
    → Entry.partial_key (read_entry (source t (chunk_of t key) w) i) (bits_of t) ≡ key_of t key
    → (w' : LogWriter) × (write_insert_plan t key a (some i) w ≡ ok (written, w'))
      × IsPlaced t key a i w w'
write_insert_plan-replace t key a i w pos hb used fits place hc same = (
  _,
  write_insert_plan-source t key a (some i) w ∙ run (source t (chunk_of t key) w) same,
  put_entry-IsPlaced t key a i w pos hb used fits place hc,
)
  where
    key_kept : Entry.partial_key (entry_of t key a) (bits_of t) ≡ key_of t key
    key_kept = partial_key-entry_of t key a pos hb used fits

    run :
        (c : Chunk)
        → Entry.partial_key (read_entry c i) (bits_of t) ≡ key_of t key
        → plan_insert_chunk t (index_from_partial key) a c (some i) w
          ≡ ok (written, put_entry t (chunk_of t key) (entry_of t key a) i c w)
    run c e = unfold plan_insert_chunk replace_entry in ground (arith, key_kept)
