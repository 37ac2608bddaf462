-- ===== src/Db/Enact/RoundTrip.antt =====
-- Writing a record and reading it back.
use mathlib.Core.List.{append_assoc}
use blockchain_parity_db.Prelude.{
  ℕ, suc, ◌+◌, ◌^◌, ◌≤◌, ◌<◌, ◌-◌, ◌≡◌, ◌≢◌, refl, sym, ap, ◌∙◌, inl, inr, true, List, [], ◌∷◌,
  ◌++◌, length, length-append, length-drop, Bool-cases, arith,
}
use blockchain_parity_db.Bytes.{Bytes, to_le, length-to_le}
use blockchain_parity_db.Outcome.{ok, err, corruption}
use blockchain_parity_db.Log.Overlay.{LogChange}
use blockchain_parity_db.Log.Reader.{
  Crc32, LogReader, begin_record, end_record, next, advance, end_record_tag, insert_index_tag,
  insert_value_tag, drop_table_tag,
}
use blockchain_parity_db.Log.Reader.Stands.{Stands}
use blockchain_parity_db.Log.Reader.Moved.{Moved, Moved-trans, advance-Moved, feed, Pages}
use blockchain_parity_db.Log.Record.{
  begin_head, page_head, drop_head, index_payload, record_body, flush_to_file, flushed_bytes,
}
use blockchain_parity_db.Log.Record.Heads.{next-begin_head}
use blockchain_parity_db.Log.Record.End.{
  behind_end, behind_end-Stands, next-end_unchecked, next-end_checked, next-end_mismatch,
}
use blockchain_parity_db.Log.Record.Items.{
  Item, index_item, value_item, drop_item, item_bytes, all_bytes, items, Fits, noted_index,
  noted_values, record_body-items,
}
use blockchain_parity_db.Db.Enact.{Handlers, enact_action, enact_loop, enact_record}
use blockchain_parity_db.Db.Enact.Replay.{All, Enacts, apply_all, rounds, enact_items}

-- A reader, before the head of a record, in front of the bytes of `log` with a checksum `k`
abbrev pub written_with : LogChange → ℕ → Bytes → Bytes
written_with log k rest = record_body log ++ (to_le 4 k ++ rest)

nonempty : (tag : ℕ) (bs more : Bytes) → 0 < length ((to_le 1 tag ++ bs) ++ more)
nonempty tag bs more = omega (
  arith,
  length-append (to_le 1 tag ++ bs) more,
  length-append (to_le 1 tag) bs,
  length-to_le 1 tag,
)

item_bytes-pos : (x : Item) → 0 < length (item_bytes x)
unfolding page_head drop_head
item_bytes-pos (index_item table index c) =
    nonempty insert_index_tag (to_le 2 table ++ to_le 8 index) (index_payload c)
item_bytes-pos (value_item table index v) =
    nonempty insert_value_tag (to_le 2 table ++ to_le 8 index) v.entry
item_bytes-pos (drop_item table) =
    omega
      (arith, length-append (to_le 1 drop_table_tag) (to_le 2 table), length-to_le 1 drop_table_tag)

rounds-le : (xs : List Item) → rounds xs 0 ≤ length (all_bytes xs)
rounds-le [] = omega arith
rounds-le (x ∷ xs) =
    omega (arith, rounds-le xs, item_bytes-pos x, length-append (item_bytes x) (all_bytes xs))

rounds-add : (xs : List Item) (n : ℕ) → rounds xs n ≡ rounds xs 0 + n
rounds-add [] n = omega arith
rounds-add (x ∷ xs) n = omega (arith, rounds-add xs n)

-- The fuel of `enact_record` lasts for the actions that stand ahead, and for the end.
enough_fuel :
    (xs : List Item) (tail : Bytes) {r : LogReader}
    → Stands r (all_bytes xs ++ tail)
    → length r.file + 1 ≡ rounds xs (suc (length r.file - rounds xs 0))
enough_fuel xs tail {r} st = omega (
  arith,
  rounds-add xs (suc (length r.file - rounds xs 0)),
  rounds-le xs,
  st.bound,
  ap length st.ahead,
  length-drop r.position r.file,
  length-append (all_bytes xs) tail,
)

module _ ⦃crc : Crc32⦄ {S : Type 0} (h : Handlers S) (apply : Item → S → S) (log : LogChange)
    (k : ℕ) (rest : Bytes) (s : S) {r : LogReader} (id_fits : log.record_id < 2 ^ 64)
    (fits : All Fits (items log)) (k_fits : k < 2 ^ 32)
    (does : All (Enacts h apply log.record_id) (items log)) (fresh : r.crc32 ≡ [])
    (st : Stands r (written_with log k rest)) where
  -- The reader behind the last action, in front of the end of the record
  record BeforeEnd : Type 0 where
    r₁ : LogReader
    r₂ : LogReader
    begins : next r ≡ ok (begin_record, r₁)
    named : r₁.record_id ≡ log.record_id
    replays :
        enact_record h s r₁
        ≡ enact_loop h
            (suc (length r₁.file - rounds (items log) 0))
            (apply_all apply (items log) s)
            r₂
    ahead : Stands r₂ (to_le 1 end_record_tag ++ (to_le 4 k ++ rest))
    whole : (advance (to_le 1 end_record_tag) r₂).crc32 ≡ feed r.validate [] (record_body log)
    moved :
        Moved
          (record r { record_id = log.record_id })
          r₂
          (begin_head log.record_id ++ all_bytes (items log))
          (noted_index (items log))
          (noted_values (items log))

  checked :
      (r₂ : LogReader) {is vs : Pages}
      → Moved
          (record r { record_id = log.record_id })
          r₂
          (begin_head log.record_id ++ all_bytes (items log))
          is
          vs
      → (advance (to_le 1 end_record_tag) r₂).crc32 ≡ feed r.validate [] (record_body log)
  checked r₂ m =
      (Moved-trans m (advance-Moved r₂ (to_le 1 end_record_tag))).fed
      ∙ ap
          (λ c.
            feed r.validate c
              ((begin_head log.record_id ++ all_bytes (items log)) ++ to_le 1 end_record_tag))
          fresh
      ∙ ap (feed r.validate []) (
          append_assoc (begin_head log.record_id) (all_bytes (items log)) (to_le 1 end_record_tag)
          ∙ sym (record_body-items log))

  before_end : BeforeEnd
  unfolding enact_record
  before_end =
      let tail = to_le 1 end_record_tag ++ (to_le 4 k ++ rest) in
      let body = all_bytes (items log) in
      let st₀ : Stands r (begin_head log.record_id ++ (body ++ tail)) =
        rw (record_body-items log, append_assoc (begin_head log.record_id), append_assoc body) at
          st in
      let (r₁, e₁, s₁, named, m₁) = next-begin_head log.record_id (body ++ tail) id_fits st₀ in
      let (r₂, e₂, s₂, m₂) =
        enact_items h apply log.record_id (items log) (suc (length r₁.file - rounds (items log) 0))
          s tail fits does named s₁ in
      record {
        r₁ = r₁;
        r₂ = r₂;
        begins = e₁;
        named = named;
        replays = ap (λ n. enact_loop h n s r₁) (enough_fuel (items log) tail s₁) ∙ e₂;
        ahead = s₂;
        whole = checked r₂ (Moved-trans m₁ m₂);
        moved = Moved-trans m₁ m₂;
      }

  open before_end use {r₁, r₂, begins, named, replays, ahead, whole, moved}

  -- The loop at the end of the record
  last_round :
      {e : LogReader}
      → next r₂ ≡ ok (end_record, e)
      → enact_record h s r₁ ≡ ok (apply_all apply (items log) s, e)
  unfolding enact_loop enact_action
  last_round e = replays ∙ rw (e, enact_action)

  -- The reader that `enact_record` leaves, and what it has noted
  pub record Replayed (e : LogReader) : Type 0 where
    pub start : LogReader
    pub begins : next r ≡ ok (begin_record, start)
    pub named : start.record_id ≡ log.record_id
    pub replays : enact_record h s start ≡ ok (apply_all apply (items log) s, e)
    pub same_file : e.file ≡ r.file
    pub ahead : Stands e rest
    pub keeps_id : e.record_id ≡ log.record_id
    pub counted : e.read_bytes ≡ r.read_bytes + flushed_bytes log
    pub index_noted : e.cleared.index ≡ r.cleared.index ++ noted_index (items log)
    pub values_noted : e.cleared.values ≡ r.cleared.values ++ noted_values (items log)

  replayed :
      (c : Bytes)
      → next r₂ ≡ ok (end_record, record (behind_end k r₂) { crc32 = c })
      → Replayed (record (behind_end k r₂) { crc32 = c })
  unfolding flushed_bytes advance
  replayed c e =
      let b = behind_end-Stands k k_fits rest ahead in
      record {
        start = r₁;
        begins = begins;
        named = named;
        replays = last_round e;
        same_file = moved.same_file;
        ahead = record { bound = b.bound; ahead = b.ahead };
        keeps_id = moved.same_id;
        counted = omega (
          arith,
          moved.counted,
          length-to_le 1 end_record_tag,
          length-to_le 4 k,
          ap length (record_body-items log),
          length-append (begin_head log.record_id) (all_bytes (items log)),
          length-append (begin_head log.record_id)
              (all_bytes (items log) ++ to_le 1 end_record_tag),
          length-append (all_bytes (items log)) (to_le 1 end_record_tag),
        );
        index_noted = moved.index_pages;
        values_noted = moved.value_pages;
      }

  mode₂ : r₂.validate ≡ r.validate
  mode₂ = moved.same_mode

  whole_checked : r.validate ≡ true → (advance (to_le 1 end_record_tag) r₂).crc32 ≡ record_body log
  whole_checked mode = whole ∙ ap (λ v. feed v [] (record_body log)) mode

  -- With the right checksum, or none to compare, the record is replayed.
  pub replay_good : k ≡ crc.checksum (record_body log) → (e : LogReader) × Replayed e
  replay_good same = elim (Bool-cases r.validate) [
    | inl checks ↦ (
      _,
      replayed [] (
          next-end_checked k k_fits rest ahead (mode₂ ∙ checks)
            (same ∙ ap crc.checksum (sym (whole_checked checks)))),
    )
    | inr trusts ↦ (_, replayed _ (next-end_unchecked k k_fits rest ahead (mode₂ ∙ trusts)))
  ]

  -- A record whose checksum in the file is not that of its bytes is refused by a reader that
  -- validates: the loop over its actions ends with `Corruption`.
  pub enact_record_mismatch :
      r.validate ≡ true
      → k ≢ crc.checksum (record_body log)
      → (start : LogReader) × (next r ≡ ok (begin_record, start))
        × (enact_record h s start ≡ err (corruption "Log record CRC-32 mismatch"))
  unfolding enact_loop
  enact_record_mismatch checks differs = (
    r₁,
    begins,
    replays
        ∙ rw (
            next-end_mismatch k k_fits rest ahead (mode₂ ∙ checks)
              (λ same. differs (same ∙ ap crc.checksum (whole_checked checks)))),
  )

-- Where the replay of a record that `flush_to_file` wrote ends
pub enact_record-behind :
    ⦃crc : Crc32⦄ {S : Type 0} (h : Handlers S) (apply : Item → S → S) (log : LogChange)
    (rest : Bytes) (s : S) {r : LogReader}
    → log.record_id < 2 ^ 64
    → All Fits (items log)
    → All (Enacts h apply log.record_id) (items log)
    → r.crc32 ≡ []
    → Stands r (flush_to_file log ++ rest)
    → (start : LogReader) × (e : LogReader) × (next r ≡ ok (begin_record, start))
      × (start.record_id ≡ log.record_id)
      × (enact_record h s start ≡ ok (apply_all apply (items log) s, e))
      × Stands e rest
      × (e.read_bytes ≡ r.read_bytes + flushed_bytes log)
      × (e.file ≡ r.file)
unfolding flush_to_file
enact_record-behind ⦃crc⦄ h apply log rest s {r} id_fits fits does fresh st =
    let k = crc.checksum (record_body log) in
    let st' : Stands r (written_with log k rest) = rw (append_assoc (record_body log)) at st in
    let (e, t) =
      replay_good h apply log k rest s id_fits fits (crc.checksum-lt (record_body log)) does fresh
        st' refl in
    (t.start, e, t.begins, t.named, t.replays, t.ahead, t.counted, t.same_file)

-- A record that `flush_to_file` wrote is read back, by a reader in front of it whose hasher is new,
-- validating or not: `next` finds its beginning and its id; the loop of `enact_logs` applies exactly
-- its actions, in the order in which they were written, and ends behind the record; the reader has
-- counted the bytes that `flush_to_file` reported and noted every page of the record. Ids, places
-- and masks fit their words, and the handlers read the payload that an action has.
pub enact_record-flush_to_file :
    ⦃crc : Crc32⦄ {S : Type 0} (h : Handlers S) (apply : Item → S → S) (log : LogChange)
    (rest : Bytes) (s : S) {r : LogReader}
    → log.record_id < 2 ^ 64
    → All Fits (items log)
    → All (Enacts h apply log.record_id) (items log)
    → r.crc32 ≡ []
    → Stands r (flush_to_file log ++ rest)
    → (start : LogReader) × (e : LogReader) × (next r ≡ ok (begin_record, start))
      × (start.record_id ≡ log.record_id)
      × (enact_record h s start ≡ ok (apply_all apply (items log) s, e))
      × Stands e rest
      × (e.record_id ≡ log.record_id)
      × (e.read_bytes ≡ r.read_bytes + flushed_bytes log)
      × (e.cleared.index ≡ r.cleared.index ++ noted_index (items log))
      × (e.cleared.values ≡ r.cleared.values ++ noted_values (items log))
unfolding flush_to_file
enact_record-flush_to_file ⦃crc⦄ h apply log rest s {r} id_fits fits does fresh st =
    let k = crc.checksum (record_body log) in
    let st' : Stands r (written_with log k rest) = rw (append_assoc (record_body log)) at st in
    let (e, t) =
      replay_good h apply log k rest s id_fits fits (crc.checksum-lt (record_body log)) does fresh
        st' refl in
    (
      t.start, e, t.begins, t.named, t.replays, t.ahead, t.keeps_id, t.counted, t.index_noted,
      t.values_noted,
    )
