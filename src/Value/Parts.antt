-- ===== src/Value/Parts.antt =====
-- src/table.rs, `for_parts`: a value read slot by slot, from the record under way, the overlays or
-- the file, and the queries that are made of it. The buffer keeps what it held before behind the
-- bytes of a slot. The chain is followed for `fuel` slots at most.
use blockchain_parity_db.Prelude.{
  ℕ, zero, suc, ◌+◌, ◌-◌, ◌*◌, ◌%◌, ◌^◌, Bool, true, false, not, ◌&&◌, ◌||◌, Option, none, some,
  List, [], ◌∷◌, ◌++◌, length, drop, ltb, leb, ◌==◌, if◌then◌else◌, replicate,
}
pub mod Slot
pub mod Chain
pub mod Sizes
use mathlib.Core.Option
use blockchain_parity_db.Index.Table.{Key}
use blockchain_parity_db.Bytes.{Bytes, Memory, read_bytes, slice, splice}
use blockchain_parity_db.Outcome.{Result, ok, err, panic, stuck, ◌>>=◌}
use blockchain_parity_db.Log.Overlay.{LogQuery, LogWriter, LogWriter_query}
use blockchain_parity_db.Value.Entry
use blockchain_parity_db.Value.Entry.{Entry, partial_size, same_bytes}
use blockchain_parity_db.Value.Key.{
  TableKey, partial, no_hash, TableKeyQuery, check, fetch, fetch_none, compare_key, fetch_partial,
  fetch_key, partial_key,
}
use blockchain_parity_db.Value.Table.{ValueTable, fill_buf, is_tombstone}

abbrev pub max_entry_buf_size : ℕ
max_entry_buf_size = 0x8000

-- What the loop has found: the variables `rc` and `compressed`, the key that is fetched, and what the
-- callback has gathered
pub record Found (A : Type 0) : Type 0 where
  pub rc : ℕ
  pub compressed : Bool
  pub key : Bytes
  pub gathered : A

-- `&buf[buf.0..end]`
unfoldable pub remaining_to : ℕ → Entry → Result Bytes
remaining_to end e =
    if ltb end e.offset || ltb (length e.bytes) end
    then panic
    else ok (slice e.offset (end - e.offset) e.bytes)

-- Where the slot ends, the next slot, and whether the value is compressed
unfoldable pub part_head : ValueTable → Bool → Bool → Entry → Result ((ℕ × ℕ × Bool) × Entry)
part_head t first compressed buf =
    if t.multipart && Entry.is_multi t.db_version buf
    then (do
      (next, buf') ← Entry.read_next (Entry.skip_size buf)
      ok (
        (
          t.entry_size,
          next,
          (first && ltb 6 t.db_version && Entry.is_multihead_compressed buf) || compressed,
        ),
        buf',
      ))
    else (do
      ((size, read_compressed), buf') ← Entry.read_size buf
      ok (
        (
          buf'.offset + size,
          0,
          if first || leb t.db_version 6 then read_compressed else compressed,
        ),
        buf',
      ))

-- The counter of the first slot, if the table has counters
unfoldable pub part_rc : ValueTable → Entry → Result (ℕ × Entry)
part_rc t buf = if t.ref_counted then Entry.read_rc buf else ok (1, buf)

-- `match key`: the key fetched, and whether the slot is that of the key asked for
unfoldable pub part_key : TableKeyQuery → Bytes → Entry → Result ((Bytes × Bool) × Entry)
part_key fetch key buf = do (key', buf') ← fetch_partial buf; ok ((key', true), buf')
part_key fetch_none key buf = ok ((key, true), buf)
part_key (check k) key buf = do
  (fetched, buf') ← fetch_key k buf
  ok ((key, compare_key k fetched), buf')

-- The first slot has a counter and a key.
unfoldable pub part_meta :
    ValueTable → TableKeyQuery → Bool → ℕ → Bytes → Entry → Result ((ℕ × Bytes × Bool) × Entry)
part_meta t q false rc key buf = ok ((rc, key, true), buf)
part_meta t q true rc key buf = do
  (rc', buf₁) ← part_rc t buf
  ((key', same), buf₂) ← part_key q key buf₁
  ok ((rc', key', same), buf₂)

-- `Ok((0, false))`
abbrev pub not_found : {A : Type 0} → Found A → Found A
not_found s = record s { rc = 0; compressed = false }

module _ {A : Type 0} (f : Bytes → A → Bool × A) where
  -- One slot: what is found with it, the next slot or 0, and the buffer
  unfoldable pub read_part :
      ValueTable → TableKeyQuery → Bool → Entry → Found A → Result (Found A × ℕ)
  read_part t q first buf s = do
    ((entry_end, next, compressed), buf₁) ← part_head t first s.compressed buf
    ((rc, key, same), buf₂) ← part_meta t q first s.rc s.key buf₁
    if same
        then (do
          bytes ← remaining_to entry_end buf₂
          let (go_on, gathered) = f bytes s.gathered
          ok (
            record { rc = rc; compressed = compressed; key = key; gathered = gathered },
            if go_on then next else 0,
          ))
        else ok (not_found (record s { key = key }), 0)

module _ {L : Type 0} ⦃query : LogQuery L⦄ where
  -- The slot in the log, or else in the file
  unfoldable pub load : ValueTable → ℕ → L → Bytes → Result Entry
  load t index log buf =
      fill_buf (query.value log t.id index buf) t.entry_size t.file (index * t.entry_size) buf

module _ {A : Type 0} (f : Bytes → A → Bool × A) {L : Type 0} ⦃query : LogQuery L⦄ where
  -- `loop`
  unfoldable pub parts_loop :
      ℕ → ValueTable → TableKeyQuery → ℕ → L → Bool → Bytes → Found A → Result (Found A)
  parts_loop zero t q index log first buf s = stuck
  parts_loop (suc fuel) t q index log first buf s = do
    e ← load t index log buf
    (s', next) ← if Entry.is_tombstone e then ok (not_found s, 0) else read_part f t q first e s
    if next == 0 then ok s' else parts_loop fuel t q next log false e.bytes s'

  unfoldable pub for_parts : Memory → ℕ → ValueTable → TableKeyQuery → ℕ → L → A → Result (Found A)
  for_parts uninit fuel t q index log a =
      parts_loop fuel t q index log true (read_bytes uninit 0 max_entry_buf_size)
        (record { rc = 1; compressed = false; key = replicate partial_size 0; gathered = a })

-- The callbacks of `query`, `size` and `partial_key_at`. `result += buf.len() as u32` is a sum of 32 bits.
abbrev pub extend_result : Bytes → Bytes → Bool × Bytes
extend_result bytes result = (true, result ++ bytes)

abbrev pub add_length : Bytes → ℕ → Bool × ℕ
add_length bytes result = (true, (result + length bytes % 2 ^ 32) % 2 ^ 32)

abbrev pub stop_at_once : Bytes → Unit {0} → Bool × Unit {0}
stop_at_once bytes u = (false, u)

abbrev pub if_counted {ℓ} : {B : Type ℓ} → ℕ → B → Option B
if_counted rc b = if ltb 0 rc then some b else none

unfoldable pub get_value : Option (Bytes × Bool × ℕ) → Option (Bytes × Bool)
get_value none = none
get_value (some (value, compressed, rc)) = some (value, compressed)

module _ (uninit : Memory) (fuel : ℕ) {L : Type 0} ⦃query_log : LogQuery L⦄ where
  -- The value, whether it is compressed, its counter, and the key
  unfoldable pub query :
      ValueTable → TableKeyQuery → ℕ → L → Result (Option (Bytes × Bool × ℕ) × Bytes)
  query t q index log = do
    s ← for_parts extend_result uninit fuel t q index log []
    ok (if_counted s.rc (s.gathered, s.compressed, s.rc), s.key)

  unfoldable pub get : ValueTable → TableKey → ℕ → L → Result (Option (Bytes × Bool))
  get t key index log = do (found, k) ← query t (check key) index log; ok (get_value found)

  unfoldable pub get_with_meta : ValueTable → ℕ → L → Result (Option ((Bytes × Bool × ℕ) × Bytes))
  get_with_meta t index log = do
    (found, key) ← query t fetch index log
    ok (Option.map (λ (v : Bytes × Bool × ℕ). (v, key)) found)

  unfoldable pub size : ValueTable → TableKey → ℕ → L → Result (Option (ℕ × Bool))
  size t key index log = do
    s ← for_parts add_length uninit fuel t (check key) index log 0
    ok (if_counted s.rc (s.gathered, s.compressed))

  unfoldable pub partial_key_at : ValueTable → ℕ → L → Result (Option Bytes)
  partial_key_at t index log = do
    s ← for_parts stop_at_once uninit fuel t fetch index log tt
    ok (if_counted s.rc s.key)

unfoldable pub same_key : Key → Option Bytes → Bool
same_key k none = false
same_key k (some existing) = same_bytes existing (partial_key k)

unfoldable pub has_key_at : Memory → ℕ → ValueTable → ℕ → TableKey → LogWriter → Result Bool
has_key_at uninit fuel t index (partial k) log = do
  existing ← partial_key_at uninit fuel t index log
  ok (same_key k existing)
has_key_at uninit fuel t index no_hash log = do
  gone ← is_tombstone uninit t index log
  ok (not gone)
