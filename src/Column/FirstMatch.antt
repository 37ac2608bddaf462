-- ===== src/Column/FirstMatch.antt =====
-- The search of `search_index` for the entry that has the whole key.
use blockchain_parity_db.Prelude.{
  ℕ, zero, suc, ◌+◌, ◌-◌, ◌≤◌, ◌<◌, ◌≡◌, refl, ◌⊎◌, inl, inr, Bool, true, false, ltb, Bool-cases,
  Option, none, some, List, ◌==◌, arith,
}
use blockchain_parity_db.Bytes.{Memory}
use blockchain_parity_db.Outcome.{Result, ok, ◌>>=◌, bind_ok}
use blockchain_parity_db.Index.Address
use blockchain_parity_db.Index.Address.{Address}
use blockchain_parity_db.Index.Entry
use blockchain_parity_db.Index.Entry.{Entry, empty}
use blockchain_parity_db.Index.Chunk.{Chunk, chunk_entries, read_entry, holds_key}
use blockchain_parity_db.Index.Chunk.Search.{IsFirst, find_entry_cases}
use blockchain_parity_db.Index.Table.{Key, IndexTable, index_from_partial, current_chunk, get}
use blockchain_parity_db.Index.Table.Insert.{bits_of, chunk_of, key_of, get-current_chunk}
use blockchain_parity_db.Log.Overlay.{LogWriter, LogWriter_query}
use blockchain_parity_db.Value.Key.{partial}
use blockchain_parity_db.Value.Table.{ValueTable}
use blockchain_parity_db.Value.Parts.{has_key_at}
use blockchain_parity_db.Column.{table_at}
use blockchain_parity_db.Column.Search.{Existing, search_loop, search_index}

holds_key-used : (bits key : ℕ) (e : Entry) → holds_key bits key e ≡ true → Entry.is_empty e ≡ false
unfolding holds_key
holds_key-used bits key e h = ground (arith, h)

is_empty-empty : Entry.is_empty empty ≡ true
unfolding Entry.is_empty
is_empty-empty = refl

module _ (u : Memory) (fuel : ℕ) (key : Key) (t : IndexTable) (tables : List ValueTable)
    (w : LogWriter) (c : Chunk) where
  -- The address of an entry, and whether the slot there is that of the key
  abbrev pub address_at : ℕ → Address
  address_at i = Entry.address (read_entry c i) (bits_of t)

  abbrev pub has_key : ℕ → Result Bool
  has_key i =
      table_at (Address.size_tier (address_at i)) tables
      >>= (λ (s : ValueTable). has_key_at u fuel s (Address.offset (address_at i)) (partial key) w)

  -- The entry has the bits of the key that an index keeps.
  abbrev pub IsCandidate : ℕ → Type 0
  IsCandidate i = holds_key (bits_of t) (key_of t key) (read_entry c i) ≡ true

  -- `same` tells of each candidate whether it has the key.
  abbrev pub Tells : (ℕ → Bool) → Type 0
  Tells same = (i : ℕ) → i < chunk_entries → IsCandidate i → has_key i ≡ ok (same i)

  abbrev pub NoneSame : (ℕ → Bool) → ℕ → ℕ → Type 0
  NoneSame same from to = (j : ℕ) → from ≤ j → j < to → IsCandidate j → same j ≡ false

  -- The first candidate from `from` on that has the key is found, or there is none.
  abbrev pub FirstMatch : (ℕ → Bool) → ℕ → Result (Option Existing) → Type 0
  FirstMatch same from r =
      ((i : ℕ) × (i < chunk_entries)
        × IsCandidate i
        × (same i ≡ true)
        × NoneSame same from i
        × (r ≡ ok (some (record { table = t; sub_index = i; address = address_at i }))))
      ⊎ (NoneSame same from chunk_entries × (r ≡ ok none))

  apart : {b : Bool} → b ≡ false → b ≡ true → ⊥
  apart e e' = cc

  -- In front of the first candidate there is none.
  skipped :
      (same : ℕ → Bool) {from n i : ℕ}
      → IsFirst (bits_of t) (key_of t key) from n c i
      → NoneSame same from i
  skipped same first j lo hi cand = absurd (apart (first.before j lo hi) cand)

  around :
      (same : ℕ → Bool) (from i to : ℕ) {n : ℕ}
      → IsFirst (bits_of t) (key_of t key) from n c i
      → same i ≡ false
      → NoneSame same (i + 1) to
      → NoneSame same from to
  around same from i to first miss before j lo hi cand = elim (Bool-cases (ltb j i)) [
    | inl less ↦ skipped same first j lo (ground (arith, less)) cand
    | inr reached ↦ elim (Bool-cases (j == i)) [
      | inl here ↦ let e : j ≡ i = ground (arith, here) in rw e miss
      | inr past ↦ before j (ground (arith, reached, past)) hi cand
    ]
  ]

  -- A candidate that has another key
  later :
      (same : ℕ → Bool) (from i : ℕ) {n : ℕ} {r : Result (Option Existing)}
      → IsFirst (bits_of t) (key_of t key) from n c i
      → same i ≡ false
      → FirstMatch same (i + 1) r
      → FirstMatch same from r
  later same from i first miss (inl (k, room, cand, hit, before, e)) =
      inl (k, room, cand, hit, around same from i k first miss before, e)
  later same from i first miss (inr (before, e)) =
      inr (around same from i chunk_entries first miss before, e)

  search_loop-FirstMatch :
      (same : ℕ → Bool)
      → current_chunk t (chunk_of t key) w ≡ some c
      → Tells same
      → (tries from : ℕ) → from ≤ chunk_entries
      → chunk_entries - from < tries
      → FirstMatch same from (search_loop u fuel tries key t tables w (get t key from w))
  unfolding search_loop
  search_loop-FirstMatch same there tells zero from lo enough = absurd (omega arith)
  search_loop-FirstMatch same there tells (suc tries) from lo enough =
      let blank = is_empty-empty in
      rw (get-current_chunk t key from c w there)
        (elim (find_entry_cases (bits_of t) (index_from_partial key) from c lo) [
          | inl (i, first, found) ↦
              let room : i < chunk_entries = omega (arith, first.to, lo) in
              let used = holds_key-used (bits_of t) (key_of t key) (read_entry c i) first.holds in
              let (s, at, tested) =
                bind_ok (table_at (Address.size_tier (address_at i)) tables)
                  (λ (s : ValueTable).
                    has_key_at u fuel s (Address.offset (address_at i)) (partial key) w)
                  (tells i room first.holds) in
              rw (found, used, at, tested)
                (elim (Bool-cases (same i)) [
                  | inl hit ↦ rw hit (inl (i, room, first.holds, hit, skipped same first, refl))
                  | inr miss ↦ rw miss (
                      later same from i first miss (
                        search_loop-FirstMatch same there tells tries (i + 1) (omega arith)
                          (omega (arith, first.from))))
                ])
          | inr (nowhere, missing) ↦
              rw (missing, blank)
                (inr ((λ j lo' hi cand. absurd (apart (nowhere j lo' (omega arith)) cand)), refl))
        ])

  -- Of the entries of a chunk that have the bits of the key that an index keeps, `search_index` finds the first that has the
  -- key in its value table, with its place and its address, and it answers `None` only if no such entry has the key. The
  -- chunk of the key is there, and the value tables can be read at each of those entries; 65 tries are enough.
  pub search_index-FirstMatch :
      (same : ℕ → Bool)
      → current_chunk t (chunk_of t key) w ≡ some c
      → Tells same
      → FirstMatch same 0 (search_index u fuel 65 key t tables w)
  unfolding search_index
  search_index-FirstMatch same there tells =
      search_loop-FirstMatch same there tells 65 0 (omega arith) (omega arith)
