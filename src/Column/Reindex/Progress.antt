-- ===== src/Column/Reindex/Progress.antt =====
-- The batches of a reindex.
use mathlib.Core.List.{append_assoc, append-nil}
use blockchain_parity_db.Prelude.{
  ℕ, zero, suc, ◌+◌, ◌-◌, ◌≤◌, ◌<◌, ◌≡◌, refl, sym, ap, ap₂, ◌∙◌, inl, inr, Bool, true, false, not,
  Bool-cases, none, some, List, [], ◌∷◌, ◌++◌, length, map, ltb, ◌==◌, if◌then◌else◌, arith,
}
use blockchain_parity_db.Index.TableId
use blockchain_parity_db.Index.Address.{Address}
use blockchain_parity_db.Index.Entry
use blockchain_parity_db.Index.Entry.{Entry}
use blockchain_parity_db.Index.Table.{Key, IndexTable, entries, total_chunks}
use blockchain_parity_db.Log.Overlay.{LogOverlays, LogOverlays_query}
use blockchain_parity_db.Column.{HashColumn, max_reindex_batch}
use blockchain_parity_db.Column.Reindex.{
  recover_key_prefix, plan_entries, plan_chunks, reindex_from, reindex_queue, reindex,
}

abbrev pub keep_if {ℓ} : {A : Type ℓ} → (A → Bool) → List A → List A
keep_if p [] = []
keep_if p (x ∷ xs) = let rest = keep_if p xs in if p x then x ∷ rest else rest

-- An entry of all zeros is not in use.
abbrev pub in_use : Entry → Bool
in_use e = not (e == 0)

-- An entry of a chunk, as it goes to the new index: the part of the key that the place and the entry
-- tell, and the address
abbrev pub moved : IndexTable → ℕ → Entry → Key × Address
moved source chunk e =
    (recover_key_prefix source chunk e, Entry.address e (TableId.index_bits source.id))

-- The entries in use of `n` chunks, from a chunk on
abbrev pub entries_of : IndexTable → LogOverlays → ℕ → ℕ → List (Key × Address)
entries_of source log at zero = []
entries_of source log at (suc n) =
    map (moved source at) (keep_if in_use (entries source at log))
    ++ entries_of source log (at + 1) n

plan_entries-moved :
    (source : IndexTable) (chunk : ℕ) (es : List Entry)
    → plan_entries source chunk es ≡ map (moved source chunk) (keep_if in_use es)
unfolding plan_entries Entry.is_empty
plan_entries-moved source chunk [] = refl
plan_entries-moved source chunk (e ∷ es) = elim (Bool-cases (e == 0)) [
  | inl empty ↦ rw empty (plan_entries-moved source chunk es)
  | inr used ↦ rw used (ap (λ l. moved source chunk e ∷ l) (plan_entries-moved source chunk es))
]

-- A batch has the entries of the next chunks, at least of one if there is room for it.
plan_chunks-entries_of :
    (left : ℕ) (source : IndexTable) (log : LogOverlays) (at : ℕ) (plan : List (Key × Address))
    → (n : ℕ) × (n ≤ left)
      × (0 < left → length plan < max_reindex_batch → 0 < n)
      × (plan_chunks left source log at plan ≡ (at + n, plan ++ entries_of source log at n))
unfolding plan_chunks
plan_chunks-entries_of zero source log at plan = (
  0,
  omega arith,
  (λ h h'. omega (arith, h)),
  ap₂ (λ a b. (a, b)) (omega arith) (sym (append-nil plan)),
)
plan_chunks-entries_of (suc left) source log at plan =
    let here = plan_entries source at (entries source at log) in
    let (n, small, some_chunk, e) =
      plan_chunks-entries_of left source log (at + 1) (plan ++ here) in
    let moved_here = plan_entries-moved source at (entries source at log) in
    elim (Bool-cases (ltb (length plan) max_reindex_batch)) [
      | inl room ↦ (
        suc n,
        omega (arith, small),
        (λ h h'. omega arith),
        rw room (
            e
            ∙ ap₂ (λ a b. (a, b)) (omega arith)
                (append_assoc plan here (entries_of source log (at + 1) n)
                  ∙ ap (λ l. plan ++ (l ++ entries_of source log (at + 1) n)) moved_here)),
      )
      | inr full ↦ (
        0,
        omega arith,
        (λ h h'. absurd (not_full full h')),
        rw full (ap₂ (λ a b. (a, b)) (omega arith) (sym (append-nil plan))),
      )
    ]
  where
    not_full : ltb (length plan) max_reindex_batch ≡ false → length plan < max_reindex_batch → ⊥
    not_full f h = ground (arith, f, h)

-- While not all chunks of the oldest index are done, `reindex` goes on: its batch has, in order, exactly the
-- entries that are not zero of the next chunks, of one chunk at least, each as the part of the key that
-- `recover_key_prefix` tells and its address, and the progress is then behind these chunks; the index is given
-- up with the batch that reaches its last chunk, and not before.
pub reindex-progress :
    (c : HashColumn) (log : LogOverlays) (source : IndexTable) (queue : List IndexTable)
    → c.queue ≡ source ∷ queue
    → c.progress < total_chunks (TableId.index_bits source.id)
    → (n : ℕ) × (0 < n)
      × (c.progress + n ≤ total_chunks (TableId.index_bits source.id))
      × (reindex c log ≡ (
        record {
          drop_index_id =
              if c.progress + n == total_chunks (TableId.index_bits source.id)
              then some source.id
              else none;
          batch = entries_of source log c.progress n;
        },
        record c { progress = c.progress + n },
      ))
unfolding reindex reindex_queue reindex_from
reindex-progress c log source queue oldest more_left =
    let total = total_chunks (TableId.index_bits source.id) in
    let (n, small, some_chunk, e) =
      plan_chunks-entries_of (total - c.progress) source log c.progress [] in
    let unfinished : c.progress == total ≡ false = ground (arith, more_left) in
    (
      n,
      some_chunk (omega (arith, more_left)) (omega arith),
      omega (arith, small, more_left),
      rw (oldest, unfinished, e) refl,
    )

reindex-finished :
    (c : HashColumn) (log : LogOverlays) (source : IndexTable) (queue : List IndexTable)
    → c.queue ≡ source ∷ queue
    → c.progress == total_chunks (TableId.index_bits source.id) ≡ true
    → (reindex c log).1 ≡ c
unfolding reindex reindex_queue reindex_from
reindex-finished c log source queue oldest finished = rw (oldest, finished) refl

-- A number of batches, one after the other
unfoldable pub batches : ℕ → HashColumn → LogOverlays → HashColumn
batches zero c log = c
batches (suc k) c log = batches k ((reindex c log).1) log

-- The reindexing of an index ends: after as many batches as it has chunks left, or more, all its chunks are
-- done.
pub batches-progress :
    (k : ℕ) (c : HashColumn) (log : LogOverlays) (source : IndexTable) (queue : List IndexTable)
    → c.queue ≡ source ∷ queue
    → c.progress ≤ total_chunks (TableId.index_bits source.id)
    → total_chunks (TableId.index_bits source.id) ≤ c.progress + k
    → (batches k c log).progress ≡ total_chunks (TableId.index_bits source.id)
unfolding batches
batches-progress zero c log source queue oldest small enough = omega (arith, small, enough)
batches-progress (suc k) c log source queue oldest small enough =
    let total = total_chunks (TableId.index_bits source.id) in
    elim (Bool-cases (c.progress == total)) [
      | inl finished ↦
          let same = reindex-finished c log source queue oldest finished in
          ap (λ x. (batches k x log).progress) same
          ∙ (batches-progress k c log source queue oldest small (ground (arith, finished)))
      | inr unfinished ↦
          let (n, some_chunk, below, e) =
            reindex-progress c log source queue oldest (ground (arith, unfinished, small)) in
          let next : (reindex c log).1 ≡ record c { progress = c.progress + n } = ap (λ x. x.1) e in
          ap (λ x. (batches k x log).progress) next
          ∙ (batches-progress k (record c { progress = c.progress + n }) log source queue oldest
              below (omega (arith, some_chunk, enough)))
    ]
