-- ===== src/Db/Commit/Process.antt =====
-- src/db.rs: `process_commits`, which writes the oldest commit to the log and takes its changes out of
-- the overlay, and the queries, which read the overlay first. The columns and the log are an interface.
-- An error ends a call; what it has changed by then is not part of the outcome.
use blockchain_parity_db.Prelude.{
  ℕ, ◌+◌, ◌-◌, ◌%◌, ◌^◌, Bool, true, false, ◌||◌, Option, none, some, List, [], ◌∷◌, length,
  get_elem?, ◌==◌, if◌then◌else◌,
}
use mathlib.Core.Option
use blockchain_parity_db.Bytes.{Bytes}
use blockchain_parity_db.Outcome.{Error, Result, ok, err, ◌>>=◌}
use blockchain_parity_db.HashMap.{HashMap}
use blockchain_parity_db.KeyMap
use blockchain_parity_db.Column.{hash_key}
use blockchain_parity_db.Db.Commit.{
  Kind, hash, tree, ChangeSet, Commit, CommitOverlay, Queued, Column, hash_column, tree_column,
  DbInner, side, at_column, update_side,
}

-- What `Column` and `Log` offer. The Boolean of `write_plan` tells whether the index has to grow;
-- `end_record` gives the record's id and its bytes.
pub record Store (S : Type 0) : Type 0 where
  pub get_hashed : ℕ → Bytes → S → Result (Option Bytes)
  pub get_hashed_size : ℕ → Bytes → S → Result (Option ℕ)
  pub get_tree : ℕ → Bytes → S → Result (Option Bytes)
  pub begin_record : S → S
  pub write_plan : ℕ → Bytes → Option Bytes → S → Result (Bool × S)
  pub write_tree_plan : ℕ → List (Bytes × Option Bytes) → S → Result S
  pub complete_plan : S → Result S
  pub end_record : S → Result ((ℕ × ℕ) × S)

-- A look at one entry of `clean_overlay`: it goes if it is of the commit with the given id.
unfoldable pub clean_key : ℕ → Bytes → Queued → Queued
clean_key id k m = elim (KeyMap.get k m) [
  | none ↦ m
  | some (i, v) ↦ if i == id then KeyMap.remove k m else m
]

-- The loop of `clean_overlay`
unfoldable pub clean_changes : ℕ → List (Bytes × Option Bytes) → Queued → Queued
clean_changes id [] m = m
clean_changes id ((k, v) ∷ changes) m = clean_changes id changes (clean_key id k m)

-- The loop of `process_commits` over the sets of one kind that cleans the overlay
unfoldable pub clean_sets :
    Kind → ℕ → HashMap ChangeSet → List CommitOverlay → Result (List CommitOverlay)
clean_sets kind id [] os = ok os
clean_sets kind id ((c, s) ∷ more) os = do
  os' ← update_side kind c (clean_changes id s.changes) os
  clean_sets kind id more os'

abbrev pub ref_in : Kind → Bytes → Option CommitOverlay → Option (ℕ × Option Bytes)
ref_in kind k none = none
ref_in kind k (some o) = KeyMap.get k (side kind o)

-- `overlay.get(col).and_then(|o| o.get_ref(key))`, and `btree_get` for the other kind. The commit's id is
-- kept.
unfoldable pub get_ref : Kind → ℕ → Bytes → List CommitOverlay → Option (ℕ × Option Bytes)
get_ref kind c k os = ref_in kind k (get_elem? os c)

-- `o.get(key)`, or what the columns have
abbrev pub or_read {ℓ} :
    {A : Type ℓ} → (Option Bytes → A) → Option (ℕ × Option Bytes) → Result A → Result A
or_read f (some (id, v)) rest = ok (f v)
or_read f none rest = rest

-- `v.len() as u32`
abbrev pub size_of : Option Bytes → Option ℕ
size_of v = Option.map (λ (bytes : Bytes). length bytes % 2 ^ 32) v

module _ {S : Type 0} (store : Store S) where
  -- `IndexedChangeSet::write_plan`
  unfoldable pub write_changes : ℕ → List (Bytes × Option Bytes) → Bool × S → Result (Bool × S)
  write_changes c [] (reindex, s) = ok (reindex, s)
  write_changes c ((k, v) ∷ changes) (reindex, s) = do
    (needs, s') ← store.write_plan c k v s
    write_changes c changes (reindex || needs, s')

  -- A set for hash columns that names a B-tree column is skipped.
  unfoldable pub write_set : Column → ℕ → ChangeSet → Bool × S → Result (Bool × S)
  write_set (hash_column salt uniform) c set s = write_changes c set.changes s
  write_set tree_column c set s = ok s

  unfoldable pub write_sets : List Column → HashMap ChangeSet → Bool × S → Result (Bool × S)
  write_sets columns [] s = ok s
  write_sets columns ((c, set) ∷ more) s = do
    column ← at_column (get_elem? columns c)
    s' ← write_set column c set s
    write_sets columns more s'

  unfoldable pub write_tree_set : Column → ℕ → ChangeSet → S → Result S
  write_tree_set (hash_column salt uniform) c set s =
      err (Error.invalid_configuration "Not an indexed column.")
  write_tree_set tree_column c set s = store.write_tree_plan c set.changes s

  unfoldable pub write_tree_sets : List Column → HashMap ChangeSet → S → Result S
  write_tree_sets columns [] s = ok s
  write_tree_sets columns ((c, set) ∷ more) s = do
    column ← at_column (get_elem? columns c)
    s' ← write_tree_set column c set s
    write_tree_sets columns more s'

  -- The record of a commit, from `begin_record` to `end_record`, with the record's id and its bytes
  unfoldable pub write_record : List Column → Commit → S → Result ((Bool × ℕ × ℕ) × S)
  write_record columns commit s = do
    (reindex, s₁) ← write_sets columns commit.changeset.indexed (false, store.begin_record s)
    s₂ ← write_tree_sets columns commit.changeset.btree_indexed s₁
    s₃ ← store.complete_plan s₂
    ((record_id, bytes), s₄) ← store.end_record s₃
    ok ((reindex, record_id, bytes), s₄)

  -- What the database is when the record of a commit is written
  abbrev pub processed :
      Commit → List Commit → (Bool × ℕ × ℕ) × S → List CommitOverlay → DbInner S → DbInner S
  processed commit rest ((reindex, record_id, bytes), s) os d = record d {
    queue = record {
      record_id = d.queue.record_id;
      bytes = (d.queue.bytes + 2 ^ 64 - commit.bytes) % 2 ^ 64;
      commits = rest;
    };
    overlays = os;
    store = s;
    logged_bytes = d.logged_bytes + bytes;
    next_reindex = if reindex then record_id else d.next_reindex;
  }

  -- What follows when the commit is off the queue
  unfoldable pub process_commit : Commit → List Commit → DbInner S → Result (Bool × DbInner S)
  process_commit commit rest d = do
    written ← write_record d.columns commit d.store
    os ← clean_sets hash commit.id commit.changeset.indexed d.overlays
    os' ← clean_sets tree commit.id commit.changeset.btree_indexed os
    ok (true, processed commit rest written os' d)

  -- `queue.commits.pop_front()`
  unfoldable pub process_next : List Commit → DbInner S → Result (Bool × DbInner S)
  process_next [] d = ok (false, d)
  process_next (commit ∷ rest) d = process_commit commit rest d

  unfoldable pub process_commits : DbInner S → Result (Bool × DbInner S)
  process_commits d = process_next d.queue.commits d

  -- The query of the columns and the log overlay
  abbrev pub read : Kind → ℕ → Bytes → S → Result (Option Bytes)
  read hash = store.get_hashed
  read tree = store.get_tree

  -- `get` behind the hash of the key
  unfoldable pub query : Kind → ℕ → Bytes → DbInner S → Result (Option Bytes)
  query kind c k d =
      or_read (λ (v : Option Bytes). v) (get_ref kind c k d.overlays) (read kind c k d.store)

  module _ (blake2b : Bytes → Bytes → Bytes) where
    unfoldable pub get_in : Column → ℕ → Bytes → DbInner S → Result (Option Bytes)
    get_in (hash_column salt uniform) c key d = do
      k ← hash_key blake2b key salt uniform d.db_version
      query hash c k d
    get_in tree_column c key d = query tree c key d

    -- `get`
    unfoldable pub get : ℕ → Bytes → DbInner S → Result (Option Bytes)
    get c key d = do column ← at_column (get_elem? d.columns c); get_in column c key d

    unfoldable pub get_size_in : Column → ℕ → Bytes → DbInner S → Result (Option ℕ)
    get_size_in (hash_column salt uniform) c key d = do
      k ← hash_key blake2b key salt uniform d.db_version
      or_read size_of (get_ref hash c k d.overlays) (store.get_hashed_size c k d.store)
    get_size_in tree_column c key d =
        or_read size_of (get_ref tree c key d.overlays)
          do v ← store.get_tree c key d.store; ok (size_of v)

    -- `get_size`
    unfoldable pub get_size : ℕ → Bytes → DbInner S → Result (Option ℕ)
    get_size c key d = do column ← at_column (get_elem? d.columns c); get_size_in column c key d
