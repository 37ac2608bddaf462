-- ===== src/Db/Commit.antt =====
-- src/db.rs and src/btree/mod.rs: a commit is queued, and its changes are put over the columns for the
-- readers until the log has them. The sets of changes of hash columns and of B-tree columns, and the two
-- maps of an overlay, are told apart by a `Kind`. A commit that waits for a full queue runs when it is woken.
pub mod Process
pub mod Changed
pub mod Overlay
pub mod Queue
pub mod Processed
pub mod Reads
use blockchain_parity_db.Prelude.{
  ℕ, ◌+◌, ◌%◌, ◌^◌, Bool, true, false, not, ◌||◌, Option, none, some, List, [], ◌∷◌, ◌++◌,
  replicate, length, get_elem?, set, if◌then◌else◌,
}
use blockchain_parity_db.Bytes.{Bytes}
use blockchain_parity_db.Outcome.{Error, Result, ok, err, panic, ◌>>=◌}
use blockchain_parity_db.HashMap
use blockchain_parity_db.HashMap.{HashMap}
use blockchain_parity_db.KeyMap
use blockchain_parity_db.KeyMap.{KeyMap}
use blockchain_parity_db.Column.{hash_key}

pub data Kind : Type 0 where
  hash tree : Kind

-- The options of a column, as far as they are used here
pub record ColumnOptions : Type 0 where
  pub uniform : Bool
  pub ref_counted : Bool
  pub btree_index : Bool

pub record Options : Type 0 where
  pub columns : List ColumnOptions
  pub salt : Option Bytes

-- `IndexedChangeSet`, `BTreeChangeSet`: a change without a value is a removal.
pub record ChangeSet : Type 0 where
  pub col : ℕ
  pub changes : List (Bytes × Option Bytes)

pub record CommitChangeSet : Type 0 where
  pub indexed : HashMap ChangeSet
  pub btree_indexed : HashMap ChangeSet

pub record Commit : Type 0 where
  pub id : ℕ
  pub bytes : ℕ
  pub changeset : CommitChangeSet

pub record CommitQueue : Type 0 where
  pub record_id : ℕ
  pub bytes : ℕ
  pub commits : List Commit

-- `IndexedCommitOverlay`, `BTreeCommitOverlay`: the commit's id, and its change
abbrev pub Queued : Type 0
Queued = KeyMap (ℕ × Option Bytes)

pub record CommitOverlay : Type 0 where
  pub indexed : Queued
  pub btree_indexed : Queued

abbrev pub side : Kind → CommitOverlay → Queued
side hash o = o.indexed
side tree o = o.btree_indexed

abbrev pub set_side : Kind → Queued → CommitOverlay → CommitOverlay
set_side hash m o = record o { indexed = m }
set_side tree m o = record o { btree_indexed = m }

abbrev pub sets : Kind → CommitChangeSet → HashMap ChangeSet
sets hash cs = cs.indexed
sets tree cs = cs.btree_indexed

-- `options.columns[col]`
abbrev pub at_column {ℓ} : {A : Type ℓ} → Option A → Result A
at_column none = panic
at_column (some a) = ok a

-- `&mut overlay[c]`, and the map of a kind in it
unfoldable pub update_side :
    Kind → ℕ → (Queued → Queued) → List CommitOverlay → Result (List CommitOverlay)
update_side kind c f os = do
  o ← at_column (get_elem? os c)
  ok (set os c (set_side kind (f (side kind o)) o))

abbrev pub is_some {ℓ} : {A : Type ℓ} → Option A → Bool
is_some none = false
is_some (some a) = true

-- `v.as_ref().map_or(0, |v| v.len())`
abbrev pub value_bytes : Option Bytes → ℕ
value_bytes none = 0
value_bytes (some v) = length v

-- The loop of `copy_to_overlay`: removed values of a reference-counted column are left out.
unfoldable pub copy_changes : Bool → ℕ → List (Bytes × Option Bytes) → Queued → Queued
copy_changes ref_counted id [] m = m
copy_changes ref_counted id ((k, v) ∷ changes) m =
    copy_changes ref_counted id changes
      (if not ref_counted || is_some v then KeyMap.insert k (id, v) m else m)

-- What that loop adds to `bytes`
unfoldable pub changes_bytes : List (Bytes × Option Bytes) → ℕ → ℕ
changes_bytes [] bytes = bytes
changes_bytes ((k, v) ∷ changes) bytes =
    changes_bytes changes ((bytes + length k + value_bytes v) % 2 ^ 64)

-- A loop of `commit_raw` over the sets of one kind
unfoldable pub copy_sets :
    Options → Kind → ℕ → HashMap ChangeSet → List CommitOverlay → Result (List CommitOverlay)
copy_sets options kind id [] os = ok os
copy_sets options kind id ((c, s) ∷ more) os = do
  column ← at_column (get_elem? options.columns s.col)
  os' ← update_side kind c (copy_changes column.ref_counted id s.changes) os
  copy_sets options kind id more os'

unfoldable pub sets_bytes : HashMap ChangeSet → ℕ → ℕ
sets_bytes [] bytes = bytes
sets_bytes ((c, s) ∷ more) bytes = sets_bytes more (changes_bytes s.changes bytes)

-- `Column`: of a hash column, what its keys are hashed with
pub data Column : Type 0 where
  hash_column : Bytes → Bool → Column
  tree_column : Column

-- Of `DbInner`, what the functions below use. `S` is the columns with the log.
pub record DbInner (S : Type 0) : Type 0 where
  pub columns : List Column
  pub options : Options
  pub db_version : ℕ
  pub queue : CommitQueue
  pub overlays : List CommitOverlay
  pub bg_err : Option Error
  pub store : S
  pub logged_bytes : ℕ
  pub next_reindex : ℕ

abbrev pub check_bg_err {ℓ} : {A : Type ℓ} → Option Error → Result A → Result A
check_bg_err (some e) rest = err (Error.background e)
check_bg_err none rest = rest

module _ {S : Type 0} where
  -- The queue gets the commit.
  abbrev pub queued : ℕ → CommitChangeSet → List CommitOverlay → DbInner S → DbInner S
  queued record_id changeset os d =
      let bytes : ℕ = sets_bytes changeset.btree_indexed (sets_bytes changeset.indexed 0) in
      let commit : Commit = record { id = record_id; bytes = bytes; changeset = changeset } in
      record d {
        queue = record {
          record_id = (d.queue.record_id + 1) % 2 ^ 64;
          bytes = (d.queue.bytes + bytes) % 2 ^ 64;
          commits = d.queue.commits ++ commit ∷ [];
        };
        overlays = os;
      }

  unfoldable pub enqueue : ℕ → CommitChangeSet → DbInner S → Result (DbInner S)
  enqueue record_id changeset d = do
    os ← copy_sets d.options hash record_id changeset.indexed d.overlays
    os' ← copy_sets d.options tree record_id changeset.btree_indexed os
    ok (queued record_id changeset os' d)

  unfoldable pub commit_raw : CommitChangeSet → DbInner S → Result (DbInner S)
  commit_raw changeset d =
      check_bg_err d.bg_err (enqueue ((d.queue.record_id + 2) % 2 ^ 64) changeset d)

-- `BTreeChangeSet::push`, and the end of `IndexedChangeSet::push`
abbrev pub push_change : Bytes → Option Bytes → ChangeSet → ChangeSet
push_change k v s = record s { changes = s.changes ++ (k, v) ∷ [] }

-- `new`
abbrev pub new_set : ℕ → ChangeSet
new_set col = record { col = col; changes = [] }

module _ (blake2b : Bytes → Bytes → Bytes) where
  -- `IndexedChangeSet::push`
  unfoldable pub push : Options → ℕ → Bytes → Option Bytes → ChangeSet → Result ChangeSet
  push options db_version key v s = do
    column ← at_column (get_elem? options.columns s.col)
    k ←
        hash_key blake2b key (HashMap.or_value (replicate 32 0) options.salt) column.uniform
          db_version
    ok (push_change k v s)

  -- The body of the loop of `commit`
  unfoldable pub add_change :
      Options → ℕ → ℕ × Bytes × Option Bytes → CommitChangeSet → Result CommitChangeSet
  add_change options db_version (c, k, v) cs = do
    column ← at_column (get_elem? options.columns c)
    if column.btree_index
        then ok (record cs {
          btree_indexed =
              HashMap.insert c
                (push_change k v (HashMap.get_or_default (new_set c) c cs.btree_indexed))
                cs.btree_indexed;
        })
        else do
          s ← push options db_version k v (HashMap.get_or_default (new_set c) c cs.indexed)
          ok (record cs { indexed = HashMap.insert c s cs.indexed })

  unfoldable pub add_changes :
      Options → ℕ → List (ℕ × Bytes × Option Bytes) → CommitChangeSet → Result CommitChangeSet
  add_changes options db_version [] cs = ok cs
  add_changes options db_version (change ∷ tx) cs = do
    cs' ← add_change options db_version change cs
    add_changes options db_version tx cs'

  -- `commit`
  unfoldable pub commit :
      {S : Type 0} → List (ℕ × Bytes × Option Bytes) → DbInner S → Result (DbInner S)
  commit tx d = do
    cs ← add_changes d.options d.db_version tx (record { indexed = []; btree_indexed = [] })
    commit_raw cs d
