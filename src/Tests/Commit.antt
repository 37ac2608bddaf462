-- ===== src/Tests/Commit.antt =====
-- A database with a hash column and a B-tree column over a store that keeps its values in functions, and
-- a run of two commits of which one is processed.
use blockchain_parity_db.Prelude.{
  ℕ, zero, suc, ◌+◌, ◌^◌, ◌<◌, ◌≡◌, refl, Bool, true, false, ◌&&◌, Option, none, some, List, [],
  ◌∷◌, ◌++◌, arith, ◌==◌, if◌then◌else◌,
}
use blockchain_parity_db.Bytes.{Bytes}
use blockchain_parity_db.Outcome.{Result, ok}
use blockchain_parity_db.KeyMap
use blockchain_parity_db.Db.Commit.{
  Kind, hash, tree, CommitChangeSet, Commit, CommitOverlay, hash_column, tree_column, DbInner,
  commit_raw, enqueue, copy_sets, copy_changes, update_side, sets_bytes, changes_bytes,
}
use blockchain_parity_db.Db.Commit.Process.{
  Store, or_read, read, query, get_ref, process_commits, process_next, process_commit, write_record,
  write_sets, write_set, write_changes, write_tree_sets, write_tree_set, clean_sets, clean_changes,
  clean_key,
}
use blockchain_parity_db.Db.Commit.Changed.{last_change, change_of, pending}
use blockchain_parity_db.Db.Commit.Queue.{IsQueued}
use blockchain_parity_db.Db.Commit.Reads.{changed, changesets, write_all}
use blockchain_parity_db.Db.Commit.Reads.Run.{
  Run, start, committed, worked, Run-write_all, query-commit_raw, Run-IsQueued,
}

abbrev Values : Type 0
Values = Kind → ℕ → Bytes → Option Bytes

-- The values that queries read, and those with the record that is being written
record Shelf : Type 0 where
  published : Values
  unfinished : Values

abbrev same_kind : Kind → Kind → Bool
same_kind hash hash = true
same_kind tree tree = true
same_kind hash tree = false
same_kind tree hash = false

abbrev or_kept : Option (Option Bytes) → Option Bytes → Option Bytes
or_kept none kept = kept
or_kept (some v) kept = v

abbrev put : Kind → ℕ → List (Bytes × Option Bytes) → Shelf → Shelf
put kind c changes s = record s {
  unfinished = λ kind' c' k.
      if same_kind kind kind' && c == c'
      then or_kept (last_change false k changes) (s.unfinished kind' c' k)
      else s.unfinished kind' c' k;
}

abbrev shelf : Store Shelf
shelf = record {
  get_hashed = λ c k s. ok (s.published hash c k);
  get_hashed_size = λ c k s. ok none;
  get_tree = λ c k s. ok (s.published tree c k);
  begin_record = λ s. record s { unfinished = s.published };
  write_plan = λ c k v s. ok (false, put hash c ((k, v) ∷ []) s);
  write_tree_plan = λ c changes s. ok (put tree c changes s);
  complete_plan = λ s. ok s;
  end_record = λ s. ok ((1, 0), record s { published = s.unfinished });
}

abbrev empty_overlay : CommitOverlay
empty_overlay = record { indexed = []; btree_indexed = [] }

-- Column 0 keeps keys by their hashes, and column 1 in a B-tree.
abbrev fresh : DbInner Shelf
fresh = record {
  columns = hash_column [] true ∷ tree_column ∷ [];
  options = record {
    columns =
        record { uniform = true; ref_counted = false; btree_index = false }
        ∷ record { uniform = false; ref_counted = false; btree_index = true }
        ∷ [];
    salt = none;
  };
  db_version = 5;
  queue = record { record_id = 0; bytes = 0; commits = [] };
  overlays = empty_overlay ∷ empty_overlay ∷ [];
  bg_err = none;
  store = record { published = λ kind c k. none; unfinished = λ kind c k. none };
  logged_bytes = 0;
  next_reindex = 0;
}

abbrev k₁ : Bytes
k₁ = 7 ∷ 1 ∷ []

abbrev first_sets : CommitChangeSet
first_sets = record {
  indexed =
      (0, record { col = 0; changes = (k₁, some (5 ∷ [])) ∷ (9 ∷ [], some (6 ∷ [])) ∷ [] }) ∷ [];
  btree_indexed = (1, record { col = 1; changes = (k₁, some (4 ∷ [])) ∷ [] }) ∷ [];
}

abbrev second_sets : CommitChangeSet
second_sets = record {
  indexed = (0, record { col = 0; changes = (k₁, none) ∷ [] }) ∷ [];
  btree_indexed = [];
}

fresh_none :
    (kind : Kind) (c : ℕ) (k : Bytes)
    → get_ref kind c k fresh.overlays ≡ pending fresh.options kind c k []
unfolding get_ref pending KeyMap.get
fresh_none hash zero k = refl
fresh_none hash (suc zero) k = refl
fresh_none hash (suc (suc c)) k = refl
fresh_none tree zero k = refl
fresh_none tree (suc zero) k = refl
fresh_none tree (suc (suc c)) k = refl

fresh-IsQueued : IsQueued fresh
fresh-IsQueued = record { agrees = fresh_none; ordered = omega arith }

abbrev db_of : Result (DbInner Shelf) → DbInner Shelf
db_of (ok d) = d
db_of r = fresh

abbrev db_after : Result (Bool × DbInner Shelf) → DbInner Shelf
db_after (ok (more, d)) = d
db_after r = fresh

-- One commit, then another that removes a key of the first, and then the first is processed.
abbrev one_queued : DbInner Shelf
one_queued = db_of (commit_raw first_sets fresh)

abbrev two_queued : DbInner Shelf
two_queued = db_of (commit_raw second_sets one_queued)

abbrev one_done : DbInner Shelf
one_done = db_after (process_commits shelf two_queued)

commits_first : commit_raw first_sets fresh ≡ ok one_queued
unfolding commit_raw enqueue copy_sets copy_changes update_side sets_bytes changes_bytes
    KeyMap.insert
commits_first = refl

commits_second : commit_raw second_sets one_queued ≡ ok two_queued
unfolding commit_raw enqueue copy_sets copy_changes update_side sets_bytes changes_bytes
    KeyMap.insert
commits_second = refl

processes_first : process_commits shelf two_queued ≡ ok (true, one_done)
unfolding commit_raw enqueue copy_sets copy_changes update_side sets_bytes changes_bytes
    process_commits process_next process_commit write_record write_sets write_set write_changes
    write_tree_sets write_tree_set clean_sets clean_changes clean_key KeyMap.get KeyMap.insert
    KeyMap.remove
processes_first = refl

few_ids : one_queued.queue.record_id + 2 < 2 ^ 64
unfolding commit_raw enqueue copy_sets copy_changes update_side sets_bytes changes_bytes
    KeyMap.insert
few_ids = omega arith

two_commits : Run shelf fresh (second_sets ∷ first_sets ∷ []) one_done
two_commits =
    worked
      (committed (committed start first_sets one_queued (omega arith) commits_first) second_sets
        two_queued few_ids commits_second)
      true one_done processes_first

Run-write_all_example :
    (done : List Commit) × (first_sets ∷ second_sets ∷ []
      ≡ changesets done ++ changesets one_done.queue.commits)
    × (write_all shelf fresh.columns done fresh.store ≡ ok one_done.store)
    × ((kind : Kind) (c : ℕ) (k : Bytes)
        → query shelf kind c k one_done
          ≡ or_read
              (λ (v : Option Bytes). v)
              (pending fresh.options kind c k one_done.queue.commits)
              (read shelf kind c k one_done.store))
Run-write_all_example = Run-write_all shelf fresh two_commits fresh-IsQueued

query-commit_raw_example :
    query shelf tree 1 k₁ one_queued
    ≡ changed (change_of fresh.options tree 1 k₁ first_sets) (query shelf tree 1 k₁ fresh)
query-commit_raw_example =
    query-commit_raw shelf tree 1 k₁ first_sets fresh one_queued commits_first

Run-IsQueued_example : IsQueued one_done
Run-IsQueued_example = Run-IsQueued shelf fresh two_commits fresh-IsQueued
