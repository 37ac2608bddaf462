-- ===== src/Db/Commit/Reads/Run.antt =====
-- Runs of commits and of their processing, in any order: the commits that are written and those that wait,
-- and what the queries read over them.
use mathlib.Core.Path.{subst}
use blockchain_parity_db.Prelude.{
  ℕ, ◌+◌, ◌^◌, ◌%◌, ◌<◌, ◌≡◌, refl, sym, ap, ◌∙◌, Bool, Option, none, some, List, [], ◌∷◌, ◌++◌,
}
use blockchain_parity_db.Bytes.{Bytes}
use blockchain_parity_db.Outcome.{Result, ok}
use blockchain_parity_db.HashMap.{or_else}
use blockchain_parity_db.Db.Commit.{
  Kind, CommitChangeSet, Commit, Options, DbInner, queued, commit_raw,
}
use blockchain_parity_db.Db.Commit.Process.{
  Store, or_read, read, get_ref, query, write_record, process_next, process_commits,
}
use blockchain_parity_db.Db.Commit.Changed.{change_of, tagged, pending}
use blockchain_parity_db.Db.Commit.Queue.{
  IsQueued, found_copies, get_ref-copy, commit_raw-eq-enqueue, commit_raw-IsQueued,
}
use blockchain_parity_db.Db.Commit.Processed.{found_processed, process_commits-IsQueued}
use blockchain_parity_db.Db.Commit.Reads.{
  changed, changesets, changesets-append, oldest_first, write_all, write_all-append,
}
use mathlib.Core.List.{append_assoc, append-nil}

abbrev found : Option Bytes → Option Bytes
found v = v

-- A change in the overlay is read before what was there.
or_read-tagged :
    (id : ℕ) (change : Option (Option Bytes)) (o : Option (ℕ × Option Bytes))
    (r : Result (Option Bytes))
    → or_read found (or_else (tagged id change) o) r ≡ changed change (or_read found o r)
or_read-tagged id none o r = refl
or_read-tagged id (some v) o r = refl

module _ {S : Type 0} (store : Store S) (kind : Kind) (c : ℕ) (k : Bytes) where
  -- After a commit that has returned no error, a query of any key reads the last kept change that the
  -- commit makes to the key, and what it read before where the commit makes none, whatever the columns and
  -- the queue hold. Removals in a column that counts references are not kept.
  pub query-commit_raw :
      (cs : CommitChangeSet) (d d' : DbInner S)
      → commit_raw cs d ≡ ok d'
      → query store kind c k d' ≡ changed (change_of d.options kind c k cs) (query store kind c k d)
  unfolding query
  query-commit_raw cs d d' e =
      let id = (d.queue.record_id + 2) % 2 ^ 64 in
      let (os₁, os₂, e₁, e₂, same) = found_copies id cs d d' (commit_raw-eq-enqueue cs d e) in
      ap
        (λ (x : DbInner S).
          or_read found (get_ref kind c k x.overlays) (read store kind c k x.store))
        same
      ∙ ap (λ o. or_read found o (read store kind c k d.store))
          (get_ref-copy d.options id cs d.overlays os₁ os₂ e₁ e₂ kind c k)
      ∙ or_read-tagged id (change_of d.options kind c k cs) (get_ref kind c k d.overlays)
          (read store kind c k d.store)

-- A run from a database, with the sets of changes that it has committed, the newest first
pub data Run {S : Type 0} (store : Store S) (d₀ : DbInner S)
    : List CommitChangeSet → DbInner S → Type 0 where
  start : Run store d₀ [] d₀
  committed :
      {trace : List CommitChangeSet} {d : DbInner S}
      → Run store d₀ trace d
      → (cs : CommitChangeSet) (d' : DbInner S) → d.queue.record_id + 2 < 2 ^ 64
      → commit_raw cs d ≡ ok d'
      → Run store d₀ (cs ∷ trace) d'
  worked :
      {trace : List CommitChangeSet} {d : DbInner S}
      → Run store d₀ trace d
      → (more : Bool) (d' : DbInner S) → process_commits store d ≡ ok (more, d')
      → Run store d₀ trace d'

-- What holds all along a run, `done` being the commits that are written
record IsServed {S : Type 0} (store : Store S) (d₀ : DbInner S) (trace : List CommitChangeSet)
    (d : DbInner S) : Type 0 where
  in_step : IsQueued d
  same_options : d.options ≡ d₀.options
  same_columns : d.columns ≡ d₀.columns
  done : List Commit
  all_there :
      changesets d₀.queue.commits ++ oldest_first trace ≡ changesets (done ++ d.queue.commits)
  written : write_all store d₀.columns done d₀.store ≡ ok d.store

module _ {S : Type 0} (store : Store S) where
  commit_raw-IsServed :
      (cs : CommitChangeSet) (d₀ d d' : DbInner S) (trace : List CommitChangeSet)
      → commit_raw cs d ≡ ok d'
      → d.queue.record_id + 2 < 2 ^ 64
      → IsServed store d₀ trace d
      → IsServed store d₀ (cs ∷ trace) d'
  commit_raw-IsServed cs d₀ d d' trace e room h =
      let id = (d.queue.record_id + 2) % 2 ^ 64 in
      let (os₁, os₂, e₁, e₂, same) = found_copies id cs d d' (commit_raw-eq-enqueue cs d e) in
      let at_end = changesets-append (h.done ++ d.queue.commits) (_ ∷ []) in
      let there : changesets d₀.queue.commits ++ (oldest_first trace ++ cs ∷ [])
          ≡ changesets (h.done ++ (queued id cs os₂ d).queue.commits) =
        sym (append_assoc (changesets d₀.queue.commits) (oldest_first trace) (cs ∷ []))
        ∙ ap (λ l. l ++ cs ∷ []) h.all_there
        ∙ sym at_end
        ∙ ap changesets (append_assoc h.done d.queue.commits _) in
      record {
        in_step = commit_raw-IsQueued cs d d' e room h.in_step;
        same_options = ap (λ (x : DbInner S). x.options) same ∙ h.same_options;
        same_columns = ap (λ (x : DbInner S). x.columns) same ∙ h.same_columns;
        done = h.done;
        all_there =
            there ∙ ap (λ (x : DbInner S). changesets (h.done ++ x.queue.commits)) (sym same);
        written = h.written ∙ ap (λ (x : DbInner S). ok x.store) (sym same);
      }

  process_next-IsServed :
      (commits : List Commit) (d₀ d : DbInner S) (trace : List CommitChangeSet)
      (out : Bool × DbInner S)
      → d.queue.commits ≡ commits
      → process_next store commits d ≡ ok out
      → IsQueued out.1
      → IsServed store d₀ trace d
      → IsServed store d₀ trace out.1
  unfolding process_next
  process_next-IsServed [] d₀ d trace out front e q h =
      let same : out.1 ≡ d = cc in subst (λ (x : DbInner S). IsServed store d₀ trace x) (sym same) h
  process_next-IsServed (x ∷ rest) d₀ d trace out front e q h =
      let (w, os₁, os₂, e₀, e₁, e₂, same) = found_processed store x rest d out e in
      let here : write_record store d₀.columns x d.store ≡ ok w =
        ap (λ columns. write_record store columns x d.store) (sym h.same_columns) ∙ e₀ in
      record {
        in_step = q;
        same_options = ap (λ (y : DbInner S). y.options) same ∙ h.same_options;
        same_columns = ap (λ (y : DbInner S). y.columns) same ∙ h.same_columns;
        done = h.done ++ x ∷ [];
        all_there =
            h.all_there
            ∙ ap (λ l. changesets (h.done ++ l)) front
            ∙ ap changesets (sym (append_assoc h.done (x ∷ []) rest))
            ∙ ap (λ (y : DbInner S). changesets ((h.done ++ x ∷ []) ++ y.queue.commits)) (sym same);
        written =
            write_all-append store d₀.columns h.done x d₀.store d.store w h.written here
            ∙ ap (λ (y : DbInner S). ok y.store) (sym same);
      }

  process_commits-IsServed :
      (d₀ d : DbInner S) (trace : List CommitChangeSet) (out : Bool × DbInner S)
      → process_commits store d ≡ ok out
      → IsServed store d₀ trace d
      → IsServed store d₀ trace out.1
  unfolding process_commits
  process_commits-IsServed d₀ d trace out e h =
      process_next-IsServed d.queue.commits d₀ d trace out refl e
        (process_commits-IsQueued store d out e h.in_step) h

  Run-IsServed :
      (d₀ : DbInner S) {trace : List CommitChangeSet} {d : DbInner S}
      → Run store d₀ trace d
      → IsQueued d₀
      → IsServed store d₀ trace d
  Run-IsServed d₀ start q = record {
    in_step = q;
    same_options = refl;
    same_columns = refl;
    done = [];
    all_there = append-nil (changesets d₀.queue.commits);
    written = refl;
  }
  Run-IsServed d₀ (committed {trace = trace} {d = d} run cs d' room e) q =
      commit_raw-IsServed cs d₀ d d' trace e room (Run-IsServed d₀ run q)
  Run-IsServed d₀ (worked {trace = trace} {d = d} run more d' e) q =
      process_commits-IsServed d₀ d trace (more, d') e (Run-IsServed d₀ run q)

  -- All along a run of commits and of calls of `process_commits`, in any order, the overlay holds for every
  -- key the newest kept change of the queue, with its commit's id, and nothing for the others, and the ids in
  -- the queue grow. The overlay agrees with the queue at the start, and the ids of the commits stay below
  -- 2^64.
  pub Run-IsQueued :
      (d₀ : DbInner S) {trace : List CommitChangeSet} {d : DbInner S}
      → Run store d₀ trace d
      → IsQueued d₀
      → IsQueued d
  Run-IsQueued d₀ run q = (Run-IsServed d₀ run q).in_step

  -- Over a run of commits and of calls of `process_commits`, in any order and whatever the columns and the
  -- log do: the commits that were queued before and those of the run, in the order in which they were
  -- committed, are the ones that are written and then those that still wait; the columns and the log are
  -- as they become when one record for each of the written commits is written in that order; and a query
  -- of any key reads the newest kept change of a waiting commit, or else what the columns then have. The
  -- overlay agrees with the queue at the start, every step succeeds, and the ids of the commits stay below
  -- 2^64.
  pub Run-write_all :
      (d₀ : DbInner S) {trace : List CommitChangeSet} {d : DbInner S}
      → Run store d₀ trace d
      → IsQueued d₀
      → (done : List Commit) × (changesets d₀.queue.commits ++ oldest_first trace
          ≡ changesets done ++ changesets d.queue.commits)
        × (write_all store d₀.columns done d₀.store ≡ ok d.store)
        × ((kind : Kind) (c : ℕ) (k : Bytes)
            → query store kind c k d
              ≡ or_read found
                  (pending d₀.options kind c k d.queue.commits)
                  (read store kind c k d.store))
  unfolding query
  Run-write_all d₀ {d = d} run q =
      let h = Run-IsServed d₀ run q in
      (
        h.done,
        h.all_there ∙ changesets-append h.done d.queue.commits,
        h.written,
        λ kind c k.
            ap (λ o. or_read found o (read store kind c k d.store))
              (h.in_step.agrees kind c k
                ∙ ap (λ (o : Options). pending o kind c k d.queue.commits) h.same_options),
      )
