-- ===== src/Db/Commit/Reads.antt =====
-- Commits and queries: what a change does to what is read, and the commits that are written.
pub mod Run
use blockchain_parity_db.Prelude.{
  ℕ, ◌≡◌, refl, ap, ◌∙◌, Bool, Option, none, some, List, [], ◌∷◌, ◌++◌,
}
use blockchain_parity_db.Bytes.{Bytes}
use blockchain_parity_db.Outcome.{Result, ok, bind_ok, ◌>>=◌}
use blockchain_parity_db.Db.Commit.{CommitChangeSet, Commit, Column}
use blockchain_parity_db.Db.Commit.Process.{Store, write_record}

-- A change, or what was there
abbrev pub changed : Option (Option Bytes) → Result (Option Bytes) → Result (Option Bytes)
changed none before = before
changed (some v) before = ok v

abbrev pub changesets : List Commit → List CommitChangeSet
changesets [] = []
changesets (x ∷ queue) = x.changeset ∷ changesets queue

pub changesets-append :
    (done queue : List Commit) → changesets (done ++ queue) ≡ changesets done ++ changesets queue
changesets-append [] queue = refl
changesets-append (x ∷ done) queue = ap (λ l. x.changeset ∷ l) (changesets-append done queue)

-- The sets of a run, which has the newest first, in the order in which they are committed
abbrev pub oldest_first : List CommitChangeSet → List CommitChangeSet
oldest_first [] = []
oldest_first (cs ∷ trace) = oldest_first trace ++ cs ∷ []

module _ {S : Type 0} (store : Store S) (columns : List Column) where
  -- One record for each commit, in order
  abbrev pub write_all : List Commit → S → Result S
  write_all [] s = ok s
  write_all (x ∷ queue) s = write_record store columns x s >>= λ r. write_all queue (r.1)

  pub write_all-append :
      (queue : List Commit) (x : Commit) (s s' : S) (out : (Bool × ℕ × ℕ) × S)
      → write_all queue s ≡ ok s'
      → write_record store columns x s' ≡ ok out
      → write_all (queue ++ x ∷ []) s ≡ ok (out.1)
  write_all-append [] x s s' out e f =
      let now : write_record store columns x s ≡ ok out = cc in
      ap (λ z. z >>= λ (r : (Bool × ℕ × ℕ) × S). ok (r.1)) now
  write_all-append (y ∷ queue) x s s' out e f =
      let (r, e₁, e₂) =
        bind_ok (write_record store columns y s) (λ (r : (Bool × ℕ × ℕ) × S). write_all queue (r.1))
          e in
      ap (λ z. z >>= λ (r : (Bool × ℕ × ℕ) × S). write_all (queue ++ x ∷ []) (r.1)) e₁
      ∙ write_all-append queue x (r.1) s' out e₂ f
