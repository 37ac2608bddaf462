-- ===== src/Db/Commit/Processed.antt =====
-- What `process_commits` does to the queue with the overlay.
use mathlib.Core.Path.{subst}
use blockchain_parity_db.Prelude.{ℕ, ◌+◌, ◌≡◌, refl, sym, ap, ◌∙◌, Bool, true, List, [], ◌∷◌}
use blockchain_parity_db.Bytes.{Bytes}
use blockchain_parity_db.Outcome.{ok, bind_ok, ◌>>=◌}
use blockchain_parity_db.Db.Commit.{Kind, hash, tree, Commit, CommitOverlay, DbInner, sets}
use blockchain_parity_db.Db.Commit.Process.{
  Store, clean_sets, get_ref, write_record, processed, process_commit, process_next,
  process_commits,
}
use blockchain_parity_db.Db.Commit.Changed.{change_of, pending, sets_name}
use blockchain_parity_db.Db.Commit.Overlay.{clean_if}
use blockchain_parity_db.Db.Commit.Queue.{
  IsQueued, AreOrdered, AreOrdered-lower, get_ref-clean, pending-lt, last_in_sets-named, cleaned,
}

module _ {S : Type 0} (store : Store S) where
  -- What `process_commit` has done when it succeeds
  pub found_processed :
      (x : Commit) (rest : List Commit) (d : DbInner S) (out : Bool × DbInner S)
      → process_commit store x rest d ≡ ok out
      → (written : (Bool × ℕ × ℕ) × S) × (os₁ : List CommitOverlay) × (os₂ : List CommitOverlay)
        × (write_record store d.columns x d.store ≡ ok written)
        × (clean_sets hash x.id x.changeset.indexed d.overlays ≡ ok os₁)
        × (clean_sets tree x.id x.changeset.btree_indexed os₁ ≡ ok os₂)
        × (out.1 ≡ processed store x rest written os₂ d)
  unfolding process_commit
  found_processed x rest d out e =
      let (written, e₀, f₀) =
        bind_ok (write_record store d.columns x d.store)
          (λ (w : (Bool × ℕ × ℕ) × S).
            clean_sets hash x.id x.changeset.indexed d.overlays >>= (λ (os : List CommitOverlay).
              clean_sets tree x.id x.changeset.btree_indexed os
              >>= (λ (os' : List CommitOverlay). ok (true, processed store x rest w os' d))))
          e in
      let (os₁, e₁, f₁) =
        bind_ok (clean_sets hash x.id x.changeset.indexed d.overlays)
          (λ (os : List CommitOverlay).
            clean_sets tree x.id x.changeset.btree_indexed os
            >>= (λ (os' : List CommitOverlay). ok (true, processed store x rest written os' d)))
          f₀ in
      let (os₂, e₂, f₂) =
        bind_ok (clean_sets tree x.id x.changeset.btree_indexed os₁)
          (λ (os : List CommitOverlay). ok (true, processed store x rest written os d)) f₁ in
      let same : out.1 ≡ processed store x rest written os₂ d = cc in
      (written, os₁, os₂, e₀, e₁, e₂, same)

  -- The overlay, once the oldest commit is taken out of it
  pub get_ref-processed :
      (x : Commit) (rest : List Commit) (d : DbInner S) (os₁ os₂ : List CommitOverlay)
      → IsQueued d
      → d.queue.commits ≡ x ∷ rest
      → clean_sets hash x.id x.changeset.indexed d.overlays ≡ ok os₁
      → clean_sets tree x.id x.changeset.btree_indexed os₁ ≡ ok os₂
      → (kind : Kind) (c : ℕ) (k : Bytes) → get_ref kind c k os₂ ≡ pending d.options kind c k rest
  unfolding pending
  get_ref-processed x rest d os₁ os₂ q front e₁ e₂ kind c k =
      let newer = pending d.options kind c k rest in
      let change = change_of d.options kind c k x.changeset in
      let named = sets_name c k (sets kind x.changeset) in
      let ordered : AreOrdered 0 (d.queue.record_id + 2) (x ∷ rest) =
        subst (λ l. AreOrdered 0 (d.queue.record_id + 2) l) front q.ordered in
      get_ref-clean x.id x.changeset d.overlays os₁ os₂ e₁ e₂ kind c k
      ∙ ap (clean_if named x.id) (q.agrees kind c k ∙ ap (pending d.options kind c k) front)
      ∙ cleaned named x.id newer change
          (λ i v. pending-lt d.options kind c k x.id (d.queue.record_id + 2) rest i v ordered.1)
          (last_in_sets-named d.options c k (sets kind x.changeset))

  process_next-IsQueued :
      (commits : List Commit) (d : DbInner S) (out : Bool × DbInner S)
      → d.queue.commits ≡ commits
      → process_next store commits d ≡ ok out
      → IsQueued d
      → IsQueued out.1
  unfolding process_next
  process_next-IsQueued [] d out front e q =
      let same : out.1 ≡ d = cc in subst (λ (x : DbInner S). IsQueued x) (sym same) q
  process_next-IsQueued (x ∷ rest) d out front e q =
      let (written, os₁, os₂, e₀, e₁, e₂, same) = found_processed x rest d out e in
      let ordered : AreOrdered 0 (d.queue.record_id + 2) (x ∷ rest) =
        subst (λ l. AreOrdered 0 (d.queue.record_id + 2) l) front q.ordered in
      let holds : IsQueued (processed store x rest written os₂ d) = record {
        agrees = get_ref-processed x rest d os₁ os₂ q front e₁ e₂;
        ordered = AreOrdered-lower (d.queue.record_id + 2) rest ordered.0 ordered.1;
      } in
      subst (λ (y : DbInner S). IsQueued y) (sym same) holds

  -- Processing keeps the overlay and the queue together.
  pub process_commits-IsQueued :
      (d : DbInner S) (out : Bool × DbInner S)
      → process_commits store d ≡ ok out
      → IsQueued d
      → IsQueued out.1
  unfolding process_commits
  process_commits-IsQueued d out e q = process_next-IsQueued d.queue.commits d out refl e q
