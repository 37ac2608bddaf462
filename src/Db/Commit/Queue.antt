-- ===== src/Db/Commit/Queue.antt =====
-- The overlay and the queue: what holds between them, and how a commit and its processing keep it.
use blockchain_parity_db.Prelude.{
  ℕ, ◌+◌, ◌%◌, ◌^◌, ◌<◌, ◌≡◌, ◌≢◌, ◌⊎◌, inl, inr, not, ◌&&◌, ◌||◌, get_elem?, refl, sym, ap, ◌∙◌,
  Bool, true, Option, none, some, List, [], ◌∷◌, ◌++◌, arith, ◌==◌, if◌then◌else◌,
}
use mathlib.Core.Path.{subst}
use blockchain_parity_db.Bytes.{Bytes}
use blockchain_parity_db.Value.Entry.{same_bytes}
use blockchain_parity_db.Outcome.{Error, Result, ok, bind_ok, ◌>>=◌}
use blockchain_parity_db.HashMap.{HashMap, or_else}
use blockchain_parity_db.Db.Commit.{
  Kind, hash, tree, ChangeSet, CommitChangeSet, Commit, Options, CommitOverlay, DbInner, sets,
  copy_sets, is_some, queued, sets_bytes, check_bg_err, enqueue, commit_raw,
}
use blockchain_parity_db.Db.Commit.Process.{clean_sets, get_ref}
use blockchain_parity_db.Db.Commit.Changed.{
  last_change, last_in_sets, change_of, tagged, pending, names, is_ref_counted, sets_name,
}
use blockchain_parity_db.Db.Commit.Overlay.{clean_if, or_else_assoc}
use blockchain_parity_db.Db.Commit.Overlay.Sets.{
  get_ref-copy_sets, get_ref-copy_other, get_ref-clean_sets, get_ref-clean_other,
}

-- The ids of a queue grow, above `low` and below `high`.
abbrev pub AreOrdered : ℕ → ℕ → List Commit → Type 0
AreOrdered low high [] = low < high
AreOrdered low high (x ∷ queue) = low < x.id × AreOrdered x.id high queue

-- The overlay holds, for every key, the newest change of the queue, with its commit's id.
pub record IsQueued {S : Type 0} (d : DbInner S) : Type 0 where
  pub agrees :
      (kind : Kind) (c : ℕ) (k : Bytes)
      → get_ref kind c k d.overlays ≡ pending d.options kind c k d.queue.commits
  pub ordered : AreOrdered 0 (d.queue.record_id + 2) d.queue.commits

hash≢tree : hash ≢ tree
hash≢tree e = cc

tree≢hash : tree ≢ hash
tree≢hash e = cc

-- Both loops of `commit_raw`
pub get_ref-copy :
    (options : Options) (id : ℕ) (cs : CommitChangeSet) (os₀ os₁ os₂ : List CommitOverlay)
    → copy_sets options hash id cs.indexed os₀ ≡ ok os₁
    → copy_sets options tree id cs.btree_indexed os₁ ≡ ok os₂
    → (kind : Kind) (c : ℕ) (k : Bytes)
    → get_ref kind c k os₂
      ≡ or_else (tagged id (change_of options kind c k cs)) (get_ref kind c k os₀)
get_ref-copy options id cs os₀ os₁ os₂ e₁ e₂ hash c k =
    get_ref-copy_other options tree hash id cs.btree_indexed os₁ os₂ e₂ tree≢hash c k
    ∙ get_ref-copy_sets options hash id cs.indexed os₀ os₁ e₁ c k
get_ref-copy options id cs os₀ os₁ os₂ e₁ e₂ tree c k =
    get_ref-copy_sets options tree id cs.btree_indexed os₁ os₂ e₂ c k
    ∙ ap (or_else (tagged id (last_in_sets options c k cs.btree_indexed)))
        (get_ref-copy_other options hash tree id cs.indexed os₀ os₁ e₁ hash≢tree c k)

-- Both loops of `process_commits` over the overlay
pub get_ref-clean :
    (id : ℕ) (cs : CommitChangeSet) (os₀ os₁ os₂ : List CommitOverlay)
    → clean_sets hash id cs.indexed os₀ ≡ ok os₁
    → clean_sets tree id cs.btree_indexed os₁ ≡ ok os₂
    → (kind : Kind) (c : ℕ) (k : Bytes)
    → get_ref kind c k os₂ ≡ clean_if (sets_name c k (sets kind cs)) id (get_ref kind c k os₀)
get_ref-clean id cs os₀ os₁ os₂ e₁ e₂ hash c k =
    get_ref-clean_other tree hash id cs.btree_indexed os₁ os₂ e₂ tree≢hash c k
    ∙ get_ref-clean_sets hash id cs.indexed os₀ os₁ e₁ c k
get_ref-clean id cs os₀ os₁ os₂ e₁ e₂ tree c k =
    get_ref-clean_sets tree id cs.btree_indexed os₁ os₂ e₂ c k
    ∙ ap (clean_if (sets_name c k cs.btree_indexed) id)
        (get_ref-clean_other hash tree id cs.indexed os₀ os₁ e₁ hash≢tree c k)

pending-append :
    (options : Options) (kind : Kind) (c : ℕ) (k : Bytes) (queue : List Commit) (x : Commit)
    → pending options kind c k (queue ++ x ∷ [])
      ≡ or_else
          (tagged x.id (change_of options kind c k x.changeset))
          (pending options kind c k queue)
unfolding pending
pending-append options kind c k [] x =
    elim (tagged x.id (change_of options kind c k x.changeset))
      as (λ o. or_else none o ≡ or_else o none) [ none ↦ refl | some e ↦ refl ]
pending-append options kind c k (y ∷ queue) x =
    ap (λ o. or_else o (tagged y.id (change_of options kind c k y.changeset)))
      (pending-append options kind c k queue x)
    ∙ sym (
        or_else_assoc (tagged x.id (change_of options kind c k x.changeset))
          (pending options kind c k queue) (tagged y.id (change_of options kind c k y.changeset)))

append-AreOrdered :
    (low high : ℕ) (queue : List Commit) (x : Commit)
    → AreOrdered low high queue
    → x.id ≡ high
    → AreOrdered low (high + 1) (queue ++ x ∷ [])
append-AreOrdered low high [] x h e = (omega arith, omega arith)
append-AreOrdered low high (y ∷ queue) x h e = (h.0, append-AreOrdered y.id high queue x h.1 e)

or_else-eq-some {ℓ} :
    {A : Type ℓ} (a b : Option A) {v : A} → or_else a b ≡ some v → (a ≡ some v) ⊎ (b ≡ some v)
or_else-eq-some none b e = inr e
or_else-eq-some (some a) b e = inl e

tagged-id :
    (id : ℕ) (o : Option (Option Bytes)) {i : ℕ} {v : Option Bytes}
    → tagged id o ≡ some (i, v)
    → id ≡ i
tagged-id id none e = cc
tagged-id id (some w) e = cc

pub AreOrdered-lower :
    {low low' : ℕ} (high : ℕ) (queue : List Commit)
    → low' < low
    → AreOrdered low high queue
    → AreOrdered low' high queue
AreOrdered-lower high [] l h = omega arith
AreOrdered-lower high (x ∷ queue) l h = (omega arith, h.1)

pub pending-lt :
    (options : Options) (kind : Kind) (c : ℕ) (k : Bytes) (low high : ℕ) (queue : List Commit)
    (i : ℕ) (v : Option Bytes)
    → AreOrdered low high queue
    → pending options kind c k queue ≡ some (i, v)
    → low < i
unfolding pending
pending-lt options kind c k low high [] i v h e = cc
pending-lt options kind c k low high (x ∷ queue) i v h e =
    elim (or_else-eq-some (pending options kind c k queue)
      (tagged x.id (change_of options kind c k x.changeset)) e) [
        | inl newer ↦
            pending-lt options kind c k low high queue i v (AreOrdered-lower high queue h.0 h.1)
              newer
        | inr e' ↦ omega (arith, tagged-id x.id (change_of options kind c k x.changeset) e')
      ]

-- A key that has a change is named.
last_change-names :
    (b : Bool) (k : Bytes) (changes : List (Bytes × Option Bytes)) (v : Option Bytes)
    → last_change b k changes ≡ some v
    → names k changes ≡ true
unfolding last_change names
last_change-names b k [] v e = cc
last_change-names b k ((j, w) ∷ changes) v e =
    elim (or_else-eq-some (last_change b k changes)
      (if same_bytes j k && (not b || is_some w) then some w else none) e) [
        | inl more ↦ ground (arith, last_change-names b k changes v more)
        | inr e' ↦ ground arith
      ]

pub last_in_sets-named :
    (options : Options) (c : ℕ) (k : Bytes) (changes : HashMap ChangeSet) (v : Option Bytes)
    → last_in_sets options c k changes ≡ some v
    → sets_name c k changes ≡ true
unfolding last_in_sets sets_name
last_in_sets-named options c k [] v e = cc
last_in_sets-named options c k ((i, s) ∷ more) v e =
    let b = is_ref_counted (get_elem? options.columns s.col) in
    elim (or_else-eq-some (last_in_sets options c k more)
      (if i == c then last_change b k s.changes else none) e) [
        | inl e' ↦ ground (arith, last_in_sets-named options c k more v e')
        | inr e' ↦ ground (arith, last_change-names b k s.changes v)
      ]

-- The entry of a processed commit goes, and a newer one stays.
pub cleaned :
    (named : Bool) (id : ℕ) (p : Option (ℕ × Option Bytes)) (change : Option (Option Bytes))
    → ((i : ℕ) (v : Option Bytes) → p ≡ some (i, v) → id < i)
    → ((v : Option Bytes) → change ≡ some v → named ≡ true)
    → clean_if named id (or_else p (tagged id change)) ≡ p
cleaned named id none none newer found = ground arith
cleaned named id none (some v) newer found = rw (found v refl) (ground arith)
cleaned named id (some (i, v)) change newer found = ground (arith, newer i v refl)

passed_check {ℓ} :
    {A : Type ℓ} {rest : Result A} {a : A} (bg_err : Option Error)
    → check_bg_err bg_err rest ≡ ok a
    → rest ≡ ok a
passed_check none e = e
passed_check (some error) e = cc

-- What `enqueue` has done when it returns a database
pub found_copies :
    {S : Type 0} (id : ℕ) (cs : CommitChangeSet) (d d' : DbInner S)
    → enqueue id cs d ≡ ok d'
    → (os₁ : List CommitOverlay) × (os₂ : List CommitOverlay) × (copy_sets d.options hash id
          cs.indexed d.overlays
        ≡ ok os₁)
      × (copy_sets d.options tree id cs.btree_indexed os₁ ≡ ok os₂)
      × (d' ≡ queued id cs os₂ d)
unfolding enqueue
found_copies {S} id cs d d' e =
    let (os₁, e₁, f₁) =
      bind_ok (copy_sets d.options hash id cs.indexed d.overlays)
        (λ (os : List CommitOverlay).
          copy_sets d.options tree id cs.btree_indexed os
          >>= (λ (os' : List CommitOverlay). ok (queued id cs os' d)))
        e in
    let (os₂, e₂, f₂) =
      bind_ok (copy_sets d.options tree id cs.btree_indexed os₁)
        (λ (os : List CommitOverlay). ok (queued id cs os d)) f₁ in
    let same : d' ≡ queued id cs os₂ d = cc in (os₁, os₂, e₁, e₂, same)

-- An `enqueue` with the next id keeps the queue.
enqueue-IsQueued :
    {S : Type 0} (cs : CommitChangeSet) (d d' : DbInner S)
    → enqueue ((d.queue.record_id + 2) % 2 ^ 64) cs d ≡ ok d'
    → d.queue.record_id + 2 < 2 ^ 64
    → IsQueued d
    → IsQueued d'
enqueue-IsQueued {S} cs d d' e room q =
    let id = (d.queue.record_id + 2) % 2 ^ 64 in
    let (os₁, os₂, e₁, e₂, same) = found_copies id cs d d' e in
    let bytes = sets_bytes cs.btree_indexed (sets_bytes cs.indexed 0) in
    let commit : Commit = record { id = id; bytes = bytes; changeset = cs } in
    let holds : IsQueued (queued id cs os₂ d) = record {
      agrees = λ kind c k.
          get_ref-copy d.options id cs d.overlays os₁ os₂ e₁ e₂ kind c k
          ∙ ap (or_else (tagged id (change_of d.options kind c k cs))) (q.agrees kind c k)
          ∙ sym (pending-append d.options kind c k d.queue.commits commit);
      ordered =
          subst (λ (n : ℕ). AreOrdered 0 n (d.queue.commits ++ commit ∷ [])) (omega arith)
            (append-AreOrdered 0 (d.queue.record_id + 2) d.queue.commits commit q.ordered
              (omega arith));
    } in
    subst (λ (x : DbInner S). IsQueued x) (sym same) holds

pub commit_raw-eq-enqueue :
    {S : Type 0} (cs : CommitChangeSet) (d : DbInner S) {d' : DbInner S}
    → commit_raw cs d ≡ ok d'
    → enqueue ((d.queue.record_id + 2) % 2 ^ 64) cs d ≡ ok d'
unfolding commit_raw
commit_raw-eq-enqueue cs d e = passed_check d.bg_err e

-- A commit keeps the overlay and the queue together.
pub commit_raw-IsQueued :
    {S : Type 0} (cs : CommitChangeSet) (d d' : DbInner S)
    → commit_raw cs d ≡ ok d'
    → d.queue.record_id + 2 < 2 ^ 64
    → IsQueued d
    → IsQueued d'
commit_raw-IsQueued cs d d' e room q =
    enqueue-IsQueued cs d d' (commit_raw-eq-enqueue cs d e) room q
