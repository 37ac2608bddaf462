-- ===== src/Db/Commit/Overlay/Sets.antt =====
-- What copying the sets of a commit to the overlay and cleaning them do to the entry of each key.
use blockchain_parity_db.Prelude.{
  ℕ, ◌≡◌, ◌≢◌, refl, sym, ap, ◌∙◌, Bool, true, false, ◌&&◌, Option, none, some, List, [], ◌∷◌,
  get_elem?, arith, ◌==◌, if◌then◌else◌,
}
use blockchain_parity_db.Bytes.{Bytes}
use blockchain_parity_db.Outcome.{ok, bind_ok, ◌>>=◌}
use blockchain_parity_db.HashMap.{HashMap, or_else}
use blockchain_parity_db.Db.Commit.{
  Kind, ChangeSet, ColumnOptions, Options, CommitOverlay, at_column, update_side, copy_changes,
  copy_sets,
}
use blockchain_parity_db.Db.Commit.Process.{clean_changes, clean_sets, get_ref}
use blockchain_parity_db.Db.Commit.Changed.{
  last_change, last_in_sets, is_ref_counted, tagged, names, sets_name,
}
use blockchain_parity_db.Db.Commit.Overlay.{
  or_else_assoc, tagged-or_else, get-copy_changes, clean_if, clean_if_twice, get-clean_changes,
  get_ref-update_side, get_ref-update_other,
}

or_else_if :
    (b : Bool) (id : ℕ) (o : Option (Option Bytes)) (x : Option (ℕ × Option Bytes))
    → (if b then or_else (tagged id o) x else x) ≡ or_else (tagged id (if b then o else none)) x
or_else_if true id o x = refl
or_else_if false id o x = refl

ref_counted_at :
    (o : Option ColumnOptions) (column : ColumnOptions)
    → at_column o ≡ ok column
    → is_ref_counted o ≡ column.ref_counted
ref_counted_at none column e = cc
ref_counted_at (some o) column e = ground arith

-- Copying the sets of one kind puts the last change of each key over its entry.
pub get_ref-copy_sets :
    (options : Options) (kind : Kind) (id : ℕ) (changes : HashMap ChangeSet)
    (os os' : List CommitOverlay)
    → copy_sets options kind id changes os ≡ ok os'
    → (c : ℕ) (k : Bytes)
    → get_ref kind c k os'
      ≡ or_else (tagged id (last_in_sets options c k changes)) (get_ref kind c k os)
unfolding copy_sets last_in_sets
get_ref-copy_sets options kind id [] os os' e c k = ap (get_ref kind c k) (ground arith)
get_ref-copy_sets options kind id ((i, s) ∷ more) os os' e c k =
    let (column, at, e₁) =
      bind_ok (at_column (get_elem? options.columns s.col))
        (λ (o : ColumnOptions).
          update_side kind i (copy_changes o.ref_counted id s.changes) os
          >>= (λ (l : List CommitOverlay). copy_sets options kind id more l))
        e in
    let (l, updated, e₂) =
      bind_ok (update_side kind i (copy_changes column.ref_counted id s.changes) os)
        (λ (l : List CommitOverlay). copy_sets options kind id more l) e₁ in
    let last : Bool → Option (Option Bytes) = λ b. last_change b k s.changes in
    let one =
      get_ref-update_side kind i (copy_changes column.ref_counted id s.changes) os l updated
        (or_else (tagged id (last column.ref_counted))) k
        (get-copy_changes column.ref_counted id k s.changes) c in
    let rest = last_in_sets options c k more in
    get_ref-copy_sets options kind id more l os' e₂ c k
    ∙ ap (or_else (tagged id rest)) (
        one
        ∙ or_else_if (i == c) id (last column.ref_counted) (get_ref kind c k os)
        ∙ ap (λ b. or_else (tagged id (if i == c then last b else none)) (get_ref kind c k os))
            (sym (ref_counted_at (get_elem? options.columns s.col) column at)))
    ∙ or_else_assoc (tagged id rest)
        (tagged id
          (if i == c then last (is_ref_counted (get_elem? options.columns s.col)) else none))
        (get_ref kind c k os)
    ∙ ap (λ o. or_else o (get_ref kind c k os))
        (sym (
          tagged-or_else id rest
            (if i == c then last (is_ref_counted (get_elem? options.columns s.col)) else none)))

clean_if-if :
    (a b : Bool) (id : ℕ) (o : Option (ℕ × Option Bytes))
    → (if a then clean_if b id o else o) ≡ clean_if (a && b) id o
clean_if-if true b id o = refl
clean_if-if false b id o = refl

-- Cleaning the sets of one kind drops an entry of the commit if they name its key.
pub get_ref-clean_sets :
    (kind : Kind) (id : ℕ) (changes : HashMap ChangeSet) (os os' : List CommitOverlay)
    → clean_sets kind id changes os ≡ ok os'
    → (c : ℕ) (k : Bytes)
    → get_ref kind c k os' ≡ clean_if (sets_name c k changes) id (get_ref kind c k os)
unfolding clean_sets sets_name
get_ref-clean_sets kind id [] os os' e c k = ap (get_ref kind c k) (ground arith)
get_ref-clean_sets kind id ((i, s) ∷ more) os os' e c k =
    let (l, updated, e₁) =
      bind_ok (update_side kind i (clean_changes id s.changes) os)
        (λ (l : List CommitOverlay). clean_sets kind id more l) e in
    get_ref-clean_sets kind id more l os' e₁ c k
    ∙ ap (clean_if (sets_name c k more) id) (
        get_ref-update_side kind i (clean_changes id s.changes) os l updated
          (clean_if (names k s.changes) id) k (get-clean_changes id k s.changes) c
        ∙ clean_if-if (i == c) (names k s.changes) id (get_ref kind c k os))
    ∙ clean_if_twice (i == c && names k s.changes) (sets_name c k more) id (get_ref kind c k os)

-- The sets of the other kind change nothing.
pub get_ref-copy_other :
    (options : Options) (kind other : Kind) (id : ℕ) (changes : HashMap ChangeSet)
    (os os' : List CommitOverlay)
    → copy_sets options kind id changes os ≡ ok os'
    → kind ≢ other
    → (c : ℕ) (k : Bytes) → get_ref other c k os' ≡ get_ref other c k os
unfolding copy_sets
get_ref-copy_other options kind other id [] os os' e ne c k = ap (get_ref other c k) (ground arith)
get_ref-copy_other options kind other id ((i, s) ∷ more) os os' e ne c k =
    let (column, at, e₁) =
      bind_ok (at_column (get_elem? options.columns s.col))
        (λ (o : ColumnOptions).
          update_side kind i (copy_changes o.ref_counted id s.changes) os
          >>= (λ (l : List CommitOverlay). copy_sets options kind id more l))
        e in
    let (l, updated, e₂) =
      bind_ok (update_side kind i (copy_changes column.ref_counted id s.changes) os)
        (λ (l : List CommitOverlay). copy_sets options kind id more l) e₁ in
    get_ref-copy_other options kind other id more l os' e₂ ne c k
    ∙ get_ref-update_other kind other i (copy_changes column.ref_counted id s.changes) os l updated
        ne c k

pub get_ref-clean_other :
    (kind other : Kind) (id : ℕ) (changes : HashMap ChangeSet) (os os' : List CommitOverlay)
    → clean_sets kind id changes os ≡ ok os'
    → kind ≢ other
    → (c : ℕ) (k : Bytes) → get_ref other c k os' ≡ get_ref other c k os
unfolding clean_sets
get_ref-clean_other kind other id [] os os' e ne c k = ap (get_ref other c k) (ground arith)
get_ref-clean_other kind other id ((i, s) ∷ more) os os' e ne c k =
    let (l, updated, e₁) =
      bind_ok (update_side kind i (clean_changes id s.changes) os)
        (λ (l : List CommitOverlay). clean_sets kind id more l) e in
    get_ref-clean_other kind other id more l os' e₁ ne c k
    ∙ get_ref-update_other kind other i (clean_changes id s.changes) os l updated ne c k
