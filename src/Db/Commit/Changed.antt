-- ===== src/Db/Commit/Changed.antt =====
-- What a commit asks for, key by key: the last change of a key, as the overlay is to keep it.
use blockchain_parity_db.Prelude.{
  ℕ, Bool, false, not, ◌&&◌, ◌||◌, Option, none, some, List, [], ◌∷◌, get_elem?, ◌==◌,
  if◌then◌else◌,
}
use blockchain_parity_db.Bytes.{Bytes}
use blockchain_parity_db.Value.Entry.{same_bytes}
use blockchain_parity_db.HashMap.{HashMap, or_else}
use blockchain_parity_db.Db.Commit.{
  Kind, ChangeSet, CommitChangeSet, Commit, ColumnOptions, Options, is_some, sets,
}

-- The last change of a key in a list of changes, of those that are kept
unfoldable pub last_change : Bool → Bytes → List (Bytes × Option Bytes) → Option (Option Bytes)
last_change ref_counted k [] = none
last_change ref_counted k ((j, v) ∷ changes) =
    or_else (last_change ref_counted k changes)
      (if same_bytes j k && (not ref_counted || is_some v) then some v else none)

abbrev pub is_ref_counted : Option ColumnOptions → Bool
is_ref_counted none = false
is_ref_counted (some o) = o.ref_counted

-- The last change of a key of column `c` in some sets of changes
unfoldable pub last_in_sets : Options → ℕ → Bytes → HashMap ChangeSet → Option (Option Bytes)
last_in_sets options c k [] = none
last_in_sets options c k ((i, s) ∷ more) = or_else (last_in_sets options c k more) (
    if i == c
    then last_change (is_ref_counted (get_elem? options.columns s.col)) k s.changes
    else none)

-- The change that a commit makes to a key
abbrev pub change_of : Options → Kind → ℕ → Bytes → CommitChangeSet → Option (Option Bytes)
change_of options kind c k cs = last_in_sets options c k (sets kind cs)

-- A change with its commit's id
abbrev pub tagged : ℕ → Option (Option Bytes) → Option (ℕ × Option Bytes)
tagged id none = none
tagged id (some v) = some (id, v)

-- The newest change of a key in a queue of commits, with the id of its commit
unfoldable pub pending : Options → Kind → ℕ → Bytes → List Commit → Option (ℕ × Option Bytes)
pending options kind c k [] = none
pending options kind c k (x ∷ queue) =
    or_else (pending options kind c k queue) (tagged x.id (change_of options kind c k x.changeset))

-- Whether a list of changes names a key, and whether some sets of changes name a key of column `c`
unfoldable pub names : Bytes → List (Bytes × Option Bytes) → Bool
names k [] = false
names k ((j, v) ∷ changes) = same_bytes j k || names k changes

unfoldable pub sets_name : ℕ → Bytes → HashMap ChangeSet → Bool
sets_name c k [] = false
sets_name c k ((i, s) ∷ more) = (i == c && names k s.changes) || sets_name c k more
