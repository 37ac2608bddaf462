-- ===== src/Db/Commit/Overlay.antt =====
-- What copying a list of changes to an overlay and cleaning it do to the entry of each key.
pub mod Sets
use blockchain_parity_db.Prelude.{
  ℕ, zero, suc, ◌⊎◌, ℕ_discrete, ◌≡◌, ◌≢◌, refl, sym, ap, ◌∙◌, ◌<◌, Bool, Bool-cases, true, false,
  not, ◌&&◌, ◌||◌, inl, inr, Option, none, some, List, [], ◌∷◌, get_elem?, set, get_elem?-set_self,
  get_elem?-set_ne, length, arith, ◌==◌, ==_iff, if◌then◌else◌,
}
use mathlib.Core.Path.{subst}
use blockchain_parity_db.Bytes.{Bytes}
use blockchain_parity_db.Outcome.{Result, ok, panic, bind_ok, ◌>>=◌}
use blockchain_parity_db.Value.Entry.{same_bytes}
use blockchain_parity_db.Value.Entry.Cursor.{same_bytes_refl}
use blockchain_parity_db.HashMap.{HashMap, or_else}
use blockchain_parity_db.KeyMap
use blockchain_parity_db.KeyMap.{get-insert, get-remove, same_bytes→≡}
use blockchain_parity_db.Db.Commit.{
  Kind, hash, tree, ChangeSet, ColumnOptions, Options, CommitOverlay, Queued, side, set_side,
  at_column, update_side, is_some, copy_changes, copy_sets,
}
use blockchain_parity_db.Db.Commit.Process.{clean_key, clean_changes, clean_sets, get_ref, ref_in}
use blockchain_parity_db.Db.Commit.Changed.{
  last_change, last_in_sets, is_ref_counted, tagged, names, sets_name,
}

pub or_else_assoc {ℓ} :
    {A : Type ℓ} (a b c : Option A) → or_else a (or_else b c) ≡ or_else (or_else a b) c
or_else_assoc none b c = refl
or_else_assoc (some a) b c = refl

pub tagged-or_else :
    (id : ℕ) (a b : Option (Option Bytes))
    → tagged id (or_else a b) ≡ or_else (tagged id a) (tagged id b)
tagged-or_else id none b = refl
tagged-or_else id (some a) b = refl

get-insert_if :
    (b : Bool) (id : ℕ) (k j : Bytes) (v : Option Bytes) (m : Queued)
    → KeyMap.get j (if b then KeyMap.insert k (id, v) m else m)
      ≡ or_else (tagged id (if same_bytes k j && b then some v else none)) (KeyMap.get j m)
get-insert_if true id k j v m = ground (arith, get-insert k j (id, v) m)
get-insert_if false id k j v m = ground arith

pub get-copy_changes :
    (ref_counted : Bool) (id : ℕ) (k : Bytes) (changes : List (Bytes × Option Bytes)) (m : Queued)
    → KeyMap.get k (copy_changes ref_counted id changes m)
      ≡ or_else (tagged id (last_change ref_counted k changes)) (KeyMap.get k m)
unfolding copy_changes last_change
get-copy_changes ref_counted id k [] m = refl
get-copy_changes ref_counted id k ((j, v) ∷ changes) m =
    let one : Option (Option Bytes) =
      if same_bytes j k && (not ref_counted || is_some v) then some v else none in
    get-copy_changes ref_counted id k changes
      (if not ref_counted || is_some v then KeyMap.insert j (id, v) m else m)
    ∙ ap (or_else (tagged id (last_change ref_counted k changes)))
        (get-insert_if (not ref_counted || is_some v) id j k v m)
    ∙ or_else_assoc (tagged id (last_change ref_counted k changes)) (tagged id one) (KeyMap.get k m)
    ∙ ap (λ (o : Option (ℕ × Option Bytes)). or_else o (KeyMap.get k m))
        (sym (tagged-or_else id (last_change ref_counted k changes) one))

-- An entry of the commit with the given id goes.
abbrev pub without : ℕ → Option (ℕ × Option Bytes) → Option (ℕ × Option Bytes)
without id none = none
without id (some (i, v)) = if i == id then none else some (i, v)

abbrev pub clean_if : Bool → ℕ → Option (ℕ × Option Bytes) → Option (ℕ × Option Bytes)
clean_if b id o = if b then without id o else o

entry_cases : (o : Option (ℕ × Option Bytes)) → (o ≡ none) ⊎ ((e : ℕ × Option Bytes) × (o ≡ some e))
entry_cases none = inl refl
entry_cases (some e) = inr (e, refl)

get-clean_found :
    (id : ℕ) (k : Bytes) (m : Queued) (e : ℕ × Option Bytes)
    → KeyMap.get k m ≡ some e
    → KeyMap.get k (clean_key id k m) ≡ without id (some e)
unfolding clean_key
get-clean_found id k m (i, v) found =
    rw (found, clean_key) (ground (arith, found, get-remove k k m, same_bytes_refl k))

get-clean_other :
    (id : ℕ) (j k : Bytes) (m : Queued) (o : Option (ℕ × Option Bytes))
    → KeyMap.get j m ≡ o
    → same_bytes j k ≡ false
    → KeyMap.get k (clean_key id j m) ≡ KeyMap.get k m
unfolding clean_key
get-clean_other id j k m none e ne = rw (e, clean_key) refl
get-clean_other id j k m (some (i, v)) e ne = rw (e, clean_key) (ground (arith, get-remove j k m))

get-clean_none :
    (id : ℕ) (k : Bytes) (m : Queued)
    → KeyMap.get k m ≡ none
    → KeyMap.get k (clean_key id k m) ≡ none
unfolding clean_key
get-clean_none id k m e = rw (e, clean_key) e

get-clean_same :
    (id : ℕ) (k : Bytes) (m : Queued)
    → KeyMap.get k (clean_key id k m) ≡ without id (KeyMap.get k m)
get-clean_same id k m = elim (entry_cases (KeyMap.get k m)) [
  | inl e ↦ get-clean_none id k m e ∙ ap (without id) (sym e)
  | inr (x, e) ↦ get-clean_found id k m x e ∙ ap (without id) (sym e)
]

get-clean_key :
    (id : ℕ) (j k : Bytes) (m : Queued)
    → KeyMap.get k (clean_key id j m) ≡ clean_if (same_bytes j k) id (KeyMap.get k m)
get-clean_key id j k m = elim (Bool-cases (same_bytes j k)) [
  | inl e ↦ rw e (
      ap (λ (x : Bytes). KeyMap.get k (clean_key id x m)) (same_bytes→≡ j k e)
      ∙ get-clean_same id k m)
  | inr e ↦ rw e (get-clean_other id j k m (KeyMap.get j m) refl e)
]

pub clean_if_twice :
    (a b : Bool) (id : ℕ) (o : Option (ℕ × Option Bytes))
    → clean_if b id (clean_if a id o) ≡ clean_if (a || b) id o
clean_if_twice a b id none = ground arith
clean_if_twice a b id (some (i, v)) = ground arith

pub get-clean_changes :
    (id : ℕ) (k : Bytes) (changes : List (Bytes × Option Bytes)) (m : Queued)
    → KeyMap.get k (clean_changes id changes m) ≡ clean_if (names k changes) id (KeyMap.get k m)
unfolding clean_changes names
get-clean_changes id k [] m = refl
get-clean_changes id k ((j, v) ∷ changes) m =
    get-clean_changes id k changes (clean_key id j m)
    ∙ ap (clean_if (names k changes) id) (get-clean_key id j k m)
    ∙ clean_if_twice (same_bytes j k) (names k changes) id (KeyMap.get k m)

found_overlay-lt :
    (os : List CommitOverlay) (c : ℕ) (o : CommitOverlay) → get_elem? os c ≡ some o → c < length os
found_overlay-lt [] c o e = cc
found_overlay-lt (x ∷ os) zero o e = omega arith
found_overlay-lt (x ∷ os) (suc c) o e = omega (arith, found_overlay-lt os c o e)

-- An overlay that an update has found, and what it has become
found_overlay :
    (kind : Kind) (c : ℕ) (f : Queued → Queued) (os os' : List CommitOverlay)
    → update_side kind c f os ≡ ok os'
    → (o : CommitOverlay) × (get_elem? os c ≡ some o)
      × (os' ≡ set os c (set_side kind (f (side kind o)) o))
unfolding update_side
found_overlay kind c f os os' e = ground arith

side_set : (kind : Kind) (m : Queued) (o : CommitOverlay) → side kind (set_side kind m o) ≡ m
side_set hash m o = refl
side_set tree m o = refl

==_ne : (a b : ℕ) → a ≢ b → (a == b) ≡ false
==_ne a b ne = ground arith

side_other :
    (kind other : Kind) (m : Queued) (o : CommitOverlay)
    → kind ≢ other
    → side other (set_side kind m o) ≡ side other o
side_other hash hash m o ne = absurd (ne refl)
side_other hash tree m o ne = refl
side_other tree hash m o ne = refl
side_other tree tree m o ne = absurd (ne refl)

-- One update of an overlay, seen by a query
pub get_ref-update_side :
    (kind : Kind) (c : ℕ) (f : Queued → Queued) (os os' : List CommitOverlay)
    → update_side kind c f os ≡ ok os'
    → (g : Option (ℕ × Option Bytes) → Option (ℕ × Option Bytes)) (k : Bytes)
    → ((m : Queued) → KeyMap.get k (f m) ≡ g (KeyMap.get k m))
    → (i : ℕ)
    → get_ref kind i k os' ≡ (if c == i then g (get_ref kind i k os) else get_ref kind i k os)
unfolding get_ref
get_ref-update_side kind c f os os' e g k h i =
    let (o, at_c, e') = found_overlay kind c f os os' e in
    let new : CommitOverlay = set_side kind (f (side kind o)) o in
    let seen : get_ref kind c k os' ≡ g (get_ref kind c k os) =
      ap (λ (l : List CommitOverlay). ref_in kind k (get_elem? l c)) e'
      ∙ ap (ref_in kind k) (get_elem?-set_self os c new (found_overlay-lt os c o at_c))
      ∙ ap (KeyMap.get k) (side_set kind (f (side kind o)) o)
      ∙ h (side kind o)
      ∙ ap g (sym (ap (ref_in kind k) at_c)) in
    elim (ℕ_discrete c i) [
      | yes c≡i ↦
          subst
            (λ x.
              get_ref kind x k os'
              ≡ (if c == x then g (get_ref kind x k os) else get_ref kind x k os))
            c≡i (rw ((==_iff c c).1 refl) seen)
      | no ne ↦ rw (==_ne c i ne) (
          ap (λ (l : List CommitOverlay). ref_in kind k (get_elem? l i)) e'
          ∙ ap (ref_in kind k) (get_elem?-set_ne os new ne))
    ]

pub get_ref-update_other :
    (kind other : Kind) (c : ℕ) (f : Queued → Queued) (os os' : List CommitOverlay)
    → update_side kind c f os ≡ ok os'
    → kind ≢ other
    → (i : ℕ) (k : Bytes) → get_ref other i k os' ≡ get_ref other i k os
unfolding get_ref
get_ref-update_other kind other c f os os' e ne i k =
    let (o, at_c, e') = found_overlay kind c f os os' e in
    let new : CommitOverlay = set_side kind (f (side kind o)) o in
    let kept : side other new ≡ side other o = side_other kind other (f (side kind o)) o ne in
    elim (ℕ_discrete c i) [
      | yes c≡i ↦
          subst (λ x. get_ref other x k os' ≡ get_ref other x k os) c≡i
            (ap (λ (l : List CommitOverlay). ref_in other k (get_elem? l c)) e'
              ∙ ap (ref_in other k) (get_elem?-set_self os c new (found_overlay-lt os c o at_c))
              ∙ ap (KeyMap.get k) kept
              ∙ sym (ap (ref_in other k) at_c))
      | no ne' ↦
          ap (λ (l : List CommitOverlay). ref_in other k (get_elem? l i)) e'
          ∙ ap (ref_in other k) (get_elem?-set_ne os new ne')
    ]
