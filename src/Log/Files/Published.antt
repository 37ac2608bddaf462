-- ===== src/Log/Files/Published.antt =====
-- What a query of the overlays returns once a record has ended, and once it has been applied.
use blockchain_parity_db.Prelude.{
  ℕ, ◌≡◌, refl, sym, ap, ◌∙◌, Bool, false, Bool-cases, Option-cases, Option, none, some, inl, inr,
  List, [], ◌∷◌, ◌||◌, ◌&&◌, ◌==◌, if◌then◌else◌, arith,
}
use blockchain_parity_db.HashMap
use blockchain_parity_db.HashMap.{HashMap, or_else, or_value, get-insert, get-remove, get-extend}
use blockchain_parity_db.Bytes.{Bytes}
use blockchain_parity_db.Log.Reader.{Cleared}
use blockchain_parity_db.Log.Overlay.{
  IndexChange, ValueChange, LogWriter, at_table, overlays_with_index, overlays_value,
  writer_with_index, writer_value,
}
use blockchain_parity_db.Log.Files.{
  Log, end_read, publish, publish_change, forget, forget_page, forget_pages, retain_used,
}

-- A key stands once, as in every `HashMap`.
abbrev pub Distinct {ℓ} : {A : Type ℓ} → HashMap A → Type ℓ
Distinct [] = Unit {ℓ}
Distinct ((k, v) ∷ m) = (HashMap.get k m ≡ none) × Distinct m

-- Is the page in the list?
abbrev pub listed : ℕ → ℕ → List (ℕ × ℕ) → Bool
listed t i [] = false
listed t i ((t', i') ∷ ps) = (t' == t && i' == i) || listed t i ps

module _ {ℓ} {A : Type ℓ} where
  -- A page that the record `id` changed last is gone; another stays.
  abbrev pub unless : (A → ℕ) → ℕ → Option A → Option A
  unless owner id none = none
  unless owner id (some a) = if owner a == id then none else some a

  at_table-insert :
      (id t i : ℕ) (o : HashMap A) (m : HashMap (HashMap A))
      → at_table (HashMap.insert id o m) t i ≡ (if id == t then HashMap.get i o else at_table m t i)
  unfolding at_table HashMap.get_or_default
  at_table-insert id t i o m = ground (arith, get-insert id t o m)

  at_table-cons :
      (id t i : ℕ) (o : HashMap A) (os : HashMap (HashMap A))
      → at_table ((id, o) ∷ os) t i ≡ (if id == t then HashMap.get i o else at_table os t i)
  unfolding at_table HashMap.get_or_default HashMap.get
  at_table-cons id t i o os = ground arith

  at_table-absent :
      (t i : ℕ) (os : HashMap (HashMap A)) → HashMap.get t os ≡ none → at_table os t i ≡ none
  unfolding at_table HashMap.get_or_default
  at_table-absent t i os e = rw e (unfold HashMap.get in refl)

  at_table-publish :
      (t i : ℕ) (os m : HashMap (HashMap A))
      → Distinct os
      → at_table (publish os m) t i ≡ or_else (at_table os t i) (at_table m t i)
  unfolding publish at_table
  at_table-publish t i [] m d = rw (at_table-absent t i [] (unfold HashMap.get in refl)) refl
  at_table-publish t i ((id, o) ∷ os) m (once, d) =
      at_table-publish t i os _ d
      ∙ rw
          (
            at_table-insert id t i (HashMap.extend (HashMap.get_or_default [] id m) o) m,
            at_table-cons id t i o os,
            get-extend i (HashMap.get_or_default [] id m) o,
          )
          (elim (Bool-cases (id == t)) [
            | inl same ↦
                let e : id ≡ t = ground arith in
                rw same (
                  rw (at_table-absent t i os (ap (λ k. HashMap.get k os) (sym e) ∙ once)) (there e))
            | inr apart ↦ rw apart refl
          ])
    where
      there :
          id ≡ t
          → or_else (HashMap.get i o) (HashMap.get i (HashMap.get_or_default [] id m))
            ≡ or_else (HashMap.get i o) (at_table m t i)
      there e = ap (λ k. or_else (HashMap.get i o) (at_table m k i)) e

  get-forget :
      (owner : A → ℕ) (id i j : ℕ) (o : HashMap A)
      → HashMap.get j (forget owner id i o)
        ≡ (if i == j then unless owner id (HashMap.get j o) else HashMap.get j o)
  unfolding forget
  get-forget owner id i j o = elim (Option-cases (HashMap.get i o)) [
    | inl e ↦ rw (e, forget) (ground (arith, λ (h : i ≡ j). ap (λ k. HashMap.get k o) (sym h) ∙ e))
    | inr (a, e) ↦ elim (Bool-cases (owner a == id)) [
      | inl own ↦
          rw (e, forget, own)
            (ground
              (arith, get-remove i j o, own, λ (h : i ≡ j). ap (λ k. HashMap.get k o) (sym h) ∙ e))
      | inr newer ↦
          rw (e, forget, newer)
            (ground (arith, newer, λ (h : i ≡ j). ap (λ k. HashMap.get k o) (sym h) ∙ e))
    ]
  ]

  at_table-forget_page :
      (owner : A → ℕ) (id t i t' i' : ℕ) (m : HashMap (HashMap A))
      → at_table (forget_page owner id t i m) t' i'
        ≡ (if t == t' && i == i' then unless owner id (at_table m t' i') else at_table m t' i')
  unfolding forget_page
  at_table-forget_page owner id t i t' i' m = elim (Option-cases (HashMap.get t m)) [
    | inl e ↦
        rw (e, forget_page)
          (ground
            (arith, λ (h : t ≡ t'). ap (λ k. at_table m k i') (sym h) ∙ at_table-absent t i' m e))
    | inr (o, e) ↦
        rw
          (
            e,
            forget_page,
            at_table-insert t t' i' (forget owner id i o) m,
            get-forget owner id i i' o,
          )
          (ground (arith, λ (h : t ≡ t'). sym (ap (λ k. at_table m k i') (sym h) ∙ present o e)))
  ]
    where
      present : (o : HashMap A) → HashMap.get t m ≡ some o → at_table m t i' ≡ HashMap.get i' o
      present o e = unfold at_table HashMap.get_or_default in rw e refl

  unless-unless :
      (owner : A → ℕ) (id : ℕ) (o : Option A)
      → unless owner id (unless owner id o) ≡ unless owner id o
  unless-unless owner id none = refl
  unless-unless owner id (some a) = ground arith

  at_table-forget_pages :
      (owner : A → ℕ) (id t i : ℕ) (ps : List (ℕ × ℕ)) (m : HashMap (HashMap A))
      → at_table (forget_pages owner id ps m) t i
        ≡ (if listed t i ps then unless owner id (at_table m t i) else at_table m t i)
  unfolding forget_pages
  at_table-forget_pages owner id t i [] m = refl
  at_table-forget_pages owner id t i ((t', i') ∷ ps) m =
      at_table-forget_pages owner id t i ps (forget_page owner id t' i' m)
      ∙ rw (at_table-forget_page owner id t' i' t i m) (elim (Bool-cases (t' == t && i' == i)) [
        | inl here ↦ rw here (ground (arith, unless-unless owner id (at_table m t i)))
        | inr there ↦ rw there refl
      ])

  Distinct-insert :
      (k : ℕ) (o : HashMap A) (m : HashMap (HashMap A))
      → Distinct m
      → Distinct (HashMap.insert k o m)
  unfolding HashMap.insert
  Distinct-insert k o [] d = (unfold HashMap.get in refl, d)
  Distinct-insert k o ((j, p) ∷ m) (once, d) = elim (Bool-cases (j == k)) [
    | inl same ↦ rw same (ap (λ x. HashMap.get x m) (ground arith) ∙ once, d)
    | inr apart ↦
        rw apart (get-insert k j o m ∙ ground (arith, apart, once), Distinct-insert k o m d)
  ]

  Distinct-forget_page :
      (owner : A → ℕ) (id t i : ℕ) (m : HashMap (HashMap A))
      → Distinct m
      → Distinct (forget_page owner id t i m)
  unfolding forget_page
  Distinct-forget_page owner id t i m d = elim (Option-cases (HashMap.get t m)) [
    | inl e ↦ rw (e, forget_page) d
    | inr (o, e) ↦ rw (e, forget_page) (Distinct-insert t (forget owner id i o) m d)
  ]

  Distinct-forget_pages :
      (owner : A → ℕ) (id : ℕ) (ps : List (ℕ × ℕ)) (m : HashMap (HashMap A))
      → Distinct m
      → Distinct (forget_pages owner id ps m)
  unfolding forget_pages
  Distinct-forget_pages owner id [] m d = d
  Distinct-forget_pages owner id ((t, i) ∷ ps) m d =
      Distinct-forget_pages owner id ps (forget_page owner id t i m)
        (Distinct-forget_page owner id t i m d)

  at_table-retain_used :
      (t i : ℕ) (m : HashMap (HashMap A))
      → Distinct m
      → at_table (retain_used m) t i ≡ at_table m t i
  unfolding retain_used
  at_table-retain_used t i [] d = refl
  at_table-retain_used t i ((j, []) ∷ m) (once, d) =
      at_table-retain_used t i m d
      ∙ sym (
          at_table-cons j t i [] m
          ∙ ground (
            arith,
            empty,
            λ (h : j ≡ t). ap (λ k. at_table m k i) (sym h) ∙ at_table-absent j i m once,
          ))
    where
      empty : HashMap.get {V = A} i [] ≡ none
      empty = unfold HashMap.get in refl
  at_table-retain_used t i ((j, a ∷ o) ∷ m) (once, d) =
      at_table-cons j t i (a ∷ o) (retain_used m)
      ∙ rw (at_table-retain_used t i m d) (sym (at_table-cons j t i (a ∷ o) m))

-- Ending a record publishes it: to a query, the overlays are then what the writer of the record was,
-- for every page of the index and every value, if each table stands once in the record.
pub publish_change-query :
    (w : LogWriter)
    → Distinct w.log.local_index
    → Distinct w.log.local_values
    → ((t i : ℕ)
        → overlays_with_index (publish_change w.log w.overlays) t i ≡ writer_with_index w t i)
      × ((t i : ℕ) (dest : Bytes)
          → overlays_value (publish_change w.log w.overlays) t i dest ≡ writer_value w t i dest)
unfolding publish_change overlays_with_index overlays_value writer_with_index writer_value
publish_change-query w di dv = (
  λ t i.
      rw (at_table-publish t i w.log.local_index w.overlays.index di)
        (elim (Option-cases (at_table w.log.local_index t i)) [
          | inl e ↦ rw (e, writer_with_index) refl
          | inr (c, e) ↦ rw (e, writer_with_index) refl
        ]),
  λ t i dest.
      rw (at_table-publish t i w.log.local_values w.overlays.value dv)
        (elim (Option-cases (at_table w.log.local_values t i)) [
          | inl e ↦ rw (e, writer_value) refl
          | inr (c, e) ↦ rw (e, writer_value) refl
        ]),
)

-- After a record has been applied, a page that the reader noted and that this record was the last to
-- change has left the overlays; every other page stays, in particular one that a later record has
-- changed since. Each table stands once in the overlay of the index.
pub end_read-query :
    (c : Cleared) (id : ℕ) (s : Log) (t i : ℕ)
    → Distinct s.overlays.index
    → (at_table (end_read c id s).overlays.index t i ≡ (
        if listed t i c.index
        then unless (λ (x : IndexChange). x.record_id) id (at_table s.overlays.index t i)
        else at_table s.overlays.index t i))
      × (at_table (end_read c id s).overlays.value t i ≡ (
          if listed t i c.values
          then unless (λ (x : ValueChange). x.record_id) id (at_table s.overlays.value t i)
          else at_table s.overlays.value t i))
unfolding end_read
end_read-query c id s t i d = (
  at_table-retain_used t i _ (Distinct-forget_pages _ id c.index s.overlays.index d)
      ∙ at_table-forget_pages (λ (x : IndexChange). x.record_id) id t i c.index s.overlays.index,
  at_table-forget_pages (λ (x : ValueChange). x.record_id) id t i c.values s.overlays.value,
)
