-- ===== src/Value/Table/Fresh.antt =====
-- The slots that a value table hands out are apart from those that are in use.
use blockchain_parity_db.Prelude.{
  ℕ, ◌+◌, ◌%◌, ◌^◌, ◌≤◌, ◌<◌, ◌≡◌, ◌≢◌, refl, ap, ◌∙◌, Bool, true, false, List, [], ◌∷◌, ◌==◌,
  arith,
}
use blockchain_parity_db.Bytes.{Memory}
use blockchain_parity_db.Outcome.{ok}
use blockchain_parity_db.Log.Overlay.{LogWriter}
use blockchain_parity_db.Value.Table.{ValueTable, read_buf, read_next_free, next_free}
use blockchain_parity_db.Value.Table.FreeList.{FreeList, IsOutside}

-- A free list without repetitions of slots below `filled`
abbrev pub IsFresh : ℕ → List ℕ → Type 0
IsFresh filled [] = Unit
IsFresh filled (x ∷ xs) = (x < filled) × IsOutside x xs × IsFresh filled xs

-- The fields of a table that taking a slot changes
abbrev pub counted : ValueTable → ℕ → ℕ → Bool → ValueTable
counted t last filled dirty = record t {
  last_removed = last;
  filled = filled;
  dirty_header = dirty;
}

pub FreeList-counted :
    (u : Memory) (t : ValueTable) (w : LogWriter) (n last filled : ℕ) (dirty : Bool) (xs : List ℕ)
    → FreeList u t w n xs
    → FreeList u (counted t last filled dirty) w n xs
FreeList-counted u t w n last filled dirty [] l = l
FreeList-counted u t w n last filled dirty (x ∷ xs) (e, used, (next, reads, l)) = (
  e,
  used,
  (
    next,
    unfold read_next_free read_buf in reads,
    FreeList-counted u t w next last filled dirty xs l,
  ),
)

-- Every slot in use lies below the new one or is on no list.
pub record Taken (u : Memory) (t : ValueTable) (w : LogWriter) (xs : List ℕ) : Type 0 where
  pub slot : ℕ
  pub last : ℕ
  pub filled : ℕ
  pub left : List ℕ
  pub takes : next_free u t w ≡ ok (slot, counted t last filled true)
  pub list : FreeList u (counted t last filled true) w last left
  pub fresh : IsFresh filled left
  pub used : slot ≢ 0
  pub below : slot < filled
  pub apart : IsOutside slot left
  pub grows : t.filled ≤ filled
  pub bound : filled ≤ t.filled + 1
  pub others : (j : ℕ) → j < t.filled → IsOutside j xs → (j ≢ slot) × IsOutside j left

pub next_free-Taken :
    (u : Memory) (t : ValueTable) (w : LogWriter) (xs : List ℕ)
    → t.filled ≢ 0
    → t.filled + 1 < 2 ^ 64
    → IsFresh t.filled xs
    → FreeList u t w t.last_removed xs
    → Taken u t w xs
unfolding next_free
next_free-Taken u t w [] some_used h fresh l = record {
  slot = t.filled;
  last = t.last_removed;
  filled = t.filled + 1;
  left = [];
  takes =
      let word : (t.filled + 1) % 2 ^ 64 ≡ t.filled + 1 = omega arith in
      let none_removed : t.last_removed == 0 ≡ true = ground (arith, l) in
      rw (none_removed, word) refl;
  list = l;
  fresh = tt;
  used = some_used;
  below = omega arith;
  apart = tt;
  grows = omega arith;
  bound = omega arith;
  others = λ j small out. (λ e. omega (arith, e, small), tt);
}
next_free-Taken u t w (x ∷ xs) some_used h (small, out, fresh) (e, used, (next, reads, l)) =
    record {
      slot = x;
      last = next;
      filled = t.filled;
      left = xs;
      takes =
          let removed : t.last_removed == 0 ≡ false = ground (arith, e, used) in
          rw (removed, ap (λ k. read_next_free u t k w) e ∙ reads)
            (ap (λ k. ok (k, counted t next t.filled true)) e);
      list = FreeList-counted u t w next next t.filled true xs l;
      fresh = fresh;
      used = used;
      below = small;
      apart = out;
      grows = omega arith;
      bound = omega arith;
      others = λ j below (a, rest). (a, rest);
    }
