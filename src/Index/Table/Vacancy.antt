-- ===== src/Index/Table/Vacancy.antt =====
-- The place of an insertion.
use blockchain_parity_db.Prelude.{
  ℕ, zero, suc, ◌+◌, ◌≤◌, ◌<◌, ◌≡◌, refl, ◌⊎◌, inl, inr, true, false, none, some, Bool-cases, arith,
}
use blockchain_parity_db.Index.Chunk.{Chunk, chunk_entries, read_entry}
use blockchain_parity_db.Index.Entry.{is_empty}
use blockchain_parity_db.Index.Table.{first_empty}

-- The entry at `i` is the first empty one among `at .. at + n`.
pub record IsFirstEmpty (at n : ℕ) (c : Chunk) (i : ℕ) : Type 0 where
  pub from : at ≤ i
  pub to : i < at + n
  pub vacant : is_empty (read_entry c i) ≡ true
  pub before : (j : ℕ) → at ≤ j → j < i → is_empty (read_entry c j) ≡ false

abbrev pub IsFull : ℕ → ℕ → Chunk → Type 0
IsFull at n c = (j : ℕ) → at ≤ j → j < at + n → is_empty (read_entry c j) ≡ false

first_empty_from :
    (n at : ℕ) (c : Chunk)
    → ((i : ℕ) × IsFirstEmpty at n c i × (first_empty n at c ≡ some i))
      ⊎ (IsFull at n c × (first_empty n at c ≡ none))
unfolding first_empty
first_empty_from zero at c = inr (λ j lo hi. absurd (omega arith), refl)
first_empty_from (suc n) at c = elim (Bool-cases (is_empty (read_entry c at))) [
  | inl here ↦ inl (
    at,
    record {
      from = omega arith;
      to = omega arith;
      vacant = here;
      before = λ j lo hi. absurd (omega arith);
    },
    rw here,
  )
  | inr there ↦ elim (first_empty_from n (at + 1) c) [
    | inl (i, first, e) ↦ inl (
      i,
      record {
        from = omega (arith, first.from);
        to = omega (arith, first.to);
        vacant = first.vacant;
        before = λ j lo hi. ground (arith, there, first.before j);
      },
      rw there e,
    )
    | inr (full, e) ↦ inr (λ j lo hi. ground (arith, there, full j), rw there e)
  ]
]

-- The loop of an insertion stops at the first empty entry, and finds none only in a full chunk.
pub first_empty_cases :
    (c : Chunk)
    → ((i : ℕ) × IsFirstEmpty 0 chunk_entries c i × (first_empty chunk_entries 0 c ≡ some i))
      ⊎ (IsFull 0 chunk_entries c × (first_empty chunk_entries 0 c ≡ none))
first_empty_cases c = first_empty_from chunk_entries 0 c
