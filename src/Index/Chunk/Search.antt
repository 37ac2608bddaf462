-- ===== src/Index/Chunk/Search.antt =====
-- The search in a chunk is a first match, and the place of an insertion is the first empty entry.
use blockchain_parity_db.Prelude.{
  ℕ, zero, suc, ◌+◌, ◌-◌, ◌≤◌, ◌<◌, ◌≡◌, refl, ◌⊎◌, inl, inr, true, false, Bool-cases, arith,
}
use blockchain_parity_db.Index.Chunk.{
  Chunk, chunk_entries, read_entry, holds_key, find_from, find_entry,
}
use blockchain_parity_db.Index.Entry.{empty, extract_key}

-- In the places `at .. at + n` the entry at `i` is the first that holds the key.
pub record IsFirst (bits key at n : ℕ) (c : Chunk) (i : ℕ) : Type 0 where
  pub from : at ≤ i
  pub to : i < at + n
  pub holds : holds_key bits key (read_entry c i) ≡ true
  pub before : (j : ℕ) → at ≤ j → j < i → holds_key bits key (read_entry c j) ≡ false

-- No entry in the places `at .. at + n` holds the key.
abbrev pub Nowhere : (bits key at n : ℕ) → Chunk → Type 0
Nowhere bits key at n c =
    (j : ℕ) → at ≤ j → j < at + n → holds_key bits key (read_entry c j) ≡ false

find_from_cases :
    (bits key n at : ℕ) (c : Chunk)
    → ((i : ℕ) × IsFirst bits key at n c i × (find_from bits key n at c ≡ (read_entry c i, i)))
      ⊎ (Nowhere bits key at n c × (find_from bits key n at c ≡ (empty, 0)))
unfolding find_from
find_from_cases bits key zero at c = inr (λ j lo hi. absurd (omega arith), refl)
find_from_cases bits key (suc n) at c = elim (Bool-cases (holds_key bits key (read_entry c at))) [
  | inl here ↦ inl (
    at,
    record {
      from = omega arith;
      to = omega arith;
      holds = here;
      before = λ j lo hi. absurd (omega arith);
    },
    rw here,
  )
  | inr there ↦ elim (find_from_cases bits key n (at + 1) c) [
    | inl (i, first, e) ↦ inl (
      i,
      record {
        from = omega (arith, first.from);
        to = omega (arith, first.to);
        holds = first.holds;
        before = λ j lo hi. ground (arith, there, first.before j);
      },
      rw there e,
    )
    | inr (nowhere, e) ↦ inr (λ j lo hi. ground (arith, there, nowhere j), rw there e)
  ]
]

-- `find_entry` returns the first entry from `sub_index` on that is not empty and has the partial
-- key of the prefix, with its place; if there is none it returns the empty entry.
pub find_entry_cases :
    (bits key_prefix sub_index : ℕ) (c : Chunk)
    → sub_index ≤ chunk_entries
    → let key = extract_key key_prefix bits in
      let n = chunk_entries - sub_index in
      ((i : ℕ) × IsFirst bits key sub_index n c i
        × (find_entry bits key_prefix sub_index c ≡ (read_entry c i, i)))
      ⊎ (Nowhere bits key sub_index n c × (find_entry bits key_prefix sub_index c ≡ (empty, 0)))
unfolding find_entry
find_entry_cases bits key_prefix sub_index c h =
    find_from_cases bits (extract_key key_prefix bits) (chunk_entries - sub_index) sub_index c
