-- ===== src/Column/Open.antt =====
-- src/column.rs, `Column::open` as far as its value tables: one for each size tier.
use mathlib.Core.Option.{some-injective}
use blockchain_parity_db.Prelude.{
  ℕ, zero, suc, ◌+◌, ◌-◌, ◌<◌, ◌≡◌, refl, Bool, Option, some, List, [], ◌∷◌, get_elem?, length,
  arith,
}
use blockchain_parity_db.Bytes.{Bytes}
use blockchain_parity_db.Outcome.{Result, ok, bind_ok, ◌>>=◌}
use blockchain_parity_db.Index.TableId
use blockchain_parity_db.Value.Table.{ValueTable}
use blockchain_parity_db.Value.Table.Open.{
  IsOpened, open_value_table, open_value_table-IsOpened, size_or_blob, is_blob,
}
use blockchain_parity_db.Column.Stored.{IsTiers}

abbrev pub size_tiers : ℕ
size_tiers = 256

-- The entry sizes of all tiers but the last
abbrev pub sizes : List ℕ
sizes =
    32 ∷ 33 ∷ 34 ∷ 35 ∷ 36 ∷ 37 ∷ 38 ∷ 39 ∷ 40 ∷ 41 ∷ 42 ∷ 43 ∷ 44 ∷ 46 ∷ 47 ∷ 48 ∷ 50 ∷ 51 ∷ 52
    ∷ 54 ∷ 55 ∷ 57 ∷ 58 ∷ 60 ∷ 62 ∷ 63 ∷ 65 ∷ 67 ∷ 69 ∷ 71 ∷ 73 ∷ 75 ∷ 77 ∷ 79 ∷ 81 ∷ 83 ∷ 85 ∷ 88
    ∷ 90 ∷ 93 ∷ 95 ∷ 98 ∷ 101 ∷ 103 ∷ 106 ∷ 109 ∷ 112 ∷ 115 ∷ 119 ∷ 122 ∷ 125 ∷ 129 ∷ 132 ∷ 136
    ∷ 140 ∷ 144 ∷ 148 ∷ 152 ∷ 156 ∷ 160 ∷ 165 ∷ 169 ∷ 174 ∷ 179 ∷ 183 ∷ 189 ∷ 194 ∷ 199 ∷ 205 ∷ 210
    ∷ 216 ∷ 222 ∷ 228 ∷ 235 ∷ 241 ∷ 248 ∷ 255 ∷ 262 ∷ 269 ∷ 276 ∷ 284 ∷ 292 ∷ 300 ∷ 308 ∷ 317 ∷ 325
    ∷ 334 ∷ 344 ∷ 353 ∷ 363 ∷ 373 ∷ 383 ∷ 394 ∷ 405 ∷ 416 ∷ 428 ∷ 439 ∷ 452 ∷ 464 ∷ 477 ∷ 490 ∷ 504
    ∷ 518 ∷ 532 ∷ 547 ∷ 562 ∷ 577 ∷ 593 ∷ 610 ∷ 627 ∷ 644 ∷ 662 ∷ 680 ∷ 699 ∷ 718 ∷ 738 ∷ 758 ∷ 779
    ∷ 801 ∷ 823 ∷ 846 ∷ 869 ∷ 893 ∷ 918 ∷ 943 ∷ 969 ∷ 996 ∷ 1024 ∷ 1052 ∷ 1081 ∷ 1111 ∷ 1142 ∷ 1174
    ∷ 1206 ∷ 1239 ∷ 1274 ∷ 1309 ∷ 1345 ∷ 1382 ∷ 1421 ∷ 1460 ∷ 1500 ∷ 1542 ∷ 1584 ∷ 1628 ∷ 1673
    ∷ 1720 ∷ 1767 ∷ 1816 ∷ 1866 ∷ 1918 ∷ 1971 ∷ 2025 ∷ 2082 ∷ 2139 ∷ 2198 ∷ 2259 ∷ 2322 ∷ 2386
    ∷ 2452 ∷ 2520 ∷ 2589 ∷ 2661 ∷ 2735 ∷ 2810 ∷ 2888 ∷ 2968 ∷ 3050 ∷ 3134 ∷ 3221 ∷ 3310 ∷ 3402
    ∷ 3496 ∷ 3593 ∷ 3692 ∷ 3794 ∷ 3899 ∷ 4007 ∷ 4118 ∷ 4232 ∷ 4349 ∷ 4469 ∷ 4593 ∷ 4720 ∷ 4850
    ∷ 4984 ∷ 5122 ∷ 5264 ∷ 5410 ∷ 5559 ∷ 5713 ∷ 5871 ∷ 6034 ∷ 6200 ∷ 6372 ∷ 6548 ∷ 6729 ∷ 6916
    ∷ 7107 ∷ 7303 ∷ 7506 ∷ 7713 ∷ 7927 ∷ 8146 ∷ 8371 ∷ 8603 ∷ 8841 ∷ 9085 ∷ 9337 ∷ 9595 ∷ 9860
    ∷ 10133 ∷ 10413 ∷ 10702 ∷ 10998 ∷ 11302 ∷ 11614 ∷ 11936 ∷ 12266 ∷ 12605 ∷ 12954 ∷ 13312 ∷ 13681
    ∷ 14059 ∷ 14448 ∷ 14848 ∷ 15258 ∷ 15681 ∷ 16114 ∷ 16560 ∷ 17018 ∷ 17489 ∷ 17973 ∷ 18470 ∷ 18981
    ∷ 19506 ∷ 20046 ∷ 20600 ∷ 21170 ∷ 21756 ∷ 22358 ∷ 22976 ∷ 23612 ∷ 24265 ∷ 24936 ∷ 25626 ∷ 26335
    ∷ 27064 ∷ 27812 ∷ 28582 ∷ 29372 ∷ 30185 ∷ 31020 ∷ 31878 ∷ 32760 ∷ []

-- `(0..SIZE_TIERS).map(open_table).collect()`, from a tier on. The files are given by their tiers.
unfoldable pub open_tables : ℕ → ℕ → ℕ → Bool → ℕ → (ℕ → Option Bytes) → Result (List ValueTable)
open_tables zero tier col ref_counted db_version files = ok []
open_tables (suc left) tier col ref_counted db_version files = do
  t ←
      open_value_table (TableId.new col tier) (get_elem? sizes tier) ref_counted db_version
        (files tier)
  ts ← open_tables left (tier + 1) col ref_counted db_version files
  ok (t ∷ ts)

-- Tables that were opened one after the other, from a tier on
abbrev pub AreOpened : ℕ → ℕ → List ValueTable → Type 0
AreOpened db_version tier [] = Unit
AreOpened db_version tier (t ∷ ts) =
    IsOpened t (size_or_blob (get_elem? sizes tier)) (is_blob (get_elem? sizes tier)) db_version
    × AreOpened db_version (tier + 1) ts

open_tables-AreOpened :
    (left tier col : ℕ) (ref_counted : Bool) (db_version : ℕ) (files : ℕ → Option Bytes)
    (ts : List ValueTable)
    → open_tables left tier col ref_counted db_version files ≡ ok ts
    → AreOpened db_version tier ts × (length ts ≡ left)
unfolding open_tables
open_tables-AreOpened zero tier col ref_counted db_version files [] e = (tt, refl)
open_tables-AreOpened zero tier col ref_counted db_version files (t ∷ ts) e = cc
open_tables-AreOpened (suc left) tier col ref_counted db_version files ts e =
    let (t, opened, e₁) =
      bind_ok
        (open_value_table (TableId.new col tier) (get_elem? sizes tier) ref_counted db_version
          (files tier))
        (λ (t : ValueTable).
          open_tables left (tier + 1) col ref_counted db_version files
          >>= (λ (us : List ValueTable). ok (t ∷ us)))
        e in
    let (us, rest, e₂) =
      bind_ok (open_tables left (tier + 1) col ref_counted db_version files)
        (λ (us : List ValueTable). ok (t ∷ us)) e₁ in
    let (all, count) =
      open_tables-AreOpened left (tier + 1) col ref_counted db_version files us rest in
    let same : ts ≡ t ∷ us = cc in
    rw same (
      (
        open_value_table-IsOpened (TableId.new col tier) (get_elem? sizes tier) ref_counted
            db_version (files tier) t opened,
        all,
      ),
      omega (arith, count),
    )

AreOpened-get_elem? :
    (db_version tier i : ℕ) (ts : List ValueTable) (t : ValueTable)
    → AreOpened db_version tier ts
    → get_elem? ts i ≡ some t
    → IsOpened t
        (size_or_blob (get_elem? sizes (tier + i)))
        (is_blob (get_elem? sizes (tier + i)))
        db_version
AreOpened-get_elem? db_version tier i [] t all e = cc
AreOpened-get_elem? db_version tier zero (u ∷ us) t (first, rest) e =
    let n : tier + 0 ≡ tier = omega arith in
    let same : u ≡ t = some-injective u t e in rw n (rw same at first)
AreOpened-get_elem? db_version tier (suc i) (u ∷ us) t (first, rest) e =
    let n : tier + suc i ≡ tier + 1 + i = omega arith in
    rw n (AreOpened-get_elem? db_version (tier + 1) i us t rest e)

pub open_tables-IsTiers :
    (col : ℕ) (ref_counted : Bool) (db_version : ℕ) (files : ℕ → Option Bytes)
    (ts : List ValueTable)
    → 6 < db_version
    → open_tables size_tiers 0 col ref_counted db_version files ≡ ok ts
    → IsTiers ts
open_tables-IsTiers col ref_counted db_version files ts recent e =
    let (all, count) = open_tables-AreOpened size_tiers 0 col ref_counted db_version files ts e in
    let opened = λ (i : ℕ) (t : ValueTable) (at : get_elem? ts i ≡ some t).
      AreOpened-get_elem? db_version 0 i ts t all at in
    record {
      some_tier = omega (arith, count);
      few = omega (arith, count);
      each = λ i t at.
          let o = opened i t at in
          (
            omega (arith, o.version, recent),
            omega (arith, o.least, o.sized),
            let most = o.most (omega (arith, recent)) in omega (arith, most, o.sized),
          );
      blob = λ t at.
          let last : length ts - 1 ≡ 255 = omega (arith, count) in
          let o = opened 255 t (rw last at at) in (o.chained, omega (arith, o.sized));
    }
