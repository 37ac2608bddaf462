-- ===== src/Column/Stored.antt =====
-- A value that a column writes is the value that it reads.
use mathlib.Core.Path.{subst}
use mathlib.Core.Option.{some-injective}
use blockchain_parity_db.Prelude.{
  ℕ, zero, suc, ◌+◌, ◌-◌, ◌^◌, ◌≤◌, ◌<◌, ◌≡◌, refl, sym, ap, ◌∙◌, ◌⊎◌, inl, inr, Bool, true, false,
  Bool-cases, ◌&&◌, Option, none, some, List, [], ◌∷◌, get_elem?, set, get_elem?-set_self, length,
  ltb, if◌then◌else◌, arith,
}
use blockchain_parity_db.Bytes.{Bytes, Memory}
use blockchain_parity_db.Outcome.{Result, ok, ◌>>=◌, bind_ok}
use blockchain_parity_db.Index.Address
use blockchain_parity_db.Index.Address.{Address}
use blockchain_parity_db.Log.Overlay.{LogWriter, LogWriter_query}
use blockchain_parity_db.Value.Key.{TableKey, partial, no_hash, check, encoded_size}
use blockchain_parity_db.Value.Table.{ValueTable}
use blockchain_parity_db.Value.Parts.{query, get}
use blockchain_parity_db.Value.Parts
use blockchain_parity_db.Value.Parts.Slot.{IsTableKey}
use blockchain_parity_db.Value.Write.{write_insert_plan}
use blockchain_parity_db.Value.Write.RoundTrip.{
  total_len, ref_size-bound, HasRoom, GetsBack, get-write_insert_plan_chain,
  get-write_insert_plan_fits,
}
use blockchain_parity_db.Column.Compression.{Codecs, Compress, compress, decompress}
use blockchain_parity_db.Column.Values.{
  compressed_value, compress_for, target_tier, plain_value, get_value, write_new_value_plan,
}
use blockchain_parity_db.Column.Tiers.{target_tier_cases}
use blockchain_parity_db.Column.{TablesRef, table_at}

-- What the codecs promise: what is compressed can be decompressed.
abbrev pub IsCodec : Codecs → Compress → Type 0
IsCodec codecs z = (value : Bytes) → decompress codecs z (compress codecs z value) ≡ ok value

-- The tiers of a column: 256 at most, of entries from 32 to 0x7ff8 bytes, of which the last has chains
pub record IsTiers (ts : List ValueTable) : Type 0 where
  pub some_tier : 0 < length ts
  pub few : length ts ≤ 256
  pub each :
      (i : ℕ) (t : ValueTable)
      → get_elem? ts i ≡ some t
      → (6 < t.db_version) × (32 ≤ t.entry_size) × (t.entry_size ≤ 0x7ff8)
  pub blob :
      (t : ValueTable)
      → get_elem? ts (length ts - 1) ≡ some t
      → (t.multipart ≡ true) × (40 < t.entry_size)

-- Bytes and a flag that a value is read from
abbrev LeadsBack : Codecs → Compress → Bytes → Bytes × Bool → Type 0
LeadsBack codecs z value p =
    ((if p.1 then decompress codecs z (p.0) else ok (p.0)) ≡ ok value)
    × (length (p.0) ≤ length value)

module _ (codecs : Codecs) (z : Compress) (codec : IsCodec codecs z) (value : Bytes) where
  compressed_value_cases :
      ((compressed_value codecs z value ≡ (compress codecs z value, true))
        × (length (compress codecs z value) ≤ length value))
      ⊎ (compressed_value codecs z value ≡ (value, false))
  unfolding compressed_value
  compressed_value_cases =
      elim (Bool-cases
        (ltb z.threshold (length value) && ltb (length (compress codecs z value)) (length value))) [
          | inl shorter ↦ inl (rw shorter refl, shorter_lem shorter)
          | inr plain ↦ inr (rw plain refl)
        ]
    where
      shorter_lem :
          ltb z.threshold (length value) && ltb (length (compress codecs z value)) (length value)
            ≡ true
          → length (compress codecs z value) ≤ length value
      shorter_lem e = ground (arith, e)

  -- The value that is written leads back to the value, and it is not longer.
  decompress-compressed_value : LeadsBack codecs z value (compressed_value codecs z value)
  decompress-compressed_value = elim compressed_value_cases [
    | inl (short, less) ↦ subst (LeadsBack codecs z value) (sym short) (codec value, less)
    | inr plain ↦ subst (LeadsBack codecs z value) (sym plain) (refl, omega arith)
  ]

-- `get` is the value of `query`.
query-get :
    (u : Memory) (fuel : ℕ) (t : ValueTable) (key : TableKey) (index : ℕ) (w : LogWriter)
    (value : Bytes) (compressed : Bool)
    → get u fuel t key index w ≡ ok (some (value, compressed))
    → (rc : ℕ) × (k : Bytes) × (query u fuel t (check key) index w
        ≡ ok (some (value, compressed, rc), k))
unfolding get Parts.get_value
query-get u fuel t key index w value compressed e =
    let ((found, k), queried, got) =
      bind_ok (query u fuel t (check key) index w) (λ x. ok (Parts.get_value (x.0))) e in
    let (rc, same) = from_found found got in (rc, k, queried ∙ ap (λ f. ok (f, k)) same)
  where
    from_found :
        (found : Option (Bytes × Bool × ℕ))
        → ok (Parts.get_value found) ≡ ok (some (value, compressed))
        → (rc : ℕ) × (found ≡ some (value, compressed, rc))
    from_found none p = cc
    from_found (some (v, c, rc)) p = (rc, cc)

target-lt :
    (ts : List ValueTable) (target : ℕ) (t : ValueTable)
    → get_elem? ts target ≡ some t
    → target < length ts
target-lt [] target t e = cc
target-lt (x ∷ ts) zero t e = omega arith
target-lt (x ∷ ts) (suc target) t e = omega (arith, target-lt ts target t e)

encoded_size-bound : (key : TableKey) → encoded_size key ≤ 26
unfolding encoded_size
encoded_size-bound (partial k) = omega arith
encoded_size-bound no_hash = omega arith

module _ (codecs : Codecs) (u : Memory) (fuel : ℕ) (key : TableKey) (ts : TablesRef) (w : LogWriter)
    (len : IsTableKey key) (tiers : IsTiers ts.tables) where
  tier_there :
      (n : ℕ) → (t : ValueTable) × (get_elem? ts.tables (target_tier key n ts.tables) ≡ some t)
  tier_there n = elim (target_tier_cases key n ts.tables tiers.some_tier).1 [
    | inl (t, there, fits) ↦ (t, there)
    | inr (last, there) ↦ rw last there
  ]

  -- A write to the tier of a value
  tier-GetsBack :
      (bytes : Bytes) (flag : Bool) (t : ValueTable) (xs : List ℕ)
      → get_elem? ts.tables (target_tier key (length bytes) ts.tables) ≡ some t
      → HasRoom u t key bytes w xs
      → length bytes + 30 < fuel
      → GetsBack u fuel t key bytes flag w xs (write_insert_plan u fuel t key bytes w flag)
  tier-GetsBack bytes flag t xs at room enough =
      let (before, cases) = target_tier_cases key (length bytes) ts.tables tiers.some_tier in
      let (version, large, small) = tiers.each (target_tier key (length bytes) ts.tables) t at in
      let total : total_len t key bytes < fuel =
        omega (arith, enough, ref_size-bound t, encoded_size-bound key) in
      elim cases [
        | inl (s, there, fits) ↦
            let same : s ≡ t = some-injective s t (sym there ∙ at) in
            get-write_insert_plan_fits u fuel fuel t key bytes flag w xs version large small len
              (rw same at fits) room (omega (arith, enough)) (omega (arith, enough))
        | inr (last, there) ↦
            let (multi, chain) = tiers.blob t (rw last at at) in
            get-write_insert_plan_chain u fuel fuel t key bytes flag w xs
              (record { multi = multi; version = version; large = chain; small = small; len = len })
              room total total
      ]

  -- The end of `write_new_value_plan`
  abbrev placed : ℕ → ℕ × ValueTable × LogWriter → Result (Address × List ValueTable × LogWriter)
  placed target x = ok (Address.new (x.0) target, set ts.tables target (x.1), x.2)

  -- What `get_value` makes of the bytes that `get` reads from the slot
  get_value-GetsBack :
      (bytes : Bytes) (flag : Bool) (t : ValueTable) (target : ℕ) (xs : List ℕ) (value : Bytes)
      → get_elem? ts.tables target ≡ some t
      → t.filled < 2 ^ 56
      → LeadsBack codecs ts.compression value (bytes, flag)
      → {r : Result (ℕ × ValueTable × LogWriter)} → GetsBack u fuel t key bytes flag w xs r
      → (address : Address) × (tables : List ValueTable) × (w' : LogWriter) × ((r >>= placed target)
          ≡ ok (address, tables, w'))
        × (get_value codecs u fuel (check key) address (record ts { tables = tables }) w'
            ≡ ok (some (target, value)))
  unfolding get_value table_at plain_value
  get_value-GetsBack bytes flag t target xs value at small back
        (index, t', w', wrote, got, below, kept, freed) =
      let (rc, k, queried) = query-get u fuel t' key index w' bytes flag got in
      let lt = target-lt ts.tables target t at in
      let (off, tier, nonzero) =
        Address.new_fields index target (omega (arith, below, small))
          (omega (arith, lt, tiers.few)) in
      (
        Address.new index target,
        set ts.tables target t',
        w',
        rw wrote refl,
        rw (off, tier, get_elem?-set_self ts.tables target t' lt, queried, back.0) refl,
      )

  -- A new value of a column is written to the first size tier that has slots for it, or to the chain of slots
  -- of the last tier; and `get_value` reads the same value at the address that `write_new_value_plan` returns,
  -- from the tier of the address: compressed or not, whatever the libraries' codecs do as long as they decompress
  -- what they compress. There are 256 tiers at most, of entries from 32 to 0x7ff8 bytes and of a version after
  -- 6, of which the last has chains; the key is one of 32 bytes or none; the free list of each tier has distinct slots
  -- below `filled`, which is below 2 ^ 56, and there is room for the value; and the fuel is more than the
  -- bytes of the value and 30.
  pub get_value-write_new_value_plan :
      (value : Bytes)
      → IsCodec codecs ts.compression
      → ((i : ℕ) (t : ValueTable)
          → get_elem? ts.tables i ≡ some t
          → (t.filled < 2 ^ 56) × ((xs : List ℕ) × HasRoom u t key value w xs))
      → length value + 30 < fuel
      → (address : Address) × (tables : List ValueTable) × (w' : LogWriter) × (write_new_value_plan
            codecs u fuel key ts value w
          ≡ ok (address, tables, w'))
        × (get_value codecs u fuel (check key) address (record ts { tables = tables }) w'
            ≡ ok (
                some (
                  target_tier key
                      (length ((compressed_value codecs ts.compression value).0))
                      ts.tables,
                  value,
                )))
  unfolding write_new_value_plan compress_for table_at
  get_value-write_new_value_plan value codec rooms enough =
      let p = compressed_value codecs ts.compression value in
      let back = decompress-compressed_value codecs ts.compression codec value in
      let target = target_tier key (length (p.0)) ts.tables in
      let (t, at) = tier_there (length (p.0)) in
      let (small, (xs, room)) = rooms target t at in
      let room' : HasRoom u t key (p.0) w xs = record {
        some_used = room.some_used;
        room = omega (arith, room.room, back.1);
        fresh = room.fresh;
        list = room.list;
      } in
      let gets = tier-GetsBack (p.0) (p.1) t xs at room' (omega (arith, enough, back.1)) in
      rw at (get_value-GetsBack (p.0) (p.1) t target xs value at small back gets)
