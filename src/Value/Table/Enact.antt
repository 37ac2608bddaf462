-- ===== src/Value/Table/Enact.antt =====
-- src/table.rs and src/file.rs: a slot that comes with the log is written to the file of the table, which grows
-- for it. The capacity of the file, an atomic of `TableFile`, is passed beside the table.
use blockchain_parity_db.Prelude.{
  ℕ, zero, suc, ◌+◌, ◌-◌, ◌*◌, ◌/◌, ◌≤◌, ◌<◌, ◌≡◌, refl, ap, ◌∙◌, inl, inr, Bool-cases, false, ◌&&◌,
  Option, none, some, [], ◌++◌, take, replicate, length, length-append, length-replicate, ltb, leb,
  ◌==◌, if◌then◌else◌, arith,
}
use blockchain_parity_db.Bytes.{Bytes, splice, slice-splice_self, length-splice}
use blockchain_parity_db.Outcome.{Result, ok, panic, stuck, ◌>>=◌}
use blockchain_parity_db.Log.Reader.{LogReader, read}
use blockchain_parity_db.Value.Entry
use blockchain_parity_db.Value.Entry.{Entry, size_size, index_size}
use blockchain_parity_db.Value.Table.{ValueTable, read_at}
use blockchain_parity_db.Value.Table.Open.{grow_size_bytes}

-- `set_len`, and the bytes that `write_all_at` adds where it writes past the end
abbrev pub set_len : ℕ → Bytes → Bytes
set_len n file = take n (file ++ replicate (n - length file) 0)

abbrev pub extend_to : ℕ → Bytes → Bytes
extend_to n file = file ++ replicate (n - length file) 0

-- `TableFile::write_at`
unfoldable pub write_at : Bytes → ℕ → Option Bytes → Result (Option Bytes)
write_at bs offset none = panic
write_at bs offset (some file) = ok (some (splice offset bs (extend_to (offset + length bs) file)))

abbrev pub or_created : Option Bytes → Bytes
or_created none = []
or_created (some file) = file

-- `TableFile::grow`: the file, which is created if there is none, and the new capacity
unfoldable pub grow : ℕ → Option Bytes × ℕ → Option Bytes × ℕ
grow entry_size (file, capacity) =
    let more : ℕ = capacity + grow_size_bytes / entry_size in
    (some (set_len (more * entry_size) (or_created file)), more)

-- The first loop of `enact_plan`
unfoldable pub grow_loop : ℕ → ℕ → ℕ → Option Bytes × ℕ → Result (Option Bytes × ℕ)
grow_loop zero index entry_size file = stuck
grow_loop (suc fuel) index entry_size file =
    let more = grow_loop fuel index entry_size (grow entry_size file) in
    if leb file.1 index then more else ok file

-- The rest of a slot behind its first two bytes
unfoldable pub rest_size : ValueTable → Entry → Result ℕ
rest_size t buf =
    if Entry.is_tombstone buf
    then ok index_size
    else if t.multipart && Entry.is_multi t.db_version buf
    then ok (t.entry_size - size_size)
    else do
      ((size, compressed), buf') ← Entry.read_size buf
      if ltb 0x8000 (size_size + size) then panic else ok size

-- What the record has for a slot; slot 0 is the header.
unfoldable pub read_slot : ℕ → ValueTable → LogReader → Result (Bytes × LogReader)
read_slot index t r = if index == 0 then read 16 r else do
  (head, r₁) ← read size_size r
  size ← rest_size t (Entry.new head)
  (rest, r₂) ← read size r₁
  ok (head ++ rest, r₂)

-- `enact_plan`
unfoldable pub enact_plan :
    ℕ → ℕ → ValueTable × ℕ → LogReader → Result ((ValueTable × ℕ) × LogReader)
enact_plan fuel index (t, capacity) r = do
  (file, capacity') ← grow_loop fuel index t.entry_size (t.file, capacity)
  (bs, r') ← read_slot index t r
  file' ← write_at bs (index * t.entry_size) file
  ok ((record t { file = file' }, capacity'), r')

length-extend_to : (n : ℕ) (file : Bytes) → n ≤ length (extend_to n file)
length-extend_to n file = omega (
  arith,
  length-append file (replicate (n - length file) 0),
  length-replicate (n - length file) (let z : ℕ = 0 in z),
)

-- What is written is read back.
read_at-write_at :
    (bs : Bytes) (offset : ℕ) (file file' : Option Bytes)
    → write_at bs offset file ≡ ok file'
    → read_at file' offset (length bs) ≡ ok bs
unfolding write_at read_at
read_at-write_at bs offset none file' e = cc
read_at-write_at bs offset (some file) file' e =
    let all = extend_to (offset + length bs) file in
    let new : file' ≡ some (splice offset bs all) = cc in
    let room = length-extend_to (offset + length bs) file in
    let same : length (splice offset bs all) ≡ length all = length-splice offset bs all room in
    let inside : ltb (length (splice offset bs all)) (offset + length bs) ≡ false =
      ground (arith, same, room) in
    ap (λ f. read_at f offset (length bs)) new
    ∙ rw inside (
        ap (λ (x : Bytes). ok x)
          (slice-splice_self offset (length bs) bs all refl (omega (arith, room))))

-- The file of a table is missing only while it has no room.
abbrev pub IsBacked : Option Bytes → ℕ → Type 0
IsBacked none capacity = capacity ≡ 0
IsBacked (some file) capacity = Unit

backed :
    (file : Option Bytes) (capacity index : ℕ)
    → IsBacked file capacity
    → index < capacity
    → (f : Bytes) × (file ≡ some f)
backed none capacity index b h = absurd (omega (arith, b))
backed (some f) capacity index b h = (f, refl)

-- The loop ends after as many rounds as the capacity is short of the slot.
grow_loop_enough :
    (fuel index entry_size : ℕ) (file : Option Bytes) (capacity : ℕ)
    → 0 < grow_size_bytes / entry_size
    → index < capacity + fuel
    → IsBacked file capacity
    → (f : Bytes) × (capacity' : ℕ) × (grow_loop (suc fuel) index entry_size (file, capacity)
        ≡ ok (some f, capacity'))
      × (index < capacity')
unfolding grow_loop grow
grow_loop_enough zero index entry_size file capacity step room b =
    let h : index < capacity = omega (arith, room) in
    let (f, same) = backed file capacity index b h in
    let test : leb capacity index ≡ false = ground (arith, h) in
    (f, capacity, rw (test, same) refl, h)
grow_loop_enough (suc fuel) index entry_size file capacity step room b =
    elim (Bool-cases (leb capacity index)) [
      | inl short ↦
          let more : ℕ = capacity + grow_size_bytes / entry_size in
          let (f, capacity', got, h) =
            grow_loop_enough fuel index entry_size
              (some (set_len (more * entry_size) (or_created file))) more step
              (omega (arith, room, step)) tt in
          (f, capacity', rw short got, h)
      | inr enough ↦
          let h : index < capacity = ground (arith, enough) in
          let (f, same) = backed file capacity index b h in (f, capacity, rw (enough, same) refl, h)
    ]

-- A slot is enacted, with fuel for the rounds in which the file grows: the table has room for it then, and the
-- file holds at the slot's place the bytes that the record has for it, whatever their kind. An entry has at
-- most as many bytes as the file grows by at once, and the file is missing only if its capacity is zero.
pub read_at-enact_plan :
    (fuel index capacity : ℕ) (t : ValueTable) (r r' : LogReader) (bs : Bytes)
    → read_slot index t r ≡ ok (bs, r')
    → 0 < grow_size_bytes / t.entry_size
    → index < capacity + fuel
    → IsBacked t.file capacity
    → (t' : ValueTable) × (capacity' : ℕ) × (enact_plan (suc fuel) index (t, capacity) r
        ≡ ok ((t', capacity'), r'))
      × (read_at t'.file (index * t.entry_size) (length bs) ≡ ok bs)
      × (index < capacity')
unfolding enact_plan write_at
read_at-enact_plan fuel index capacity t r r' bs got step room b =
    let (f, capacity', grown, h) =
      grow_loop_enough fuel index t.entry_size t.file capacity step room b in
    let offset = index * t.entry_size in
    let file' : Option Bytes = some (splice offset bs (extend_to (offset + length bs) f)) in
    (
      record t { file = file' },
      capacity',
      rw (grown, got) refl,
      read_at-write_at bs offset (some f) file' refl,
      h,
    )
