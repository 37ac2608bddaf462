-- ===== src/Log/Files/Open.antt =====
-- src/log.rs, `Log::open`: the log files of the directory, sorted for the replay. A directory is the
-- numbers of its log files with their bytes, in the order in which it is read.
use blockchain_parity_db.Prelude.{
  ℕ, ◌+◌, ◌%◌, ◌^◌, ◌≤◌, ◌<◌, ◌≡◌, refl, true, false, Bool-cases, Option, none, some, inl, inr,
  List, [], ◌∷◌, length, ltb, leb, leb→le, if◌then◌else◌, arith,
}
use blockchain_parity_db.Bytes.{Bytes, from_le, slice}
use blockchain_parity_db.Outcome.{bind_ok, Result, ok, err, io, unexpected_eof, ◌>>=◌}
use blockchain_parity_db.Log.Files.{Replayable, Log, idle, replay_ids}
use blockchain_parity_db.Log.Files.Queues.Held.{count, located}
use blockchain_parity_db.Log.Files.Queues.Owned.{IsOwned}

-- The id of the first record; nine bytes must be there.
unfoldable pub open_log_file : Bytes → Result (Option ℕ)
open_log_file [] = ok none
open_log_file (b ∷ bs) =
    if ltb (length bs) 8 then err (io unexpected_eof) else ok (some (from_le (slice 0 8 bs)))

-- An empty file is removed.
unfoldable pub push_log : ℕ → Bytes → Option ℕ → List Replayable → List Replayable
push_log id content none logs = logs
push_log id content (some record_id) logs =
    record { id = id; record_id = record_id; file = record { content = content; position = 0 } }
    ∷ logs

unfoldable pub open_files : List (ℕ × Bytes) → Result (List Replayable)
open_files [] = ok []
open_files ((id, content) ∷ fs) = do
  first ← open_log_file content
  logs ← open_files fs
  ok (push_log id content first logs)

-- `sort_by_key(|(_id, record_id, _)| *record_id)`
unfoldable pub insert_by_record : Replayable → List Replayable → List Replayable
insert_by_record f [] = f ∷ []
insert_by_record f (g ∷ gs) =
    let rest = insert_by_record f gs in
    if leb f.record_id g.record_id then f ∷ (g ∷ gs) else g ∷ rest

unfoldable pub sort_by_record : List Replayable → List Replayable
sort_by_record [] = []
sort_by_record (f ∷ fs) = insert_by_record f (sort_by_record fs)

unfoldable pub max_log_id : List Replayable → ℕ
max_log_id [] = 0
max_log_id (f ∷ fs) = let m = max_log_id fs in if ltb m f.id then f.id else m

unfoldable pub first_free : List Replayable → ℕ
first_free [] = 0
first_free (f ∷ fs) = (max_log_id (f ∷ fs) + 1) % 2 ^ 32

unfoldable pub log_with : List Replayable → Log
log_with logs = record {
  overlays = record { index = []; value = []; last_record_id = [] };
  appending = none;
  reading = none;
  reading_state = idle;
  flushing = none;
  next_record_id = 1;
  dirty = true;
  log_pool = [];
  cleanup_queue = [];
  replay_queue = sort_by_record logs;
  next_log_id = first_free logs;
  dropped = [];
}

unfoldable pub open_logs : List (ℕ × Bytes) → Result Log
open_logs dir = do logs ← open_files dir; ok (log_with logs)

abbrev pub names : List (ℕ × Bytes) → List ℕ
names [] = []
names ((id, content) ∷ fs) = id ∷ names fs

count-insert_by_record :
    (i : ℕ) (f : Replayable) (gs : List Replayable)
    → count i (replay_ids (insert_by_record f gs)) ≡ count i (f.id ∷ replay_ids gs)
unfolding insert_by_record
count-insert_by_record i f [] = refl
count-insert_by_record i f (g ∷ gs) = elim (Bool-cases (leb f.record_id g.record_id)) [
  | inl before ↦ rw before refl
  | inr behind ↦ rw behind (omega (arith, count-insert_by_record i f gs))
]

count-sort_by_record :
    (i : ℕ) (fs : List Replayable)
    → count i (replay_ids (sort_by_record fs)) ≡ count i (replay_ids fs)
unfolding sort_by_record
count-sort_by_record i [] = refl
count-sort_by_record i (f ∷ fs) =
    omega (arith, count-insert_by_record i f (sort_by_record fs), count-sort_by_record i fs)

-- A number above all others stands nowhere.
count-max_log_id : (i : ℕ) (fs : List Replayable) → max_log_id fs < i → count i (replay_ids fs) ≡ 0
unfolding max_log_id
count-max_log_id i [] h = refl
count-max_log_id i (f ∷ fs) h = elim (Bool-cases (ltb (max_log_id fs) f.id)) [
  | inl larger ↦ ground (arith, count-max_log_id i fs)
  | inr smaller ↦ ground (arith, count-max_log_id i fs)
]

-- The largest number is one of them.
max_log_id-in :
    (f : Replayable) (fs : List Replayable) → 1 ≤ count (max_log_id (f ∷ fs)) (replay_ids (f ∷ fs))
unfolding max_log_id
max_log_id-in f [] = ground arith
max_log_id-in f (g ∷ fs) = ground (arith, max_log_id-in g fs)

fresh_id :
    (i : ℕ) (logs : List Replayable)
    → ((j : ℕ) → 2 ^ 32 ≤ j + 1 → count j (replay_ids logs) ≡ 0)
    → first_free logs ≤ i
    → count i (replay_ids logs) ≡ 0
unfolding first_free
fresh_id i [] small h = refl
fresh_id i (f ∷ fs) small h =
    count-max_log_id i (f ∷ fs) (below (max_log_id (f ∷ fs)) (small _) (max_log_id-in f fs) h)
  where
    below :
        (m : ℕ)
        → (2 ^ 32 ≤ m + 1 → count m (replay_ids (f ∷ fs)) ≡ 0)
        → 1 ≤ count m (replay_ids (f ∷ fs))
        → (m + 1) % 2 ^ 32 ≤ i
        → m < i
    below m small' there h' = elim (Bool-cases (leb (2 ^ 32) (m + 1))) [
      | inl large ↦ absurd (omega (arith, there, small' (leb→le _ _ large)))
      | inr fits ↦ inside (under _ _ fits)
    ]
      where
        under : (a b : ℕ) → leb a b ≡ false → b < a
        under a b h = ground arith

        inside : m + 1 < 2 ^ 32 → m < i
        inside h = omega (arith, h')

count-push_log :
    (i id : ℕ) (content : Bytes) (first : Option ℕ) (logs : List Replayable)
    → count i (replay_ids (push_log id content first logs)) ≤ count i (id ∷ replay_ids logs)
unfolding push_log
count-push_log i id content none logs = omega arith
count-push_log i id content (some record_id) logs = omega arith

count-open_files :
    (i : ℕ) (dir : List (ℕ × Bytes)) {logs : List Replayable}
    → open_files dir ≡ ok logs
    → count i (replay_ids logs) ≤ count i (names dir)
unfolding open_files
count-open_files i [] {logs} h = rw (← (nothing h)) (omega arith)
  where
    nothing : ◌≡◌ {A = Result (List Replayable)} (ok []) (ok logs) → [] ≡ logs
    nothing e = cc
count-open_files i ((id, content) ∷ fs) {logs} h =
    let (first, e₁, h₁) = bind_ok (open_log_file content) _ h in
    let (rest, e₂, h₂) = bind_ok (open_files fs) _ h₁ in
    let same : push_log id content first rest ≡ logs = cc in
    rw (← same) (omega (arith, count-push_log i id content first rest, count-open_files i fs e₂))

-- `Log::open` starts with one owner for each file, if the numbers of the directory's log files differ
-- and are below 2 ^ 32 - 1.
pub open_logs-IsOwned :
    (dir : List (ℕ × Bytes)) (s : Log)
    → ((i : ℕ) → count i (names dir) ≤ 1)
    → ((i : ℕ) → 2 ^ 32 ≤ i + 1 → count i (names dir) ≡ 0)
    → open_logs dir ≡ ok s
    → IsOwned s
unfolding open_logs
open_logs-IsOwned dir s once small h =
    let (logs, e, h') = bind_ok (open_files dir) _ h in
    let same : log_with logs ≡ s = cc in rw (← same) (owned logs e)
  where
    bounded :
        (logs : List Replayable)
        → open_files dir ≡ ok logs
        → (i : ℕ) → located i (log_with logs) ≤ count i (names dir)
    bounded logs e i =
        unfold log_with in omega (arith, count-sort_by_record i logs, count-open_files i dir e)

    unnamed :
        (logs : List Replayable)
        → open_files dir ≡ ok logs
        → (i : ℕ) → 2 ^ 32 ≤ i + 1
        → count i (replay_ids logs) ≡ 0
    unnamed logs e i large = omega (arith, count-open_files i dir e, small i large)

    owned : (logs : List Replayable) → open_files dir ≡ ok logs → IsOwned (log_with logs)
    owned logs e = record {
      once = λ i. omega (arith, bounded logs e i, once i);
      fresh = λ i h.
          unfold log_with in
          omega (
            arith,
            count-sort_by_record i logs,
            fresh_id i logs (unnamed logs e) (unfold log_with in h),
          );
    }
