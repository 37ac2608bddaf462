-- ===== src/Log/Files/Queues/Owned.antt =====
-- The operations of `Log` as steps, and who owns a log file on the way.
use mathlib.Core.Path.{subst}
use blockchain_parity_db.Prelude.{
  ℕ, ◌+◌, ◌%◌, ◌^◌, ◌≤◌, ◌<◌, ◌≡◌, refl, sym, ap, ◌∙◌, Bool, Bool-cases, Option-cases, Option, none,
  some, inl, inr, ◌⊎◌, List, [], ◌∷◌, ◌==◌, arith,
}
use blockchain_parity_db.Outcome.{Error, err, stuck, IoError, unexpected_eof, Result, ok, panic}
use blockchain_parity_db.Log.Overlay.{LogChange}
use blockchain_parity_db.Log.Reader.{Crc32, Cleared, LogReader, LogAction, new, next}
use blockchain_parity_db.Log.Files.{
  Appending, Numbered, Log, reading, idle, ids, begin_record, clear_replay_logs, activate,
  activate_pool, append_record, end_record, end_read,
}
use blockchain_parity_db.Log.Files.Queues.{
  flush_one, replay_next, clean_logs, kill_logs, put_back, first_action, read_next,
}
use blockchain_parity_db.Log.Files.Queues.Held.{
  ReadingState-cases, count, appending_ids, located, located-flush_one, located-replay_next,
  located-clean_logs, located-kill_logs, located-clear_replay_logs, located-put_back,
  flush_one-next_log_id, replay_next-next_log_id, clean_logs-next_log_id, put_back-next_log_id,
}

module _ ⦃crc : Crc32⦄ where
  -- What the threads of the database, and its opening and closing, do to the log
  pub data Step (s : Log) : Log → Type 0 where
    begins : Step s (begin_record s).1
    ends :
        {n : ℕ} {t : Log} (log : LogChange)
        → s.next_log_id + 1 < 2 ^ 32
        → end_record log s ≡ ok (n, t)
        → Step s t
    read_ends : (c : Cleared) (id : ℕ) → Step s (end_read c id s)
    flushes :
        {out : Bool × Bool × Bool} {t : Log} (m : ℕ) → flush_one m s ≡ some (out, t) → Step s t
    replays : Step s (replay_next s).1
    cleans : {more : Bool} {t : Log} (n : ℕ) → clean_logs n s ≡ ok (more, t) → Step s t
    reads : {o : Option LogReader} {t : Log} (v : Bool) → read_next v s ≡ ok (o, t) → Step s t
    puts_back : (r : LogReader) → Step s (put_back r s)
    clears : Step s (clear_replay_logs s)
    kills : Step s (kill_logs s)

  pub data Steps (s : Log) : Log → Type 0 where
    done : Steps s s
    then_step : {t u : Log} → Steps s t → Step t u → Steps s u

-- No number stands twice, and none that is still to be given out stands anywhere.
pub record IsOwned (s : Log) : Type 0 where
  pub once : (i : ℕ) → located i s ≤ 1
  pub fresh : (i : ℕ) → s.next_log_id ≤ i → located i s ≡ 0

-- Every number is where it was, or it is a new one.
record Grows (s t : Log) : Type 0 where
  next_up : s.next_log_id ≤ t.next_log_id
  moves :
      (i : ℕ)
      → (located i t ≡ located i s)
        ⊎ ((s.next_log_id ≤ i) × (i < t.next_log_id) × (located i t ≤ located i s + 1))

IsOwned-Grows : {s t : Log} → Grows s t → IsOwned s → IsOwned t
IsOwned-Grows {s} {t} g o = record { once = one; fresh = unused }
  where
    one : (i : ℕ) → located i t ≤ 1
    one i = elim (g.moves i) [
      | inl e ↦ omega (arith, e, o.once i)
      | inr (lo, hi, e) ↦ omega (arith, e, o.fresh i lo)
    ]

    unused : (i : ℕ) → t.next_log_id ≤ i → located i t ≡ 0
    unused i h = elim (g.moves i) [
      | inl e ↦ e ∙ o.fresh i (omega (arith, g.next_up, h))
      | inr (lo, hi, e) ↦ absurd (omega arith)
    ]

stays :
    {s t : Log} → t.next_log_id ≡ s.next_log_id → ((i : ℕ) → located i t ≡ located i s) → Grows s t
stays e f = record { next_up = omega (arith, e); moves = λ i. inl (f i) }

-- A file number is given out by `end_record` at most.
activate_pool-Grows :
    (s : Log) (fs : List Numbered)
    → s.next_log_id + 1 < 2 ^ 32
    → s.appending ≡ none
    → s.log_pool ≡ fs
    → (i : ℕ)
    → let (a, t) = activate_pool fs s in
      (s.next_log_id ≤ t.next_log_id)
      × ((count i (a.id ∷ []) + located i t ≡ located i s)
          ⊎ ((s.next_log_id ≤ i)
              × (i < t.next_log_id)
              × (count i (a.id ∷ []) + located i t ≤ located i s + 1)))
unfolding activate_pool
activate_pool-Grows s [] small none_open e i = elim (Bool-cases (s.next_log_id == i)) [
  | inl new ↦ (omega arith, inr (ground arith))
  | inr old ↦ (omega arith, inl (ground arith))
]
activate_pool-Grows s (f ∷ fs) small none_open e i =
    (omega arith, inl (omega (arith, ap (λ t. count i (ids t)) e)))

activate_pool-appending :
    (fs : List Numbered) (s : Log) → (activate_pool fs s).1.appending ≡ s.appending
unfolding activate_pool
activate_pool-appending [] s = refl
activate_pool-appending (f ∷ fs) s = refl

module _ ⦃crc : Crc32⦄ where
  same_state :
      {s u t : Log} {p o : Option LogReader}
      → Grows s u
      → ◌≡◌ {A = Result (Option LogReader × Log)} (ok (p, u)) (ok (o, t))
      → Grows s t
  same_state {s} {u} {t} {p} {o} g e = subst (Grows s) (by e) g
    where
      by : ◌≡◌ {A = Result (Option LogReader × Log)} (ok (p, u)) (ok (o, t)) → u ≡ t
      by q = cc

  first_action-Grows :
      (x : Result (LogAction × LogReader)) (s t : Log) {o : Option LogReader}
      → first_action x s ≡ ok (o, t)
      → Grows s t
  unfolding first_action
  first_action-Grows (ok (LogAction.begin_record, r)) s t {o} h =
      same_state (stays refl (λ i. refl)) h
  first_action-Grows (ok (LogAction.insert_index table index, r)) s t h = cc
  first_action-Grows (ok (LogAction.insert_value table index, r)) s t h = cc
  first_action-Grows (ok (LogAction.drop_table table, r)) s t h = cc
  first_action-Grows (ok (LogAction.end_record, r)) s t h = cc
  first_action-Grows (err (Error.io unexpected_eof)) s t {o} h =
      same_state (stays refl (λ i. refl)) h
  first_action-Grows (err (Error.io IoError.other)) s t h = cc
  first_action-Grows (err (Error.corruption _)) s t h = cc
  first_action-Grows (err (Error.invalid_configuration _)) s t h = cc
  first_action-Grows (err (Error.invalid_input _)) s t h = cc
  first_action-Grows (err Error.invalid_value_data) s t h = cc
  first_action-Grows (err (Error.background _)) s t h = cc
  first_action-Grows (err (Error.locked _)) s t h = cc
  first_action-Grows (err (Error.migration _)) s t h = cc
  first_action-Grows (err Error.compression) s t h = cc
  first_action-Grows (err Error.database_not_found) s t h = cc
  first_action-Grows panic s t h = cc
  first_action-Grows stuck s t h = cc

  located-append_record :
      (i : ℕ) (log : LogChange) (a : Appending) (t : Log)
      → located i (append_record log (a, t)).1 + count i (appending_ids t.appending)
        ≡ count i (a.id ∷ []) + located i t
  unfolding append_record
  located-append_record i log a t = omega arith

  read_next-Grows :
      (v : Bool) (s t : Log) {o : Option LogReader} → read_next v s ≡ ok (o, t) → Grows s t
  unfolding read_next
  read_next-Grows v s t {o} h = elim (ReadingState-cases s.reading_state) [
    | inr i ↦ same_state {p = none} (stays refl (λ i. refl)) (sym (resting i) ∙ h)
    | inl r ↦ elim (Option-cases s.reading) [
      | inl e ↦ same_state {p = none} (stays refl (λ i. refl)) (sym (nothing r e) ∙ h)
      | inr (f, e) ↦ first_action-Grows _ s t (sym (starts r f e) ∙ h)
    ]
  ]
    where
      resting : s.reading_state ≡ idle → read_next v s ≡ ok (none, s)
      resting i = go _ refl
        where
          go : (u : Result (Option LogReader × Log)) → ok (none, s) ≡ u → read_next v s ≡ u
          go u p = rw (i, read_next) p

      nothing : s.reading_state ≡ reading → s.reading ≡ none → read_next v s ≡ ok (none, s)
      nothing r e = go _ refl
        where
          go : (u : Result (Option LogReader × Log)) → ok (none, s) ≡ u → read_next v s ≡ u
          go u p = rw (r, e, read_next) p

      starts :
          s.reading_state ≡ reading
          → (f : Numbered) → s.reading ≡ some f
          → read_next v s ≡ first_action (next (new f.file.content f.file.position v)) s
      starts r f e = go _ refl
        where
          go :
              (u : Result (Option LogReader × Log))
              → first_action (next (new f.file.content f.file.position v)) s ≡ u
              → read_next v s ≡ u
          go u p = rw (r, e, read_next) p

  activate_open : (s : Log) {a : Appending} → s.appending ≡ some a → activate s ≡ (a, s)
  unfolding activate
  activate_open s {a} e = by _ refl
    where
      by : (u : Appending × Log) → (a, s) ≡ u → activate s ≡ u
      by u p = rw (e, activate) p

  activate_fresh : (s : Log) → s.appending ≡ none → activate s ≡ activate_pool s.log_pool s
  unfolding activate
  activate_fresh s e = by _ refl
    where
      by : (u : Appending × Log) → activate_pool s.log_pool s ≡ u → activate s ≡ u
      by u p = rw (e, activate) p

  append_record-Grows :
      (log : LogChange) (s : Log)
      → s.next_log_id + 1 < 2 ^ 32
      → Grows s (append_record log (activate s)).1
  append_record-Grows log s small = elim (Option-cases s.appending) [
    | inr (a, e) ↦ rw (activate_open s e) (
        stays (unfold append_record in refl) (λ i.
          omega (arith, located-append_record i log a s, ap (λ t. count i (appending_ids t)) e)))
    | inl e ↦ rw (activate_fresh s e) (record {
      next_up = unfold append_record in (activate_pool-Grows s s.log_pool small e refl 0).0;
      moves = λ i.
          moved i (activate_pool-Grows s s.log_pool small e refl i).1
            (activate_pool-appending s.log_pool s ∙ e);
    })
  ]
    where
      moved :
          (i : ℕ)
          → let (a, t) = activate_pool s.log_pool s in
            (count i (a.id ∷ []) + located i t ≡ located i s)
              ⊎ ((s.next_log_id ≤ i)
                  × (i < t.next_log_id)
                  × (count i (a.id ∷ []) + located i t ≤ located i s + 1))
            → t.appending ≡ none
            → let u = (append_record log (activate_pool s.log_pool s)).1 in
              (located i u ≡ located i s)
              ⊎ ((s.next_log_id ≤ i) × (i < u.next_log_id) × (located i u ≤ located i s + 1))
      moved i x free =
          let (a, t) = activate_pool s.log_pool s in
          let e = located-append_record i log a t in
          let none_there = ap (λ o. count i (appending_ids o)) free in
          elim x [
            | inl same ↦ inl (omega (arith, e, none_there, same))
            | inr (lo, hi, one_more) ↦
                inr (lo, unfold append_record in hi, omega (arith, e, none_there, one_more))
          ]

  end_record-Grows :
      (log : LogChange) (s t : Log) {n : ℕ}
      → s.next_log_id + 1 < 2 ^ 32
      → end_record log s ≡ ok (n, t)
      → Grows s t
  unfolding end_record
  end_record-Grows log s t {n} small h =
      elim (Bool-cases ((log.record_id + 1) % 2 ^ 64 == s.next_record_id)) [
        | inl same ↦ subst (Grows s) (ok_state n _ (rw same at h)) (append_record-Grows log s small)
        | inr differs ↦ absurd (no_state n t (rw differs at h))
      ]
    where
      ok_state : (n : ℕ) (p : ℕ × Log) → ◌≡◌ {A = Result (ℕ × Log)} (ok p) (ok (n, t)) → p.1 ≡ t
      ok_state n p q = cc

      no_state : (n : ℕ) (u : Log) → ◌≡◌ {A = Result (ℕ × Log)} panic (ok (n, u)) → ⊥
      no_state n u q = cc

  Step-Grows : {s t : Log} → Step s t → Grows s t
  unfolding begin_record end_read kill_logs clear_replay_logs
  Step-Grows {s} begins = stays refl (λ i. refl)
  Step-Grows {s} {t} (ends log small e) = end_record-Grows log s t small e
  Step-Grows {s} (read_ends c id) = stays refl (λ i. refl)
  Step-Grows {s} {t} (flushes m e) =
      stays (flush_one-next_log_id m s t e) (λ i. located-flush_one i m s t e)
  Step-Grows {s} replays = stays (replay_next-next_log_id s) (λ i. located-replay_next i s)
  Step-Grows {s} {t} (cleans n e) =
      stays (clean_logs-next_log_id n s t e) (λ i. located-clean_logs i n s t e)
  Step-Grows {s} {t} (reads v e) = read_next-Grows v s t e
  Step-Grows {s} (puts_back r) = stays (put_back-next_log_id r s) (λ i. located-put_back i r s)
  Step-Grows {s} clears = stays refl (λ i. located-clear_replay_logs i s)
  Step-Grows {s} kills = stays refl (λ i. located-kill_logs i s)

  -- In every state that the operations of `Log` lead to, as in the one they start from, each number
  -- of a log file stands in one queue at most, or was dropped, and no number that is still to be given
  -- out stands anywhere: no file has two owners. Numbers do not run out.
  pub Steps-IsOwned : {s t : Log} → Steps s t → IsOwned s → IsOwned t
  Steps-IsOwned done o = o
  Steps-IsOwned (then_step steps last) o = IsOwned-Grows (Step-Grows last) (Steps-IsOwned steps o)
