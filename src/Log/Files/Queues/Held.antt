-- ===== src/Log/Files/Queues/Held.antt =====
-- Where the files of the log are: each number stands in one of the queues, or was dropped.
use blockchain_parity_db.Prelude.{
  ℕ, zero, suc, ◌+◌, ◌≡◌, refl, ap, ◌∙◌, Bool, true, false, Bool-cases, Option-cases, Option, none,
  some, inl, inr, ◌⊎◌, List, [], ◌∷◌, ◌++◌, length, take, drop, ltb, leb, ◌&&◌, ◌==◌, if◌then◌else◌,
  arith,
}
use blockchain_parity_db.Outcome.{Result, ok, panic}
use blockchain_parity_db.Log.Reader.{LogReader}
use blockchain_parity_db.Log.Files.{
  ReadingState, Appending, Numbered, Replayable, Log, reading, idle, ids, replay_ids, opt_list,
  max_log_pool_size, clear_replay_logs,
}
use blockchain_parity_db.Log.Files.Queues.{
  is_some, current_size, retire, start_reading, start_flushing, to_flush, flush_rest, flush_one,
  start_replay, replay_next, insert_by_id, sort_by_id, cut, clean_logs, kill_logs, put_back,
}

-- How often a number stands in a list
abbrev pub count : ℕ → List ℕ → ℕ
count i [] = 0
count i (j ∷ js) = (if j == i then 1 else 0) + count i js

abbrev pub appending_ids : Option Appending → List ℕ
appending_ids none = []
appending_ids (some a) = a.id ∷ []

-- How often a number stands among the files of the log, the dropped ones included
abbrev pub located : ℕ → Log → ℕ
located i s =
    count i (appending_ids s.appending)
    + (count i (ids (opt_list s.flushing))
        + (count i (ids (opt_list s.reading))
            + (count i (ids s.log_pool)
                + (count i (ids s.cleanup_queue)
                    + (count i (replay_ids s.replay_queue) + count i s.dropped)))))

count-append : (i : ℕ) (xs ys : List ℕ) → count i (xs ++ ys) ≡ count i xs + count i ys
count-append i [] ys = omega arith
count-append i (x ∷ xs) ys = omega (arith, count-append i xs ys)

ids-append : (xs ys : List Numbered) → ids (xs ++ ys) ≡ ids xs ++ ids ys
ids-append [] ys = refl
ids-append (x ∷ xs) ys = ap (λ t. x.id ∷ t) (ids-append xs ys)

count-ids-append :
    (i : ℕ) (xs ys : List Numbered) → count i (ids (xs ++ ys)) ≡ count i (ids xs) + count i (ids ys)
count-ids-append i xs ys = ap (count i) (ids-append xs ys) ∙ count-append i (ids xs) (ids ys)

count-ids-take-drop :
    (i n : ℕ) (xs : List Numbered)
    → count i (ids (take n xs)) + count i (ids (drop n xs)) ≡ count i (ids xs)
count-ids-take-drop i zero xs = omega arith
count-ids-take-drop i (suc n) [] = refl
count-ids-take-drop i (suc n) (x ∷ xs) = omega (arith, count-ids-take-drop i n xs)

ids-cut : (xs : List Numbered) → ids (cut xs) ≡ ids xs
unfolding cut
ids-cut [] = refl
ids-cut (x ∷ xs) = ap (λ t. x.id ∷ t) (ids-cut xs)

count-insert_by_id :
    (i : ℕ) (f : Numbered) (gs : List Numbered)
    → count i (ids (insert_by_id f gs)) ≡ count i (f.id ∷ ids gs)
unfolding insert_by_id
count-insert_by_id i f [] = refl
count-insert_by_id i f (g ∷ gs) = elim (Bool-cases (leb f.id g.id)) [
  | inl before ↦ rw before refl
  | inr behind ↦ rw behind (omega (arith, count-insert_by_id i f gs))
]

count-sort_by_id : (i : ℕ) (fs : List Numbered) → count i (ids (sort_by_id fs)) ≡ count i (ids fs)
unfolding sort_by_id
count-sort_by_id i [] = refl
count-sort_by_id i (f ∷ fs) =
    omega (arith, count-insert_by_id i f (sort_by_id fs), count-sort_by_id i fs)

-- What an empty place and a taken one hold
held_in :
    (i : ℕ) {o p : Option Numbered}
    → o ≡ p
    → count i (ids (opt_list o)) ≡ count i (ids (opt_list p))
held_in i e = ap (λ t. count i (ids (opt_list t))) e

located-retire : (i : ℕ) (s : Log) → located i (retire s) ≡ located i s
unfolding retire
located-retire i s = elim (Option-cases s.reading) [
  | inl e ↦ rw (e, retire) (omega (arith, held_in i e))
  | inr (f, e) ↦
      rw (e, retire) (omega (arith, count-ids-append i s.cleanup_queue (f ∷ []), held_in i e))
]

-- Nothing is being read after that.
retire-reading : (s : Log) → (retire s).reading ≡ none
unfolding retire
retire-reading s = elim (Option-cases s.reading) [
  | inl e ↦ rw (e, retire) e
  | inr (f, e) ↦ rw (e, retire) refl
]

retire-flushing : (s : Log) → (retire s).flushing ≡ s.flushing
unfolding retire
retire-flushing s = elim (Option-cases s.reading) [
  | inl e ↦ rw (e, retire) refl
  | inr (f, e) ↦ rw (e, retire) refl
]

retire-replay_queue : (s : Log) → (retire s).replay_queue ≡ s.replay_queue
unfolding retire
retire-replay_queue s = elim (Option-cases s.reading) [
  | inl e ↦ rw (e, retire) refl
  | inr (f, e) ↦ rw (e, retire) refl
]

located-start_reading :
    (i : ℕ) (s : Log) → s.reading ≡ none → located i (start_reading s) ≡ located i s
unfolding start_reading
located-start_reading i s free = elim (Option-cases s.flushing) [
  | inl e ↦ rw (e, start_reading) (omega (arith, held_in i e))
  | inr (f, e) ↦ rw (e, start_reading) (omega (arith, held_in i e, held_in i free))
]

start_reading-flushing : (s : Log) → (start_reading s).flushing ≡ none
unfolding start_reading
start_reading-flushing s = elim (Option-cases s.flushing) [
  | inl e ↦ rw (e, start_reading) e
  | inr (f, e) ↦ rw (e, start_reading) refl
]

count-to_flush :
    (i : ℕ) (o : Option Appending)
    → count i (ids (opt_list (to_flush o))) ≡ count i (appending_ids o)
unfolding to_flush
count-to_flush i none = refl
count-to_flush i (some a) = refl

located-start_flushing :
    (i m : ℕ) (s : Log) → s.flushing ≡ none → located i (start_flushing m s) ≡ located i s
unfolding start_flushing
located-start_flushing i m s free =
    elim (Bool-cases (ltb 0 (current_size s.appending) && ltb m (current_size s.appending))) [
      | inl large ↦ rw large (omega (arith, count-to_flush i s.appending, held_in i free))
      | inr small ↦ rw small refl
    ]

pub ReadingState-cases : (x : ReadingState) → (x ≡ reading) ⊎ (x ≡ idle)
ReadingState-cases reading = inl refl
ReadingState-cases idle = inr refl

-- The two ways in which `flush_one` does not wait.
flush_one_fresh :
    (m : ℕ) (s : Log)
    → s.flushing ≡ none
    → flush_one m s
      ≡ some ((is_some (start_flushing m s).flushing, false, false), start_flushing m s)
unfolding flush_one flush_rest
flush_one_fresh m s e = by _ refl
  where
    by :
        (u : Option ((Bool × Bool × Bool) × Log))
        → some (flush_rest m false false s) ≡ u
        → flush_one m s ≡ u
    by u p = rw (e, flush_one) p

flush_one_ready :
    (m : ℕ) (s : Log) {f : Numbered}
    → s.flushing ≡ some f
    → s.reading_state ≡ idle
    → let t = start_flushing m (start_reading (retire s)) in
      flush_one m s ≡ some ((is_some t.flushing, true, is_some s.reading), t)
unfolding flush_one flush_rest
flush_one_ready m s e i = by _ refl
  where
    by :
        (u : Option ((Bool × Bool × Bool) × Log))
        → some (flush_rest m true (is_some s.reading) (start_reading (retire s))) ≡ u
        → flush_one m s ≡ u
    by u p = rw (e, i, flush_one) p

flush_one_waits :
    (m : ℕ) (s : Log) {f : Numbered}
    → s.flushing ≡ some f
    → s.reading_state ≡ reading
    → flush_one m s ≡ none
unfolding flush_one
flush_one_waits m s e i = rw (e, i, flush_one)

some_state :
    {A : Type 0} {o : Option (A × Log)} (a b : A) (s t : Log)
    → o ≡ some (a, s)
    → o ≡ some (b, t)
    → t ≡ s
some_state a b s t p q = cc

ok_state :
    {A : Type 0} (a b : A) (s t : Log) → ◌≡◌ {A = Result (A × Log)} (ok (a, s)) (ok (b, t)) → t ≡ s
ok_state a b s t p = cc

no_state : {A : Type 0} (b : A) (t : Log) → ◌≡◌ {A = Result (A × Log)} panic (ok (b, t)) → ⊥
no_state b t p = cc

-- What `flush_one` does if it does not wait
flush_one_state :
    (m : ℕ) (s s' : Log) {out : Bool × Bool × Bool}
    → flush_one m s ≡ some (out, s')
    → ((s.flushing ≡ none) × (s' ≡ start_flushing m s))
      ⊎ (s' ≡ start_flushing m (start_reading (retire s)))
flush_one_state m s s' {out} h = elim (Option-cases s.flushing) [
  | inl e ↦ inl (e, some_state _ out (start_flushing m s) s' (flush_one_fresh m s e) h)
  | inr (f, e) ↦ elim (ReadingState-cases s.reading_state) [
    | inl busy ↦ absurd (waits (flush_one_waits m s e busy))
    | inr free ↦ inr (
        some_state _ out (start_flushing m (start_reading (retire s))) s'
          (flush_one_ready m s e free) h)
  ]
]
  where
    waits : flush_one m s ≡ none → ⊥
    waits e = cc

pub located-flush_one :
    (i m : ℕ) (s s' : Log) {out : Bool × Bool × Bool}
    → flush_one m s ≡ some (out, s')
    → located i s' ≡ located i s
located-flush_one i m s s' h = elim (flush_one_state m s s' h) [
  | inl (free, e) ↦ rw e (located-start_flushing i m s free)
  | inr e ↦
      let t = start_reading (retire s) in
      rw e (
        located-start_flushing i m t (start_reading-flushing (retire s))
        ∙ located-start_reading i (retire s) (retire-reading s)
        ∙ located-retire i s)
]

located-start_replay :
    (i : ℕ) (fs : List Replayable) (s : Log)
    → s.replay_queue ≡ fs
    → s.reading ≡ none
    → located i (start_replay fs s).1 ≡ located i s
unfolding start_replay
located-start_replay i [] s e free = refl
located-start_replay i (f ∷ fs) s e free =
    omega (arith, ap (λ t. count i (replay_ids t)) e, held_in i free)

pub located-replay_next : (i : ℕ) (s : Log) → located i (replay_next s).1 ≡ located i s
unfolding replay_next
located-replay_next i s =
    located-start_replay i s.replay_queue (retire s) (retire-replay_queue s) (retire-reading s)
    ∙ located-retire i s

pub located-clean_logs :
    (i n : ℕ) (s s' : Log) {more : Bool}
    → clean_logs n s ≡ ok (more, s')
    → located i s' ≡ located i s
unfolding clean_logs
located-clean_logs i n s s' {more} h = elim (Bool-cases (ltb (length s.cleanup_queue) n)) [
  | inl short ↦ absurd (no_state more s' (rw short at h))
  | inr enough ↦
      rw (ok_state _ more _ s' (rw enough at h))
        (moved (s.log_pool ++ cut (take n s.cleanup_queue)) refl)
]
  where
    moved :
        (fs : List Numbered)
        → s.log_pool ++ cut (take n s.cleanup_queue) ≡ fs
        → located i (record s {
          cleanup_queue = drop n s.cleanup_queue;
          log_pool = take max_log_pool_size (sort_by_id fs);
          dropped = s.dropped ++ ids (drop max_log_pool_size (sort_by_id fs));
        })
          ≡ located i s
    moved fs e = omega (
      arith,
      count-append i s.dropped (ids (drop max_log_pool_size (sort_by_id fs))),
      count-ids-take-drop i max_log_pool_size (sort_by_id fs),
      count-sort_by_id i fs,
      ap (λ t. count i (ids t)) e,
      count-ids-append i s.log_pool (cut (take n s.cleanup_queue)),
      ap (count i) (ids-cut (take n s.cleanup_queue)),
      count-ids-take-drop i n s.cleanup_queue,
    )

pub located-kill_logs : (i : ℕ) (s : Log) → located i (kill_logs s) ≡ located i s
unfolding kill_logs
located-kill_logs i s = omega (
  arith,
  count-append i s.dropped (ids s.log_pool ++ ids (opt_list s.reading)),
  count-append i (ids s.log_pool) (ids (opt_list s.reading)),
)

pub located-clear_replay_logs : (i : ℕ) (s : Log) → located i (clear_replay_logs s) ≡ located i s
unfolding clear_replay_logs
located-clear_replay_logs i s = omega (
  arith,
  count-append i s.dropped (ids (opt_list s.reading) ++ replay_ids s.replay_queue),
  count-append i (ids (opt_list s.reading)) (replay_ids s.replay_queue),
)

pub located-put_back : (i : ℕ) (r : LogReader) (s : Log) → located i (put_back r s) ≡ located i s
unfolding put_back
located-put_back i r s = elim (Option-cases s.reading) [
  | inl e ↦ rw (e, put_back) (omega (arith, held_in i e))
  | inr (f, e) ↦ rw (e, put_back) (omega (arith, held_in i e))
]

-- None of them gives out a new number.
retire-next_log_id : (s : Log) → (retire s).next_log_id ≡ s.next_log_id
unfolding retire
retire-next_log_id s = elim (Option-cases s.reading) [
  | inl e ↦ rw (e, retire)
  | inr (f, e) ↦ rw (e, retire)
]

start_reading-next_log_id : (s : Log) → (start_reading s).next_log_id ≡ s.next_log_id
unfolding start_reading
start_reading-next_log_id s = elim (Option-cases s.flushing) [
  | inl e ↦ rw (e, start_reading)
  | inr (f, e) ↦ rw (e, start_reading)
]

start_flushing-next_log_id : (m : ℕ) (s : Log) → (start_flushing m s).next_log_id ≡ s.next_log_id
unfolding start_flushing
start_flushing-next_log_id m s =
    elim (Bool-cases (ltb 0 (current_size s.appending) && ltb m (current_size s.appending))) [
      | inl large ↦ rw large refl
      | inr small ↦ rw small refl
    ]

pub flush_one-next_log_id :
    (m : ℕ) (s s' : Log) {out : Bool × Bool × Bool}
    → flush_one m s ≡ some (out, s')
    → s'.next_log_id ≡ s.next_log_id
flush_one-next_log_id m s s' h = elim (flush_one_state m s s' h) [
  | inl (free, e) ↦ rw e (start_flushing-next_log_id m s)
  | inr e ↦ rw e (
      start_flushing-next_log_id m (start_reading (retire s))
      ∙ start_reading-next_log_id (retire s)
      ∙ retire-next_log_id s)
]

pub replay_next-next_log_id : (s : Log) → (replay_next s).1.next_log_id ≡ s.next_log_id
unfolding replay_next
replay_next-next_log_id s = by s.replay_queue (retire s) ∙ retire-next_log_id s
  where
    by : (fs : List Replayable) (t : Log) → (start_replay fs t).1.next_log_id ≡ t.next_log_id
    by [] t = unfold start_replay in refl
    by (f ∷ fs) t = unfold start_replay in refl

pub clean_logs-next_log_id :
    (n : ℕ) (s s' : Log) {more : Bool}
    → clean_logs n s ≡ ok (more, s')
    → s'.next_log_id ≡ s.next_log_id
unfolding clean_logs
clean_logs-next_log_id n s s' {more} h = elim (Bool-cases (ltb (length s.cleanup_queue) n)) [
  | inl short ↦ absurd (no_state more s' (rw short at h))
  | inr enough ↦ rw (ok_state _ more _ s' (rw enough at h)) refl
]

pub put_back-next_log_id : (r : LogReader) (s : Log) → (put_back r s).next_log_id ≡ s.next_log_id
unfolding put_back
put_back-next_log_id r s = elim (Option-cases s.reading) [
  | inl e ↦ rw (e, put_back)
  | inr (f, e) ↦ rw (e, put_back)
]
