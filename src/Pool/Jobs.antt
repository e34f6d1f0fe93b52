-- ===== src/Pool/Jobs.antt =====
-- No job is lost or handled twice, and the channels hold no more than they may.
use cartnova_go_microservice.Prelude.{
  ℕ, zero, suc, ◌+◌, ◌≤◌, ◌<◌, ℤ, ◌≡◌, refl, subst, true, false, is_nonpos, pos_part, List, [], ◌∷◌,
  ◌++◌, if◌then◌else◌, Option, arith,
}
use cartnova_go_microservice.Pool.{
  size, Worker, waiting, handling, reporting, stopped, Shared, Pool, spawn, start_pool, Move,
  receive, drained, interrupted, succeed, go_wrong, report, give_up, Step, work, submit, hand_over,
  close, cancel, read_error, Reach, here, next,
}

unfoldable pub total : {A : Type 0} → (A → ℕ) → List A → ℕ
total f [] = 0
total f (x ∷ rest) = f x + total f rest

pub total-append :
    {A : Type 0} (f : A → ℕ) (xs ys : List A) → total f (xs ++ ys) ≡ total f xs + total f ys
unfolding total
total-append f [] ys = omega arith
total-append f (x ∷ xs) ys = let ih = total-append f xs ys in omega arith

pub swap :
    {A : Type 0} (f : A → ℕ) (before after : List A) (x y : A)
    → total f (before ++ y ∷ after) + f x ≡ total f (before ++ x ∷ after) + f y
unfolding total
swap f before after x y =
    let a = total-append f before (x ∷ after) in
    let b = total-append f before (y ∷ after) in omega arith

pub size-snoc : {A : Type 0} (xs : List A) (x : A) → size (xs ++ x ∷ []) ≡ suc (size xs)
unfolding size
size-snoc [] x = refl
size-snoc (y ∷ xs) x = let ih = size-snoc xs x in omega arith

total-spawn_one : (T E : Type 0) (n : ℕ) → total (λ w. 1) (spawn T E n) ≡ n
unfolding total spawn
total-spawn_one T E zero = refl
total-spawn_one T E (suc n) = let ih = total-spawn_one T E n in omega arith

module _ {T E : Type 0} where
  -- The jobs in a worker's hand, each counted as `weight` says.
  abbrev pub in_hand : (T → ℕ) → Worker T E → ℕ
  in_hand weight waiting = 0
  in_hand weight (handling job) = weight job
  in_hand weight (reporting e) = 0
  in_hand weight stopped = 0

  abbrev pub is_stopped : Worker T E → ℕ
  is_stopped waiting = 0
  is_stopped (handling job) = 0
  is_stopped (reporting e) = 0
  is_stopped stopped = 1

  -- For every way of counting jobs, those submitted are those in the channel, in hand and handled; the
  -- channels are within their capacities; and unless the context was cancelled, a worker stops only
  -- when the channel is closed and empty.
  pub record Sound (p : Pool T E) : Type 0 where
    pub counted :
        (weight : T → ℕ)
        → total weight p.shared.submitted
          ≡ total weight p.shared.jobs
            + total (in_hand weight) p.workers
            + total weight p.shared.handled
    pub jobs_fit : size p.shared.jobs ≤ p.shared.capacity
    pub errors_fit : size p.shared.errors ≤ p.shared.error_capacity
    pub has_workers : 0 < total (λ w. 1) p.workers
    pub has_error_room : 0 < p.shared.error_capacity
    pub ended :
        p.shared.cancelled ≡ false
        → 0 < total is_stopped p.workers
        → (p.shared.closed ≡ true) × (p.shared.jobs ≡ [])

  module _ (handler : T → Option E) where
    Move-Sound :
        (before after : List (Worker T E)) {s t : Shared T E} {w v : Worker T E}
        → Move T E handler s w t v
        → Sound (record { shared = s; workers = before ++ w ∷ after })
        → Sound (record { shared = t; workers = before ++ v ∷ after })
    unfolding total size
    Move-Sound before after {s} (receive {job} {rest} e) h = record {
      counted = λ weight.
          let c = h.counted weight in
          let b = swap (in_hand weight) before after (waiting) (handling job) in ground arith;
      jobs_fit = let f = h.jobs_fit in ground arith;
      errors_fit = h.errors_fit;
      has_workers =
          let k = h.has_workers in
          let b = swap (λ x. 1) before after (waiting) (handling job) in omega arith;
      has_error_room = h.has_error_room;
      ended = λ n k.
          let b = swap is_stopped before after waiting (handling job) in
          let (closed, empty) = h.ended n (omega arith) in absurd (cc);
    }
    Move-Sound before after {s} (drained e c) h = record {
      counted = λ weight.
          let c = h.counted weight in
          let b = swap (in_hand weight) before after (waiting) (stopped) in ground arith;
      jobs_fit = h.jobs_fit;
      errors_fit = h.errors_fit;
      has_workers =
          let k = h.has_workers in
          let b = swap (λ x. 1) before after (waiting) (stopped) in omega arith;
      has_error_room = h.has_error_room;
      ended = λ n k. (c, e);
    }
    Move-Sound before after {s} (interrupted c) h = record {
      counted = λ weight.
          let c = h.counted weight in
          let b = swap (in_hand weight) before after (waiting) (stopped) in ground arith;
      jobs_fit = h.jobs_fit;
      errors_fit = h.errors_fit;
      has_workers =
          let k = h.has_workers in
          let b = swap (λ x. 1) before after (waiting) (stopped) in omega arith;
      has_error_room = h.has_error_room;
      ended = λ n k. absurd (cc);
    }
    Move-Sound before after {s} (succeed {job} e) h = record {
      counted = λ weight.
          let c = h.counted weight in
          let b = swap (in_hand weight) before after (handling job) (waiting) in ground arith;
      jobs_fit = h.jobs_fit;
      errors_fit = h.errors_fit;
      has_workers =
          let k = h.has_workers in
          let b = swap (λ x. 1) before after (handling job) (waiting) in omega arith;
      has_error_room = h.has_error_room;
      ended = λ n k.
          let b = swap is_stopped before after (handling job) (waiting) in h.ended n (omega arith);
    }
    Move-Sound before after {s} (go_wrong {job} {e} r) h = record {
      counted = λ weight.
          let c = h.counted weight in
          let b = swap (in_hand weight) before after (handling job) (reporting e) in ground arith;
      jobs_fit = h.jobs_fit;
      errors_fit = h.errors_fit;
      has_workers =
          let k = h.has_workers in
          let b = swap (λ x. 1) before after (handling job) (reporting e) in omega arith;
      has_error_room = h.has_error_room;
      ended = λ n k.
          let b = swap is_stopped before after (handling job) (reporting e) in
          h.ended n (omega arith);
    }
    Move-Sound before after {s} (report {e} f) h = record {
      counted = λ weight.
          let c = h.counted weight in
          let b = swap (in_hand weight) before after (reporting e) (waiting) in ground arith;
      jobs_fit = h.jobs_fit;
      errors_fit = let g = size-snoc s.errors e in omega arith;
      has_workers =
          let k = h.has_workers in
          let b = swap (λ x. 1) before after (reporting e) (waiting) in omega arith;
      has_error_room = h.has_error_room;
      ended = λ n k.
          let b = swap is_stopped before after (reporting e) (waiting) in h.ended n (omega arith);
    }
    Move-Sound before after {s} (give_up {e} c) h = record {
      counted = λ weight.
          let c = h.counted weight in
          let b = swap (in_hand weight) before after (reporting e) (stopped) in ground arith;
      jobs_fit = h.jobs_fit;
      errors_fit = h.errors_fit;
      has_workers =
          let k = h.has_workers in
          let b = swap (λ x. 1) before after (reporting e) (stopped) in omega arith;
      has_error_room = h.has_error_room;
      ended = λ n k. absurd (cc);
    }

    pub Step-Sound : {p q : Pool T E} → Step T E handler p q → Sound p → Sound q
    unfolding total size
    Step-Sound {p} (work before after {w} {v} {s} e m) h =
        Move-Sound before after m
          (subst (λ ws. Sound (record { shared = p.shared; workers = ws })) e h)
    Step-Sound {p} (submit job is_open room) h = record {
      counted = λ weight.
          let c = h.counted weight in
          let a = total-append weight p.shared.jobs (job ∷ []) in ground arith;
      jobs_fit = let g = size-snoc p.shared.jobs job in omega arith;
      errors_fit = h.errors_fit;
      has_workers = h.has_workers;
      has_error_room = h.has_error_room;
      ended = λ n k. absurd (let (closed, empty) = h.ended n k in cc);
    }
    Step-Sound {p} (hand_over job before after is_open empty e) h =
        let g = subst (λ ws. Sound (record { shared = p.shared; workers = ws })) e h in
        record {
          counted = λ weight.
              let c = g.counted weight in
              let b = swap (in_hand weight) before after waiting (handling job) in ground arith;
          jobs_fit = g.jobs_fit;
          errors_fit = g.errors_fit;
          has_workers =
              let k = g.has_workers in
              let b = swap (λ x. 1) before after waiting (handling job) in omega arith;
          has_error_room = g.has_error_room;
          ended = λ n k.
              let b = swap is_stopped before after waiting (handling job) in
              let (closed, none_left) = g.ended n (omega arith) in absurd (cc);
        }
    Step-Sound (close is_open) h = record {
      counted = h.counted;
      jobs_fit = h.jobs_fit;
      errors_fit = h.errors_fit;
      has_workers = h.has_workers;
      has_error_room = h.has_error_room;
      ended = λ n k. (refl, (h.ended n k).1);
    }
    Step-Sound (cancel n) h = record {
      counted = h.counted;
      jobs_fit = h.jobs_fit;
      errors_fit = h.errors_fit;
      has_workers = h.has_workers;
      has_error_room = h.has_error_room;
      ended = λ m k. absurd (cc);
    }
    Step-Sound {p} (read_error {e} {rest} r) h = record {
      counted = h.counted;
      jobs_fit = h.jobs_fit;
      errors_fit = let f = h.errors_fit in ground arith;
      has_workers = h.has_workers;
      has_error_room = h.has_error_room;
      ended = h.ended;
    }

    pub Reach-Sound : {p q : Pool T E} → Reach T E handler p q → Sound p → Sound q
    Reach-Sound here h = h
    Reach-Sound (next r st) h = Step-Sound st (Reach-Sound r h)

  total-spawn : (f : Worker T E → ℕ) (n : ℕ) → f waiting ≡ 0 → total f (spawn T E n) ≡ 0
  unfolding total spawn
  total-spawn f zero e = refl
  total-spawn f (suc n) e = let ih = total-spawn f n e in omega arith

  start-Sound : (worker_count : ℤ) (buffer : ℕ) → Sound (start_pool T E worker_count buffer)
  unfolding start_pool total size
  start-Sound worker_count buffer =
      let n = if is_nonpos worker_count then 1 else pos_part worker_count in
      let some_workers : 0 < n = ground arith in
      record {
        counted = λ weight. let a = total-spawn (in_hand weight) n refl in omega arith;
        jobs_fit = omega arith;
        errors_fit = omega arith;
        has_workers = let a = total-spawn_one T E n in omega arith;
        has_error_room = omega arith;
        ended = λ c k. let a = total-spawn is_stopped n refl in absurd (omega arith);
      }

-- However the workers, the submissions, the closing and the cancellation are interleaved, every submitted job
-- is in the channel, in a worker's hand or handled, once for each time it was submitted; the channels hold no
-- more than their capacities; and without a cancellation no worker stops before the channel is closed and empty.
pub Reach-start-Sound :
    {T E : Type 0} (handler : T → Option E) (worker_count : ℤ) (buffer : ℕ) (p : Pool T E)
    → Reach T E handler (start_pool T E worker_count buffer) p
    → Sound p
Reach-start-Sound handler worker_count buffer p r =
    Reach-Sound handler r (start-Sound worker_count buffer)
