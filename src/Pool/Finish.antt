-- ===== src/Pool/Finish.antt =====
-- How a pool ends that was closed.
use cartnova_go_microservice.Prelude.{
  ℕ, zero, suc, ◌+◌, ◌*◌, ◌≤◌, ◌<◌, ℤ, ◌≡◌, refl, sym, subst, ap, ◌∙◌, true, false, ◌⊎◌, inl, inr,
  Option, none, some, List, [], ◌∷◌, ◌++◌, if◌then◌else◌, arith,
}
use cartnova_go_microservice.Pool.{
  size, Worker, waiting, handling, reporting, stopped, Shared, Pool, start_pool, Move, receive,
  drained, interrupted, succeed, go_wrong, report, give_up, Step, work, submit, hand_over, close,
  cancel, read_error, Reach, here, next,
}
use cartnova_go_microservice.Pool.Jobs.{
  total, swap, size-snoc, in_hand, is_stopped, Sound, Step-Sound, Reach-Sound, Reach-start-Sound,
}

module _ {T E : Type 0} where
  abbrev pub AllStopped : List (Worker T E) → Type 0
  AllStopped [] = Unit
  AllStopped (waiting ∷ rest) = ⊥
  AllStopped (handling job ∷ rest) = ⊥
  AllStopped (reporting e ∷ rest) = ⊥
  AllStopped (stopped ∷ rest) = AllStopped rest

  stopped_totals :
      (weight : T → ℕ) (workers : List (Worker T E))
      → AllStopped workers
      → (total (in_hand weight) workers ≡ 0) × (total is_stopped workers ≡ total (λ w. 1) workers)
  unfolding total
  stopped_totals weight [] h = (refl, refl)
  stopped_totals weight (waiting ∷ rest) h = absurd h
  stopped_totals weight (handling job ∷ rest) h = absurd h
  stopped_totals weight (reporting e ∷ rest) h = absurd h
  stopped_totals weight (stopped ∷ rest) h =
      let (a, b) = stopped_totals weight rest h in (omega arith, omega arith)

  all_handled :
      (p : Pool T E)
      → Sound p
      → p.shared.cancelled ≡ false
      → AllStopped p.workers
      → (p.shared.closed ≡ true)
        × ((weight : T → ℕ) → total weight p.shared.handled ≡ total weight p.shared.submitted)
  unfolding total
  all_handled p h c a =
      let (_, stops) = stopped_totals (λ t. 0) p.workers a in
      let k = h.has_workers in
      let (closed, empty) = h.ended c (omega arith) in
      (
        closed,
        λ weight.
            let (held, _) = stopped_totals weight p.workers a in
            let counted = h.counted weight in
            let none_left : total weight p.shared.jobs ≡ 0 = ap (total weight) empty in omega arith,
      )

  -- What a closed pool may still do.
  unfoldable pub load : Worker T E → ℕ
  load waiting = 1
  load (handling job) = 4
  load (reporting e) = 3
  load stopped = 0

  abbrev pub measure : Pool T E → ℕ
  measure p =
      4 * size p.shared.jobs
      + total load p.workers
      + size p.shared.errors
      + (if p.shared.cancelled then 0 else 1)

  module _ (handler : T → Option E) where
    unfoldable pub steps : {p q : Pool T E} → Reach T E handler p q → ℕ
    steps here = 0
    steps (next r st) = suc (steps r)

    Move-shrinks :
        (before after : List (Worker T E)) {s t : Shared T E} {w v : Worker T E}
        → Move T E handler s w t v
        → (t.closed ≡ s.closed)
          × (measure (record { shared = t; workers = before ++ v ∷ after })
              < measure (record { shared = s; workers = before ++ w ∷ after }))
    unfolding size load
    Move-shrinks before after {s} (receive {job} {rest} e) =
        let b = swap load before after waiting (handling job) in (refl, ground arith)
    Move-shrinks before after (drained e c) =
        let b = swap load before after waiting stopped in (refl, omega arith)
    Move-shrinks before after (interrupted c) =
        let b = swap load before after waiting stopped in (refl, omega arith)
    Move-shrinks before after (succeed {job} e) =
        let b = swap load before after (handling job) waiting in (refl, omega arith)
    Move-shrinks before after (go_wrong {job} {e} r) =
        let b = swap load before after (handling job) (reporting e) in (refl, omega arith)
    Move-shrinks before after {s} (report {e} f) =
        let b = swap load before after (reporting e) waiting in
        let g = size-snoc s.errors e in (refl, omega arith)
    Move-shrinks before after (give_up {e} c) =
        let b = swap load before after (reporting e) stopped in (refl, omega arith)

    Step-shrinks :
        {p q : Pool T E}
        → Step T E handler p q
        → p.shared.closed ≡ true
        → (q.shared.closed ≡ true) × (measure q < measure p)
    unfolding size
    Step-shrinks {p} (work before after {w} {v} {s} e m) c =
        let (same, less) = Move-shrinks before after m in
        (
          same ∙ c,
          subst
              (λ ws.
                measure (record { shared = s; workers = before ++ v ∷ after })
                < measure (record { shared = p.shared; workers = ws }))
              (sym e) less,
        )
    Step-shrinks (submit job is_open room) c = absurd (cc)
    Step-shrinks (hand_over job before after is_open empty e) c = absurd (cc)
    Step-shrinks (close is_open) c = absurd (cc)
    Step-shrinks (cancel n) c = (c, ground arith)
    Step-shrinks (read_error r) c = (c, ground arith)

    -- A worker that has not stopped.
    abbrev IsLive : Worker T E → Type 0
    IsLive stopped = ⊥
    IsLive worker = Unit

    find-IsLive :
        (workers : List (Worker T E))
        → AllStopped workers
          ⊎ ((before after : List (Worker T E)) × (w : Worker T E) × (workers ≡ before ++ w ∷ after)
              × IsLive w)
    find-IsLive [] = inl tt
    find-IsLive (waiting ∷ rest) = inr ([], rest, waiting, refl, tt)
    find-IsLive (handling job ∷ rest) = inr ([], rest, handling job, refl, tt)
    find-IsLive (reporting e ∷ rest) = inr ([], rest, reporting e, refl, tt)
    find-IsLive (stopped ∷ rest) = elim (find-IsLive rest) [
      | inl all ↦ inl all
      | inr (before, after, w, e, l) ↦
          inr (stopped ∷ before, after, w, ap (λ ws. stopped ∷ ws) e, l)
    ]

    -- A closed pool goes on, as long as someone reads the errors.
    can-Step :
        (p : Pool T E)
        → Sound p
        → p.shared.closed ≡ true
        → (before after : List (Worker T E)) (w : Worker T E) → p.workers ≡ before ++ w ∷ after
        → IsLive w
        → (q : Pool T E) × Step T E handler p q
    unfolding size
    can-Step p h c before after waiting e l = jobs p.shared.jobs refl
      where
        jobs : (o : List T) → p.shared.jobs ≡ o → (q : Pool T E) × Step T E handler p q
        jobs [] k = (_, work before after e (drained k c))
        jobs (job ∷ rest) k = (_, work before after e (receive k))
    can-Step p h c before after (handling job) e l = outcome (handler job) refl
      where
        outcome : (o : Option E) → handler job ≡ o → (q : Pool T E) × Step T E handler p q
        outcome none k = (_, work before after e (succeed k))
        outcome (some x) k = (_, work before after e (go_wrong k))
    can-Step p h c before after (reporting x) e l = errors p.shared.errors refl
      where
        errors : (o : List E) → p.shared.errors ≡ o → (q : Pool T E) × Step T E handler p q
        errors [] k = (_, work before after e (report (let r = h.has_error_room in ground arith)))
        errors (y ∷ rest) k = (_, read_error k)
    can-Step p h c before after stopped e l = absurd l

    prepend :
        {p q r : Pool T E} → Step T E handler p q → Reach T E handler q r → Reach T E handler p r
    prepend st here = next here st
    prepend st (next r st') = next (prepend st r) st'

    finish :
        (fuel : ℕ) (p : Pool T E)
        → measure p ≤ fuel
        → Sound p
        → p.shared.closed ≡ true
        → (q : Pool T E) × Reach T E handler p q × AllStopped q.workers
    finish zero p f h c = elim (find-IsLive p.workers) [
      | inl all ↦ (p, here, all)
      | inr (before, after, w, e, l) ↦
          let (q, st) = can-Step p h c before after w e l in
          let (_, less) = Step-shrinks st c in absurd (omega arith)
    ]
    finish (suc fuel) p f h c = elim (find-IsLive p.workers) [
      | inl all ↦ (p, here, all)
      | inr (before, after, w, e, l) ↦
          let (q, st) = can-Step p h c before after w e l in
          let (closed, less) = Step-shrinks st c in
          let (end, run, all) = finish fuel q (omega arith) (Step-Sound handler st h) closed in
          (end, prepend st run, all)
    ]

    run_shrinks :
        {p q : Pool T E} (r : Reach T E handler p q)
        → p.shared.closed ≡ true
        → (q.shared.closed ≡ true) × (steps r + measure q ≤ measure p)
    unfolding steps
    run_shrinks here c = (c, omega arith)
    run_shrinks (next r st) c =
        let (closed, most) = run_shrinks r c in
        let (still, less) = Step-shrinks st closed in (still, omega arith)

-- When every worker of a pool has stopped and nothing was cancelled, the pool was closed, and every job was handled
-- as often as it was submitted, however the jobs are counted.
pub close_handles :
    {T E : Type 0} (handler : T → Option E) (worker_count : ℤ) (buffer : ℕ) (p : Pool T E)
    (weight : T → ℕ)
    → Reach T E handler (start_pool T E worker_count buffer) p
    → p.shared.cancelled ≡ false
    → AllStopped p.workers
    → (p.shared.closed ≡ true) × (total weight p.shared.handled ≡ total weight p.shared.submitted)
close_handles handler worker_count buffer p weight r c a =
    let (closed, handled) = all_handled p (Reach-start-Sound handler worker_count buffer p r) c a in
    (closed, handled weight)

-- A pool that was closed makes at most as many more steps as its measure says, reads of errors and a cancellation
-- included, and wherever it has got to, it has a run of steps after which every worker has stopped.
pub closed_ends :
    {T E : Type 0} (handler : T → Option E) (worker_count : ℤ) (buffer : ℕ) (p q : Pool T E)
    → Reach T E handler (start_pool T E worker_count buffer) p
    → p.shared.closed ≡ true
    → (run : Reach T E handler p q)
    → (steps handler run ≤ measure p)
      × ((end : Pool T E) × Reach T E handler q end × AllStopped end.workers)
closed_ends handler worker_count buffer p q r c run =
    let (closed, most) = run_shrinks handler run c in
    let sound = Reach-Sound handler run (Reach-start-Sound handler worker_count buffer p r) in
    (omega arith, finish handler (measure q) q (omega arith) sound closed)
