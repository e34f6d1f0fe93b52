-- ===== src/Pool/Tests.antt =====
-- The theorems of the worker pool at a pool of one worker.
use cartnova_go_microservice.Prelude.{
  ℕ, ◌≤◌, pos, ◌≡◌, refl, true, Option, none, some, [], nat_eq, if◌then◌else◌, arith,
}
use cartnova_go_microservice.Pool.{
  size, Pool, spawn, start_pool, Reach, here, next, submit, receive, go_wrong, report, drained,
  work, close,
}
use cartnova_go_microservice.Pool.Jobs.{total, Sound, Reach-start-Sound}
use cartnova_go_microservice.Pool.Block.{close_blocks}
use cartnova_go_microservice.Prelude.{◌<◌, ◌⊎◌}
use cartnova_go_microservice.Pool.{read_error}
use cartnova_go_microservice.Pool.Finish.{AllStopped, measure, steps, close_handles, closed_ends}

-- Job 7 fails.
abbrev handler : ℕ → Option ℕ
handler job = if nat_eq job 7 then some 1 else none

-- A pool, and how it is reached.
record Run : Type 0 where
  last : Pool ℕ ℕ
  reach : Reach ℕ ℕ handler (start_pool ℕ ℕ (pos 1) 2) last

unfoldable submitted : Run
unfolding start_pool size
submitted = record { last = _; reach = next here (submit 7 refl (omega arith)) }

unfoldable taken : Run
unfolding start_pool spawn submitted size
taken = record { last = _; reach = next submitted.reach (work [] [] refl (receive refl)) }

unfoldable closed_pool : Run
unfolding start_pool spawn submitted taken size
closed_pool = record { last = _; reach = next taken.reach (close refl) }

unfoldable failed : Run
unfolding start_pool spawn submitted taken closed_pool size
failed = record { last = _; reach = next closed_pool.reach (work [] [] refl (go_wrong refl)) }

unfoldable ended : Run
unfolding start_pool spawn submitted taken closed_pool failed size
ended = record {
  last = _;
  reach =
      next (next failed.reach (work [] [] refl (report (omega arith))))
        (work [] [] refl (drained refl refl));
}

Reach-start-Sound_example : Sound failed.last
Reach-start-Sound_example = Reach-start-Sound handler (pos 1) 2 failed.last failed.reach

close_handles_example :
    (ended.last.shared.closed ≡ true)
    × (total (λ job. job) ended.last.shared.handled
        ≡ total (λ job. job) ended.last.shared.submitted)
unfolding start_pool spawn submitted taken closed_pool failed ended size
close_handles_example = close_handles handler (pos 1) 2 ended.last (λ job. job) ended.reach refl tt

unfoldable failing : Reach ℕ ℕ handler closed_pool.last failed.last
unfolding start_pool spawn submitted taken closed_pool failed size
failing = next here (work [] [] refl (go_wrong refl))

closed_ends_example :
    (steps handler failing ≤ measure closed_pool.last)
    × ((end : Pool ℕ ℕ) × Reach ℕ ℕ handler failed.last end × AllStopped end.workers)
unfolding start_pool spawn submitted taken closed_pool size
closed_ends_example =
    closed_ends handler (pos 1) 2 closed_pool.last failed.last closed_pool.reach refl failing

-- Two jobs of a pool of one worker have failed, and no one has read the first error.
unfoldable blocked : Run
unfolding start_pool spawn submitted taken size
blocked = record {
  last = _;
  reach =
      next
        (next
          (next
            (next
              (next (next taken.reach (submit 7 refl (omega arith)))
                (work [] [] refl (go_wrong refl)))
              (work [] [] refl (report (omega arith))))
            (work [] [] refl (receive refl)))
          (work [] [] refl (go_wrong refl)))
        (close refl);
}

unfoldable unblocked : Run
unfolding start_pool spawn submitted taken size blocked
unblocked = record { last = _; reach = next blocked.reach (read_error refl) }

close_blocks_example :
    (unblocked.last.workers ≡ blocked.last.workers)
    × ((unblocked.last.shared.cancelled ≡ true)
        ⊎ (size unblocked.last.shared.errors < size blocked.last.shared.errors))
unfolding start_pool spawn submitted taken size blocked unblocked
close_blocks_example =
    close_blocks handler blocked.last unblocked.last refl refl refl (tt, tt) (read_error refl)
