-- ===== src/Pool/Block.antt =====
-- How `Close` blocks while no one reads the errors.
use cartnova_go_microservice.Prelude.{
  ◌<◌, ◌≡◌, refl, subst, true, false, ◌⊎◌, inl, inr, Option, List, [], ◌∷◌, ◌++◌, arith,
}
use cartnova_go_microservice.Pool.{
  size, Worker, waiting, handling, reporting, stopped, Shared, Pool, Move, receive, drained,
  interrupted, succeed, go_wrong, report, give_up, Step, work, submit, hand_over, close, cancel,
  read_error,
}

module _ {T E : Type 0} where
  -- Stopped, or with an error to report.
  abbrev IsBlocked : Worker T E → Type 0
  IsBlocked waiting = ⊥
  IsBlocked (handling job) = ⊥
  IsBlocked (reporting e) = Unit
  IsBlocked stopped = Unit

  abbrev pub AllBlocked : List (Worker T E) → Type 0
  AllBlocked [] = Unit
  AllBlocked (w ∷ rest) = IsBlocked w × AllBlocked rest

  AllBlocked-middle :
      (before after : List (Worker T E)) (w : Worker T E)
      → AllBlocked (before ++ w ∷ after)
      → IsBlocked w
  AllBlocked-middle [] after w h = h.0
  AllBlocked-middle (v ∷ before) after w h = AllBlocked-middle before after w h.1

  no-Move :
      (handler : T → Option E) {s t : Shared T E} {w v : Worker T E}
      → Move T E handler s w t v
      → IsBlocked w
      → s.cancelled ≡ false
      → size s.errors ≡ s.error_capacity
      → ⊥
  no-Move handler (receive e) b n f = b
  no-Move handler (drained e c) b n f = b
  no-Move handler (interrupted c) b n f = b
  no-Move handler (succeed e) b n f = b
  no-Move handler (go_wrong e) b n f = b
  no-Move handler (report room) b n f = omega arith
  no-Move handler (give_up c) b n f = absurd (cc)

-- When a pool was closed and not cancelled, the channel of errors is full, and every worker has stopped or has an
-- error to report, no step changes a worker: a step cancels, or reads an error. So `Close`, which waits for the
-- workers, does not return before its caller reads errors.
pub close_blocks :
    {T E : Type 0} (handler : T → Option E) (p q : Pool T E)
    → p.shared.closed ≡ true
    → p.shared.cancelled ≡ false
    → size p.shared.errors ≡ p.shared.error_capacity
    → AllBlocked p.workers
    → Step T E handler p q
    → (q.workers ≡ p.workers)
      × ((q.shared.cancelled ≡ true) ⊎ (size q.shared.errors < size p.shared.errors))
unfolding size
close_blocks handler p q c n f b (work before after {w} e m) =
    absurd (no-Move handler m (AllBlocked-middle before after w (subst AllBlocked e b)) n f)
close_blocks handler p q c n f b (submit job is_open room) = absurd (cc)
close_blocks handler p q c n f b (hand_over job before after is_open empty e) = absurd (cc)
close_blocks handler p q c n f b (close is_open) = absurd (cc)
close_blocks handler p q c n f b (cancel k) = (refl, inl refl)
close_blocks handler p q c n f b (read_error e) = (refl, inr (ground arith))
