-- ===== src/Pool.antt =====
-- internal/concurrency/worker_pool.go: a pool of workers on one channel of jobs, as a step relation. The
-- handler is any function of a job to an error or none; `E` is the type of its errors. A send on a closed
-- channel and a second `Close` panic, and are no steps.
pub mod Jobs
pub mod Finish
pub mod Block
mod Tests
use cartnova_go_microservice.Prelude.{
  ℕ, zero, suc, ◌+◌, ◌<◌, ℤ, pos_part, is_nonpos, ◌≡◌, Bool, true, false, List, [], ◌∷◌, ◌++◌,
  if◌then◌else◌,
}
use cartnova_go_microservice.Prelude.{Option, none, some}

unfoldable pub size : {A : Type 0} → List A → ℕ
size [] = 0
size (x ∷ rest) = suc (size rest)

module _ (T E : Type 0) where
  -- Where a worker stands in the loop of its goroutine.
  pub data Worker : Type 0 where
    waiting : Worker
    handling : T → Worker
    reporting : E → Worker
    stopped : Worker

  -- The channels, the context, and the jobs that were accepted and that were given to the handler.
  pub record Shared : Type 0 where
    pub capacity : ℕ
    pub jobs : List T
    pub closed : Bool
    pub error_capacity : ℕ
    pub errors : List E
    pub cancelled : Bool
    pub submitted : List T
    pub handled : List T

  pub record Pool : Type 0 where
    pub shared : Shared
    pub workers : List Worker

  unfoldable pub spawn : ℕ → List Worker
  spawn zero = []
  spawn (suc n) = waiting ∷ spawn n

  -- `NewWorkerPool` and `Start`
  unfoldable pub start_pool : ℤ → ℕ → Pool
  start_pool worker_count buffer =
      let workers = if is_nonpos worker_count then 1 else pos_part worker_count in
      record {
        shared = record {
          capacity = buffer;
          jobs = [];
          closed = false;
          error_capacity = workers;
          errors = [];
          cancelled = false;
          submitted = [];
          handled = [];
        };
        workers = spawn workers;
      }

  -- What one worker does next.
  pub data Move (handler : T → Option E) (s : Shared) : Worker → Shared → Worker → Type 0 where
    receive :
        {job : T} {rest : List T}
        → s.jobs ≡ job ∷ rest
        → Move handler s waiting (record s { jobs = rest }) (handling job)
    drained : s.jobs ≡ [] → s.closed ≡ true → Move handler s waiting s stopped
    interrupted : s.cancelled ≡ true → Move handler s waiting s stopped
    succeed :
        {job : T}
        → handler job ≡ none
        → Move handler s (handling job) (record s { handled = job ∷ s.handled }) waiting
    go_wrong :
        {job : T} {e : E}
        → handler job ≡ some e
        → Move handler s (handling job) (record s { handled = job ∷ s.handled }) (reporting e)
    report :
        {e : E}
        → size s.errors < s.error_capacity
        → Move handler s (reporting e) (record s { errors = s.errors ++ e ∷ [] }) waiting
    give_up : {e : E} → s.cancelled ≡ true → Move handler s (reporting e) s stopped

  pub data Step (handler : T → Option E) (p : Pool) : Pool → Type 0 where
    work :
        (before after : List Worker) {w v : Worker} {s : Shared}
        → p.workers ≡ before ++ w ∷ after
        → Move handler p.shared w s v
        → Step handler p (record { shared = s; workers = before ++ v ∷ after })
    -- `Submit` of a job that finds room in the channel
    submit :
        (job : T)
        → p.shared.closed ≡ false
        → size p.shared.jobs < p.shared.capacity
        → Step handler p (record p {
          shared = record p.shared {
            jobs = p.shared.jobs ++ job ∷ [];
            submitted = job ∷ p.shared.submitted;
          };
        })
    -- `Submit` on a channel without a job in it, straight to a worker that waits
    hand_over :
        (job : T) (before after : List Worker)
        → p.shared.closed ≡ false
        → p.shared.jobs ≡ []
        → p.workers ≡ before ++ waiting ∷ after
        → Step handler p (record {
          shared = record p.shared { submitted = job ∷ p.shared.submitted };
          workers = before ++ handling job ∷ after;
        })
    -- The start of `Close`; it returns when every worker has stopped.
    close :
        p.shared.closed ≡ false
        → Step handler p (record p { shared = record p.shared { closed = true } })
    cancel :
        p.shared.cancelled ≡ false
        → Step handler p (record p { shared = record p.shared { cancelled = true } })
    -- Someone reads the channel of errors.
    read_error :
        {e : E} {rest : List E}
        → p.shared.errors ≡ e ∷ rest
        → Step handler p (record p { shared = record p.shared { errors = rest } })

  pub data Reach (handler : T → Option E) (p : Pool) : Pool → Type 0 where
    here : Reach handler p p
    next : {q r : Pool} → Reach handler p q → Step handler q r → Reach handler p r
