-- ===== src/JobQueue/Tests.antt =====
-- Runs of the ring of jobs, and the theorems of `Refine` at a concrete queue.
use ros2_perception.Prelude.{ℕ, ◌≡◌, refl, ◌∷◌, [], true, false, some, none, arith, ◌⊎◌}
use mathlib.Core.Option
use ros2_perception.JobQueue.{CpQueue, Job, no_job, add, pop, Popped}
use ros2_perception.JobQueue.Refine.{IsValid, Added, Removed, add_lem, pop_lem, waiting}

abbrev log_job : ℕ → Job
log_job n = record { job = n; timestamp = 5; job_id = n; not_discardable = false }

-- Jobs 8 and 9, round the end of three slots.
abbrev wrapped : CpQueue
wrapped = record {
  jobs = log_job 9 ∷ no_job ∷ log_job 8 ∷ [];
  queue_size = 3;
  head = 2;
  tail = 1;
  count = 2;
  full = false;
  empty = false;
  allow_log = true;
}

wrapped-IsValid : IsValid wrapped
wrapped-IsValid = ground arith

add_lem_example : (r : CpQueue) × (add wrapped (log_job 10) ≡ some r) × Added wrapped (log_job 10) r
add_lem_example = add_lem wrapped (log_job 10) wrapped-IsValid refl

pop_lem_example :
    ((waiting wrapped ≡ [])
      × (◌≡◌ {A = ℕ} 2 0)
      × (pop wrapped false ≡ some (record { ret = 0; job = none; queue = wrapped })))
    ⊎ ((job : Job) × (r : CpQueue) × Removed wrapped job r)
pop_lem_example = pop_lem wrapped wrapped-IsValid

pop_runs : Option.map (λ (p : Popped). p.job) (pop wrapped false) ≡ some (some (log_job 8))
unfolding pop
pop_runs = refl

-- A queue whose `count_` is not what `full_` says aborts, if it may log.
add_aborts : add (record wrapped { count = 3 }) (log_job 1) ≡ none
unfolding add
add_aborts = refl
