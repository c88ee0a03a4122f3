-- ===== src/ConsumerProducer/Tests.antt =====
-- Runs of a `ConsumerProducer`, and the theorems about it at concrete states.
use ros2_perception.Prelude.{
  ◌⊎◌, ◌<◌, ℕ, ◌≡◌, ◌≢◌, refl, [], ◌∷◌, List, true, false, some, none, arith, pos, get_elem?,
}
use ros2_perception.JobQueue.{Job, no_job, add, pop, remove_head, new_queue}
use ros2_perception.JobQueue.Refine.{waiting}
use ros2_perception.ConsumerProducer.{
  Lane, low, high, AddCall, Held, new_consumer_producer, start, add_round, enqueue, get_job,
  complete, flushed, wait_done,
}
use ros2_perception.ConsumerProducer.Machine.{
  Sys, Event, adds, takes, completes, start_all, step, run, take_job, complete_job,
}
use ros2_perception.ConsumerProducer.Accounting.{Inv, Ensures, Misuse, step-Inv}
use ros2_perception.ConsumerProducer.History.{run-Inv, start_all-Inv}
use ros2_perception.ConsumerProducer.Flush.{flushed_lem, outstanding}
use ros2_perception.ConsumerProducer.Waiting.{open_ids}
use ros2_perception.ConsumerProducer.WaitDone.{wait_done_exact, wait_done_early}
use ros2_perception.ConsumerProducer.Growth.{All, Any}

abbrev call : ℕ → AddCall
call n = record { job = n; not_discardable = false; timestamp_in = 100; ret = 0 }

abbrev waiting_job : Job
waiting_job = record { job = 20; timestamp = 1; job_id = 2; not_discardable = false }

abbrev held_job : Held
held_job = record {
  priority = low;
  ret = 1;
  job = record { job = 10; timestamp = 0; job_id = 1; not_discardable = true };
  timestamp_popped = 3;
}

abbrev idle_lane : ℕ → Lane
idle_lane n = record {
  queue = record {
    jobs = no_job ∷ [];
    queue_size = 1;
    head = 0;
    tail = 0;
    count = 0;
    full = false;
    empty = true;
    allow_log = true;
  };
  wait_time = 0;
  process_time = 0;
  drop_time = 0;
  added = n;
  finished = n;
  blocked = 0;
  dropped = 0;
  job_id = n;
  finished_job_id = n;
}

-- One worker holds job 10; the low queue, of one slot, is full with job 20.
abbrev busy : Sys
busy = record {
  cp = record {
    low_lane = record (idle_lane 0) {
      queue = record {
        jobs = waiting_job ∷ [];
        queue_size = 1;
        head = 0;
        tail = 0;
        count = 1;
        full = true;
        empty = false;
        allow_log = true;
      };
      added = 2;
      job_id = 2;
    };
    high_lane = idle_lane 0;
    blocking = false;
    paused = false;
    shutdown = false;
    prefer_queue_size = 1;
    worker_num = 1;
    max_queue_len = 1;
    allow_log = true;
  };
  live = 1;
  held = held_job ∷ [];
  consumed = [];
}

busy-Inv : Inv busy
busy-Inv = ground arith

step-Inv_example : Ensures Inv (Misuse busy (adds low (call 30))) (step busy (adds low (call 30)))
step-Inv_example = step-Inv busy (adds low (call 30)) busy-Inv

flushed_lem_example :
    ((flushed busy.cp ≡ some true) × (outstanding busy ≡ 0))
    ⊎ ((flushed busy.cp ≡ some false) × (0 < outstanding busy))
flushed_lem_example = flushed_lem busy busy-Inv (omega arith)

wait_done_early_example :
    (z : Sys) × (step busy (adds low (call 30)) ≡ some z)
    × (wait_done z.cp low 1 ≡ false)
    × (get_elem? z.held 0 ≡ some held_job)
unfolding waiting
wait_done_early_example =
    wait_done_early busy (call 30) 0 held_job waiting_job [] busy-Inv refl refl refl refl refl refl
      refl refl refl (omega arith)

abbrev history : List Event
history = adds high (call 5) ∷ adds low (call 6) ∷ takes 200 ∷ completes 0 210 ∷ []

abbrev begun : Sys
begun = start_all (new_consumer_producer 1 2 (pos 0) 2 true)

abbrev ended : Sys
ended = elim (run begun history) [ none ↦ begun | some y ↦ y ]

run-ended : run begun history ≡ some ended
unfolding run step start_all start new_consumer_producer new_queue add_round enqueue add take_job
    get_job pop remove_head complete_job complete
run-ended = refl

-- The high job was done first; the low one is still open.
consumed-ended : ended.consumed ≡ (5, true) ∷ []
unfolding run step start_all start new_consumer_producer new_queue add_round enqueue add take_job
    get_job pop remove_head complete_job complete
consumed-ended = refl

wait_done_exact_example :
    ((wait_done ended.cp high 1 ≡ false) × All (λ i. i ≢ 1) (open_ids high ended))
    ⊎ ((wait_done ended.cp high 1 ≡ true) × Any (λ i. i ≡ 1) (open_ids high ended))
unfolding run step start_all start new_consumer_producer new_queue add_round enqueue add take_job
    get_job pop remove_head complete_job complete
wait_done_exact_example =
    wait_done_exact high 2 (pos 0) 2 true history ended 1 (omega arith) (omega arith) refl
      (omega arith) run-ended (omega arith)

run-Inv_example : Inv ended
run-Inv_example =
    run-Inv begun history ended (start_all-Inv 1 2 (pos 0) 2 true (omega arith) (omega arith))
      run-ended
