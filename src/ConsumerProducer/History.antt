-- ===== src/ConsumerProducer/History.antt =====
-- The accounts of `ConsumerProducer` of utils/consumer_producer.cpp from its start on.
use ros2_perception.Prelude.{ℕ, ◌<◌, ◌≡◌, List, [], ◌∷◌, Bool, Option, none, some, arith, ℤ, subst}
use ros2_perception.JobQueue.Refine.{new_queue-IsValid, count-new_queue}
use ros2_perception.ConsumerProducer.{start, new_consumer_producer}
use ros2_perception.ConsumerProducer.Machine.{Sys, start_all, Event, run}
use ros2_perception.ConsumerProducer.Accounting.{Inv, Ensures, step-Inv}

-- A new object with its threads started accounts for everything: there is nothing yet.
pub start_all-Inv :
    (workers queue_size : ℕ) (prefer : ℤ) (hi_size : ℕ) (log : Bool)
    → 0 < queue_size
    → 0 < hi_size
    → Inv (start_all (new_consumer_producer workers queue_size prefer hi_size log))
unfolding start_all start new_consumer_producer
start_all-Inv workers queue_size prefer hi_size log h k = record {
  low_inv = record {
    valid = new_queue-IsValid queue_size log h;
    accounted = omega (arith, count-new_queue queue_size log);
  };
  high_inv = record {
    valid = new_queue-IsValid hi_size log k;
    accounted = omega (arith, count-new_queue hi_size log);
  };
}

run_from :
    (es : List Event) (z : Sys) (M : Type 0) (o : Option Sys)
    → Ensures Inv M o
    → ((x : Sys) → Inv x → run x es ≡ some z → Inv z)
    → elim o [ none ↦ none | some x ↦ run x es ] ≡ some z
    → Inv z
run_from es z M none w rest e = cc
run_from es z M (some x) w rest e = rest x w e

-- So it is after any history that the protocol allows.
pub run-Inv : (y : Sys) (es : List Event) (z : Sys) → Inv y → run y es ≡ some z → Inv z
unfolding run
run-Inv y [] z v e = let same : y ≡ z = cc in subst Inv same v
run-Inv y (d ∷ es) z v e = run_from es z _ _ (step-Inv y d v) (λ x w k. run-Inv x es z w k) e
