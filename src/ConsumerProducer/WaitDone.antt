-- ===== src/ConsumerProducer/WaitDone.antt =====
-- `add_job_wait_done`: what it means that its loop ends, for a queue that never discards, and for
-- the low queue of an object that does.
use ros2_perception.Prelude.{
  ℕ, suc, ◌+◌, ◌^◌, ◌<◌, ◌≤◌, ◌≡◌, ◌≢◌, refl, List, [], ◌∷◌, ◌⊎◌, inl, inr, Bool, true, false,
  Option, none, some, arith, length, get_elem?, ℤ, subst,
}
use ros2_perception.JobQueue.{Job}
use ros2_perception.JobQueue.Refine.{waiting, pop_lem, waiting-new_queue}
use ros2_perception.ConsumerProducer.{
  ConsumerProducer, Priority, low, high, lane, set_lane, AddCall, Held, wait_done,
  new_consumer_producer, start, add_round, discard, discard_head,
}
use ros2_perception.ConsumerProducer.Rounds.{head_dropped}
use ros2_perception.ConsumerProducer.Machine.{Sys, Event, adds, after_add, start_all, step, run}
use ros2_perception.ConsumerProducer.Accounting.{Inv, Ensures, step-Inv}
use ros2_perception.ConsumerProducer.History.{start_all-Inv}
use ros2_perception.ConsumerProducer.Waiting.{OrderInv, open_ids, never_discards}
use ros2_perception.ConsumerProducer.Ordering.{step-OrderInv}
use ros2_perception.ConsumerProducer.Growth.{Any, wait_done-cases, Grows, step-Grows, All}

run_on :
    (p : Priority) (es : List Event) (k : ℕ) (z : Sys) (y : Sys) (M : Type 0) (o : Option Sys)
    → Ensures Inv M o
    → Ensures (OrderInv p) M o
    → Ensures (Grows p y) Unit o
    → (lane y.cp p).job_id + suc k < 2 ^ 64
    → ((x : Sys)
        → Inv x
        → OrderInv p x
        → (lane x.cp p).job_id + k < 2 ^ 64
        → run x es ≡ some z
        → OrderInv p z)
    → elim o [ none ↦ none | some x ↦ run x es ] ≡ some z
    → OrderInv p z
run_on p es k z y M none w v g small rest e = cc
run_on p es k z y M (some x) w v g small rest e = rest x w v (omega arith) e

-- The ids stay in order over any history of fewer than 2 ^ 64 events.
pub run-OrderInv :
    (p : Priority) (y : Sys) (es : List Event) (z : Sys)
    → Inv y
    → OrderInv p y
    → (lane y.cp p).job_id + length es < 2 ^ 64
    → run y es ≡ some z
    → OrderInv p z
unfolding run
run-OrderInv p y [] z w v small e = let same : y ≡ z = cc in subst (OrderInv p) same v
run-OrderInv p y (d ∷ es) z w v small e =
    run_on p es (length es) z y _ _ (step-Inv y d w) (step-OrderInv p y d w v (omega arith))
      (step-Grows p y d w) small (λ x w' v' s k. run-OrderInv p x es z w' v' s k) e

start_all-OrderInv :
    (p : Priority) (queue_size : ℕ) (prefer : ℤ) (hi_size : ℕ) (log : Bool)
    → let y = start_all (new_consumer_producer 1 queue_size prefer hi_size log) in
      never_discards y.cp p ≡ true → OrderInv p y
unfolding start_all start new_consumer_producer
start_all-OrderInv low qs prefer hs log keeps = record {
  hands = omega arith;
  single = omega arith;
  order = (keeps, rw waiting-new_queue refl);
}
start_all-OrderInv high qs prefer hs log keeps = record {
  hands = omega arith;
  single = omega arith;
  order = (refl, rw waiting-new_queue refl);
}

start_all-never_discards :
    (p : Priority) (s : ConsumerProducer)
    → never_discards s p ≡ true
    → never_discards (start_all s).cp p ≡ true
unfolding start_all start
start_all-never_discards low s h = h
start_all-never_discards high s h = refl

start_all-job_id :
    (p : Priority) (qs : ℕ) (prefer : ℤ) (hs : ℕ) (log : Bool)
    → (lane (start_all (new_consumer_producer 1 qs prefer hs log)).cp p).job_id ≡ 0
unfolding start_all start new_consumer_producer
start_all-job_id low qs prefer hs log = refl
start_all-job_id high qs prefer hs log = refl

-- With one worker, after any history of fewer than 2 ^ 64 events: on a queue that never discards,
-- a caller of `add_job_wait_done` waits for an id that was given out exactly while the job of that
-- id waits in the queue or is in the worker's hand.
pub wait_done_exact :
    (p : Priority) (queue_size : ℕ) (prefer : ℤ) (hi_size : ℕ) (log : Bool) (es : List Event)
    (z : Sys) (id : ℕ)
    → 0 < queue_size
    → 0 < hi_size
    → never_discards (new_consumer_producer 1 queue_size prefer hi_size log) p ≡ true
    → length es < 2 ^ 64
    → run (start_all (new_consumer_producer 1 queue_size prefer hi_size log)) es ≡ some z
    → id ≤ (lane z.cp p).job_id
    → ((wait_done z.cp p id ≡ false) × All (λ i. i ≢ id) (open_ids p z))
      ⊎ ((wait_done z.cp p id ≡ true) × Any (λ i. i ≡ id) (open_ids p z))
wait_done_exact p qs prefer hs log es z id hq hh keeps small e k =
    wait_done-cases p z id
      (run-OrderInv p _ es z (start_all-Inv 1 qs prefer hs log hq hh)
        (start_all-OrderInv p qs prefer hs log (start_all-never_discards p _ keeps))
        (omega (arith, start_all-job_id p qs prefer hs log)) e)
      k

-- In a full low queue the new job may take the place of one that came later than a job still in
-- the worker's hand: `finished_job_id_` then passes the id of the job in hand, and a caller of
-- `add_job_wait_done` that waits for it returns although its job is not done.
pub wait_done_early :
    (y : Sys) (c : AddCall) (i : ℕ) (h : Held) (j : Job) (rest : List Job)
    → Inv y
    → y.cp.paused ≡ false
    → y.cp.shutdown ≡ false
    → y.cp.blocking ≡ false
    → c.not_discardable ≡ false
    → y.cp.low_lane.queue.full ≡ true
    → waiting y.cp.low_lane.queue ≡ j ∷ rest
    → j.not_discardable ≡ false
    → get_elem? y.held i ≡ some h
    → h.priority ≡ low
    → h.job.job_id ≤ j.job_id
    → (z : Sys) × (step y (adds low c) ≡ some z)
      × (wait_done z.cp low h.job.job_id ≡ false)
      × (get_elem? z.held i ≡ some h)
unfolding step add_round discard discard_head wait_done
wait_done_early y c i h j rest w up on drops nd full head discardable hand is_low le =
    elim (pop_lem y.cp.low_lane.queue w.low_inv.valid) [
      | inl (nothing_in, _, _) ↦ cc
      | inr (k, q, m) ↦
          let same : k ≡ j = cc (m.items) in
          (
            after_add y (record {
              state = set_lane y.cp low (head_dropped y.cp.low_lane k q);
              call = record c { ret = 3 };
              done = false;
              job_id = 0;
              consumed = k.job ∷ [];
            }),
            ground (arith, m.peeked, m.popped, m.counted),
            ground arith,
            hand,
          )
    ]
