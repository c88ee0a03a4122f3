-- ===== src/ConsumerProducer/Ordering.antt =====
-- The job ids of a queue that never discards, with one worker: they are finished in the order in
-- which they were given out, so `finished_job_id_` tells which jobs are done.
use ros2_perception.Prelude.{
  ℕ, zero, suc, ◌+◌, ◌^◌, ◌<◌, ◌≤◌, ◌≡◌, refl, List, [], ◌∷◌, Bool, true, false, not, ◌||◌, Option,
  none, some, arith, if_elim, length, ltb,
}
use ros2_perception.JobQueue.{Job, CpQueue}
use ros2_perception.JobQueue.Refine.{Removed}
use ros2_perception.ConsumerProducer.{
  ConsumerProducer, Lane, Priority, low, high, lane, set_lane, Held, AddCall, Round, complete_lane,
  is_prefered, complete, pause, resume, shut_down,
}
use ros2_perception.ConsumerProducer.Rounds.{
  without_head, RoundOf, aborts, add_round-RoundOf, takes_high, takes_low, finds_nothing,
  get_job-GotOf,
}
use ros2_perception.ConsumerProducer.Machine.{
  Sys, with_cp, Event, adds, takes, completes, pauses, resumes, shuts_down, after_add, after_get,
  take_job, complete_job, step,
}
use ros2_perception.ConsumerProducer.Accounting.{Inv, lane-IsValid, Ensures, Misuse}
use ros2_perception.ConsumerProducer.Waiting.{
  CountsUp, ids_waiting, InOrder, OrderInv, round-InOrder,
}

-- A job moves from the head of its queue to the worker's hand.
taken-CountsUp :
    (l : Lane) (j : Job) (q : CpQueue)
    → CountsUp l.finished_job_id (ids_waiting l.queue) l.job_id
    → Removed l.queue j q
    → CountsUp l.finished_job_id (j.job_id ∷ ids_waiting q) l.job_id
taken-CountsUp l j q h m = rw m.items at h

no_hands {ℓ} : {A : Type ℓ} (xs : List A) → length xs < 1 → xs ≡ []
no_hands [] h = refl
no_hands (x ∷ xs) h = absurd (omega arith)

taken-InOrder :
    (s : ConsumerProducer) (p q : Priority) (j : Job) (r : CpQueue) (h : Held)
    → InOrder p s []
    → Removed (lane s q).queue j r
    → h.priority ≡ q
    → h.job ≡ j
    → InOrder p (without_head s q r) (h ∷ [])
taken-InOrder s low low j r h v m e k = rw (e, k) (v.0, taken-CountsUp s.low_lane j r v.1 m)
taken-InOrder s high high j r h v m e k = rw (e, k) (refl, taken-CountsUp s.high_lane j r v.1 m)
taken-InOrder s low high j r h v m e k = rw e v
taken-InOrder s high low j r h v m e k = rw e v

abbrev held_now : Priority → ℕ → Job → ℕ → Held
held_now p r j now = record { priority = p; ret = r; job = j; timestamp_popped = now }

take_job-OrderInv :
    (p : Priority) (y : Sys) (now : ℕ)
    → Inv y
    → OrderInv p y
    → Ensures (OrderInv p) ⊥ (take_job y now)
unfolding take_job
take_job-OrderInv p y now w v =
    if_elim (Ensures (OrderInv p) ⊥) (ltb (length y.held) y.live)
      (λ free.
        let idle : y.held ≡ [] = no_hands y.held (ground (arith, v)) in
        let order : InOrder p y.cp [] = rw idle at v.order in
        let room : length y.held < y.live = ground arith in
        elim (get_job-GotOf y.cp w.low_inv.valid w.high_inv.valid) [
          | takes_high j q m e ↦
              rw (e, Ensures)
                (record {
                  hands = room;
                  single = v.single;
                  order = rw idle (
                      taken-InOrder y.cp p high j q (held_now high y.cp.high_lane.queue.count j now)
                        order m refl refl);
                })
          | takes_low j q _ m e ↦
              rw (e, Ensures)
                (record {
                  hands = room;
                  single = v.single;
                  order = rw idle (
                      taken-InOrder y.cp p low j q (held_now low y.cp.low_lane.queue.count j now)
                        order m refl refl);
                })
          | finds_nothing _ _ e ↦
              rw (e, Ensures)
                (if_elim (λ g. OrderInv p (after_get y now g y.cp)) y.cp.shutdown
                  (λ _. record { hands = omega arith; single = omega (arith, v); order = v.order })
                  (λ _. v))
        ])
      (λ _. v)

complete_lane-order :
    (l : Lane) (h : Held) (b : Bool) (now : ℕ)
    → CountsUp l.finished_job_id (h.job.job_id ∷ ids_waiting l.queue) l.job_id
    → CountsUp
        (complete_lane l h b now).finished_job_id
        (ids_waiting (complete_lane l h b now).queue)
        (complete_lane l h b now).job_id
complete_lane-order l h true now v = v.1
complete_lane-order l h false now v = v.1

completed-InOrder :
    (s : ConsumerProducer) (p q : Priority) (h : Held) (b : Bool) (now : ℕ)
    → h.priority ≡ q
    → InOrder p s (h ∷ [])
    → InOrder p (set_lane s q (complete_lane (lane s q) h b now)) []
completed-InOrder s low low h b now e v =
    (v.0, complete_lane-order s.low_lane h b now (simp e at (v.1)))
completed-InOrder s high high h b now e v =
    (refl, complete_lane-order s.high_lane h b now (simp e at (v.1)))
completed-InOrder s low high h b now e v = (v.0, simp e at (v.1))
completed-InOrder s high low h b now e v = (refl, simp e at (v.1))

complete_only :
    (p : Priority) (y : Sys) (hs : List Held) (i now : ℕ)
    → y.held ≡ hs
    → length hs ≤ 1
    → OrderInv p y
    → OrderInv p (complete_job y i now)
unfolding complete_job complete
complete_only p y [] i now e one v = rw (e, complete_job) v
complete_only p y (h ∷ []) zero now e one v =
    rw (e, complete_job)
      (record {
        hands = rw e (omega arith);
        single = v.single;
        order =
            rw e (
              completed-InOrder y.cp p h.priority h (is_prefered y.cp h) now refl
                (rw e at v.order));
      })
complete_only p y (h ∷ []) (suc i) now e one v = rw (e, complete_job) v
complete_only p y (h ∷ g ∷ hs) i now e one v = absurd (omega arith)

add-OrderInv :
    (p q : Priority) (c : AddCall) (y : Sys) (o : Option Round)
    → OrderInv p y
    → (lane y.cp p).job_id + 1 < 2 ^ 64
    → RoundOf y.cp q c o
    → Ensures
        (OrderInv p)
        (Misuse y (adds q c))
        (elim o [ none ↦ none | some r ↦ some (after_add y r) ])
add-OrderInv p q c y none v small (aborts runs stopped) = (runs, stopped)
add-OrderInv p q c y (some r) v small d = record {
  hands = v.hands;
  single = v.single;
  order = round-InOrder y.cp p q c y.held v.order small d;
}

-- Pausing, resuming and shutting down leave the lanes alone.
flags :
    (p : Priority) {y : Sys} {paused shutdown : Bool}
    → OrderInv p y
    → OrderInv p (record y { cp = record y.cp { paused = paused; shutdown = shutdown } })
flags low v = record { hands = v.hands; single = v.single; order = v.order }
flags high v = record { hands = v.hands; single = v.single; order = v.order }

-- Every critical section keeps the ids of a queue that never discards in order.
pub step-OrderInv :
    (p : Priority) (y : Sys) (e : Event)
    → Inv y
    → OrderInv p y
    → (lane y.cp p).job_id + 1 < 2 ^ 64
    → Ensures (OrderInv p) (Misuse y e) (step y e)
unfolding step pause resume shut_down
step-OrderInv p y (adds q c) w v small =
    add-OrderInv p q c y _ v small (add_round-RoundOf y.cp q c (lane-IsValid y q w))
step-OrderInv p y (takes now) w v small = take_job-OrderInv p y now w v
step-OrderInv p y (completes i now) w v small =
    complete_only p y y.held i now refl (omega (arith, v)) v
step-OrderInv p y pauses w v small =
    if_elim (λ o. Ensures (OrderInv p) (Misuse y pauses) (with_cp y o))
      (not y.cp.allow_log || not y.cp.paused) (λ _. flags p v) (λ h. ground arith)
step-OrderInv p y resumes w v small =
    if_elim (λ o. Ensures (OrderInv p) (Misuse y resumes) (with_cp y o))
      (not y.cp.allow_log || y.cp.paused) (λ _. flags p v) (λ h. ground arith)
step-OrderInv p y shuts_down w v small =
    if_elim (λ o. Ensures (OrderInv p) (Misuse y shuts_down) (with_cp y o))
      (not y.cp.allow_log || not y.cp.shutdown) (λ _. flags p v) (λ h. ground arith)
