-- ===== src/ConsumerProducer/Accounting.antt =====
-- The counters: every job added is waiting in its queue, in the hands of a worker, finished or
-- dropped, on every interleaving.
use ros2_perception.Prelude.{
  ℕ, zero, suc, ◌+◌, ◌%◌, ◌^◌, ◌≡◌, refl, List, [], ◌∷◌, Bool, true, false, not, ◌||◌, Option, none,
  some, arith, inl, inr, Option-cases, if_elim, ap, ◌∙◌, ltb, ◌==◌, length, get_elem?,
}
use ros2_perception.JobQueue.{Job, CpQueue}
use ros2_perception.JobQueue.Refine
use ros2_perception.JobQueue.Refine.{
  new_queue-IsValid, count-new_queue, Added, Removed, add_lem, pop_lem,
}
use ros2_perception.ConsumerProducer.{
  ConsumerProducer, complete_lane, is_prefered, Lane, Priority, low, high, lane, set_lane, Held,
  AddCall, Round, pause, resume, shut_down, complete,
}
use ros2_perception.ConsumerProducer.Rounds.{
  self_dropped, head_dropped, enqueued, RoundOf, waits, drops_self, drops_head, enqueues, aborts,
  add_round-RoundOf, takes_high, takes_low, finds_nothing, get_job-GotOf,
}
use ros2_perception.ConsumerProducer.Machine.{
  Sys, with_cp, after_add, Event, adds, takes, completes, pauses, resumes, shuts_down, after_get,
  take_job, complete_job, step, remove_at,
}

abbrev pub count_if : Priority → Priority → ℕ → ℕ
count_if low low n = suc n
count_if high high n = suc n
count_if _ _ n = n

-- How many of the jobs in hand have the priority.
abbrev pub in_hand : Priority → List Held → ℕ
in_hand p [] = 0
in_hand p (h ∷ hs) = count_if p h.priority (in_hand p hs)

-- A lane whose counters account for its queue and for `held` jobs in hand.
pub record LaneInv (l : Lane) (held : ℕ) : Type 0 where
  pub valid : Refine.IsValid l.queue
  pub accounted : l.added ≡ (l.finished + l.dropped + l.queue.count + held) % 2 ^ 64

pub record Inv (y : Sys) : Type 0 where
  pub low_inv : LaneInv y.cp.low_lane (in_hand low y.held)
  pub high_inv : LaneInv y.cp.high_lane (in_hand high y.held)

self_dropped-LaneInv : (l : Lane) (n : ℕ) → LaneInv l n → LaneInv (self_dropped l) n
self_dropped-LaneInv l n v = record { valid = v.valid; accounted = omega arith }

head_dropped-LaneInv :
    (l : Lane) (n : ℕ) (j : Job) (q : CpQueue)
    → LaneInv l n
    → Removed l.queue j q
    → LaneInv (head_dropped l j q) n
head_dropped-LaneInv l n j q v m = record { valid = m.valid; accounted = omega arith }

enqueued-LaneInv :
    (c : AddCall) (l : Lane) (n : ℕ) (j : Job) (q : CpQueue)
    → LaneInv l n
    → Added l.queue j q
    → LaneInv (enqueued c l q) n
enqueued-LaneInv c l n j q v m =
    if_elim (λ x. LaneInv x n) (c.ret == 1)
      (λ _. record { valid = m.valid; accounted = omega arith })
      (λ _. record { valid = m.valid; accounted = omega arith })

taken-LaneInv :
    (l : Lane) (n : ℕ) (j : Job) (q : CpQueue)
    → LaneInv l n
    → Removed l.queue j q
    → LaneInv (record l { queue = q }) (suc n)
taken-LaneInv l n j q v m = record { valid = m.valid; accounted = omega arith }

complete_lane-LaneInv :
    (l : Lane) (n : ℕ) (h : Held) (prefered : Bool) (now : ℕ)
    → LaneInv l (suc n)
    → LaneInv (complete_lane l h prefered now) n
complete_lane-LaneInv l n h true now v = record { valid = v.valid; accounted = omega arith }
complete_lane-LaneInv l n h false now v = record { valid = v.valid; accounted = omega arith }

-- The two lanes, and how many of the jobs in hand are of each.
abbrev Both : ConsumerProducer → ℕ → ℕ → Type 0
Both s m n = LaneInv s.low_lane m × LaneInv s.high_lane n

round-Both :
    (s : ConsumerProducer) (p : Priority) (c : AddCall) (m n : ℕ) {r : Round}
    → Both s m n
    → RoundOf s p c (some r)
    → Both r.state m n
round-Both s p c m n v (waits r e _ _) = rw e v
round-Both s low c m n v (drops_self r e _ _) = rw e (self_dropped-LaneInv _ m v.0, v.1)
round-Both s high c m n v (drops_self r e _ _) = rw e (v.0, self_dropped-LaneInv _ n v.1)
round-Both s low c m n v (drops_head r j q d _ e _ _) =
    rw e (head_dropped-LaneInv _ m j q v.0 d, v.1)
round-Both s high c m n v (drops_head r j q d _ e _ _) =
    rw e (v.0, head_dropped-LaneInv _ n j q v.1 d)
round-Both s low c m n v (enqueues r q d e _ _ _) = rw e (enqueued-LaneInv c _ m _ q v.0 d, v.1)
round-Both s high c m n v (enqueues r q d e _ _ _) = rw e (v.0, enqueued-LaneInv c _ n _ q v.1 d)

-- What an operation that may abort leaves: `P` of its result, or `M` where it aborts.
abbrev pub Ensures : (Sys → Type 0) → Type 0 → Option Sys → Type 0
Ensures P M none = M
Ensures P M (some y) = P y

take_job-Inv : (y : Sys) (now : ℕ) → Inv y → Ensures Inv ⊥ (take_job y now)
unfolding take_job
take_job-Inv y now v =
    if_elim (Ensures Inv ⊥) (ltb (length y.held) y.live)
      (λ _. elim (get_job-GotOf y.cp v.low_inv.valid v.high_inv.valid) [
        | takes_high j q m e ↦
            rw (e, Ensures)
              (record { low_inv = v.low_inv; high_inv = taken-LaneInv _ _ j q v.high_inv m })
        | takes_low j q _ m e ↦
            rw (e, Ensures)
              (record { low_inv = taken-LaneInv _ _ j q v.low_inv m; high_inv = v.high_inv })
        | finds_nothing _ _ e ↦
            rw (e, Ensures)
              (if_elim (λ g. Inv (after_get y now g y.cp)) y.cp.shutdown
                (λ _. record { low_inv = v.low_inv; high_inv = v.high_inv })
                (λ _. record { low_inv = v.low_inv; high_inv = v.high_inv }))
      ])
      (λ _. v)

in_hand-remove_at :
    (p : Priority) (hs : List Held) (i : ℕ) (h : Held)
    → get_elem? hs i ≡ some h
    → in_hand p hs ≡ count_if p h.priority (in_hand p (remove_at hs i))
in_hand-remove_at p [] i h e = cc
in_hand-remove_at p (x ∷ hs) zero h e = let same : x ≡ h = cc in rw same
in_hand-remove_at p (x ∷ hs) (suc i) h e =
    ap (count_if p x.priority) (in_hand-remove_at p hs i h e)
    ∙ count_if_comm p x.priority h.priority _
  where
    count_if_comm :
        (p q r : Priority) (n : ℕ) → count_if p q (count_if p r n) ≡ count_if p r (count_if p q n)
    count_if_comm low low low n = refl
    count_if_comm low low high n = refl
    count_if_comm low high low n = refl
    count_if_comm low high high n = refl
    count_if_comm high low low n = refl
    count_if_comm high low high n = refl
    count_if_comm high high low n = refl
    count_if_comm high high high n = refl

set_lane-Both :
    (s : ConsumerProducer) (p : Priority) (h : Held) (prefered : Bool) (now m n : ℕ)
    → Both s (count_if low p m) (count_if high p n)
    → Both (set_lane s p (complete_lane (lane s p) h prefered now)) m n
set_lane-Both s low h b now m n v = (complete_lane-LaneInv _ m h b now v.0, v.1)
set_lane-Both s high h b now m n v = (v.0, complete_lane-LaneInv _ n h b now v.1)

complete_job-Inv : (y : Sys) (i now : ℕ) → Inv y → Inv (complete_job y i now)
unfolding complete_job complete
complete_job-Inv y i now v = elim (Option-cases (get_elem? y.held i)) [
  | inl e ↦ rw (e, complete_job) v
  | inr (h, e) ↦
      let b =
        set_lane-Both y.cp h.priority h (is_prefered y.cp h) now (in_hand low (remove_at y.held i))
          (in_hand high (remove_at y.held i))
          (
            rw (in_hand-remove_at low y.held i h e) at v.low_inv,
            rw (in_hand-remove_at high y.held i h e) at v.high_inv,
          ) in
      rw (e, complete_job) (record { low_inv = b.0; high_inv = b.1 })
]

-- The calls that the code aborts on: they are made against the class's protocol.
abbrev pub Misuse : Sys → Event → Type 0
Misuse y (adds p c) = (y.cp.paused ≡ false) × (y.cp.shutdown ≡ true)
Misuse y (takes now) = ⊥
Misuse y (completes i now) = ⊥
Misuse y pauses = y.cp.paused ≡ true
Misuse y resumes = y.cp.paused ≡ false
Misuse y shuts_down = y.cp.shutdown ≡ true

after_round-Inv :
    (y : Sys) (p : Priority) (c : AddCall) (o : Option Round)
    → Inv y
    → RoundOf y.cp p c o
    → Ensures Inv (Misuse y (adds p c)) (elim o [ none ↦ none | some r ↦ some (after_add y r) ])
after_round-Inv y p c none v (aborts runs stopped) = (runs, stopped)
after_round-Inv y p c (some r) v d =
    let b =
      round-Both y.cp p c (in_hand low y.held) (in_hand high y.held) (v.low_inv, v.high_inv) d in
    record { low_inv = b.0; high_inv = b.1 }

pub lane-IsValid : (y : Sys) (p : Priority) → Inv y → Refine.IsValid (lane y.cp p).queue
lane-IsValid y low v = v.low_inv.valid
lane-IsValid y high v = v.high_inv.valid

-- Every critical section of every thread keeps the counters in step with the queues and with the
-- jobs in hand, and none of the checks inside the queues aborts: only a call against the protocol
-- (adding or shutting down after a shutdown, pausing twice, resuming what is not paused) does.
pub step-Inv : (y : Sys) (e : Event) → Inv y → Ensures Inv (Misuse y e) (step y e)
unfolding step pause resume shut_down
step-Inv y (adds p c) v =
    after_round-Inv y p c _ v (add_round-RoundOf y.cp p c (lane-IsValid y p v))
step-Inv y (takes now) v = take_job-Inv y now v
step-Inv y (completes i now) v = complete_job-Inv y i now v
step-Inv y pauses v =
    if_elim (λ o. Ensures Inv (Misuse y pauses) (with_cp y o))
      (not y.cp.allow_log || not y.cp.paused)
      (λ _. record { low_inv = v.low_inv; high_inv = v.high_inv }) (λ h. ground arith)
step-Inv y resumes v =
    if_elim (λ o. Ensures Inv (Misuse y resumes) (with_cp y o)) (not y.cp.allow_log || y.cp.paused)
      (λ _. record { low_inv = v.low_inv; high_inv = v.high_inv }) (λ h. ground arith)
step-Inv y shuts_down v =
    if_elim (λ o. Ensures Inv (Misuse y shuts_down) (with_cp y o))
      (not y.cp.allow_log || not y.cp.shutdown)
      (λ _. record { low_inv = v.low_inv; high_inv = v.high_inv }) (λ h. ground arith)
