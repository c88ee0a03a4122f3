-- ===== src/ConsumerProducer/Rounds.antt =====
-- The ways in which a round of `add_job_do_` and a visit of `get_job_` can go on valid queues.
use ros2_perception.Prelude.{
  add64, ◌≡◌, refl, [], ◌∷◌, Bool, true, false, not, ◌||◌, Option, none, some, arith, inl, inr,
  Bool-cases, if_elim, ◌==◌, if◌then◌else◌,
}
use ros2_perception.JobQueue.{Job, CpQueue}
use ros2_perception.JobQueue.Refine
use ros2_perception.JobQueue.Refine.{Added, Removed, add_lem, pop_lem}
use ros2_perception.ConsumerProducer.{
  ConsumerProducer, Lane, Priority, low, high, lane, set_lane, AddCall, Round, add_round, Got,
  taken, nothing, leave, get_job, discard, discard_self, discard_head, enqueue, blocks, note_length,
  count_blocked,
}

abbrev pub new_job : ConsumerProducer → Priority → AddCall → Job
new_job s p c = record {
  job = c.job;
  timestamp = c.timestamp_in;
  job_id = add64 (lane s p).job_id 1;
  not_discardable = c.not_discardable;
}

abbrev pub self_dropped : Lane → Lane
self_dropped l = record l { added = add64 l.added 1; dropped = add64 l.dropped 1 }

abbrev pub head_dropped : Lane → Job → CpQueue → Lane
head_dropped l j q = record l { queue = q; dropped = add64 l.dropped 1; finished_job_id = j.job_id }

abbrev pub enqueued : AddCall → Lane → CpQueue → Lane
enqueued c l q =
    count_blocked c (record l { queue = q; added = add64 l.added 1; job_id = add64 l.job_id 1 })

pub data RoundOf (s : ConsumerProducer) (p : Priority) (c : AddCall) : Option Round → Type 0 where
  waits : (r : Round) → r.state ≡ s → r.consumed ≡ [] → r.done ≡ false → RoundOf s p c (some r)
  drops_self :
      (r : Round)
      → r.state ≡ set_lane s p (self_dropped (lane s p))
      → r.consumed ≡ c.job ∷ []
      → blocks s p c ≡ false
      → RoundOf s p c (some r)
  drops_head :
      (r : Round) (j : Job) (q : CpQueue)
      → Removed (lane s p).queue j q
      → j.not_discardable ≡ false
      → r.state ≡ set_lane s p (head_dropped (lane s p) j q)
      → r.consumed ≡ j.job ∷ []
      → blocks s p c ≡ false
      → RoundOf s p c (some r)
  enqueues :
      (r : Round) (q : CpQueue)
      → Added (lane s p).queue (new_job s p c) q
      → r.state ≡ note_length (set_lane s p (enqueued c (lane s p) q))
      → r.consumed ≡ []
      → r.done ≡ true
      → r.job_id ≡ add64 (lane s p).job_id 1
      → RoundOf s p c (some r)
  aborts : s.paused ≡ false → s.shutdown ≡ true → RoundOf s p c none

enqueue-RoundOf :
    (s : ConsumerProducer) (p : Priority) (c : AddCall)
    → Refine.IsValid (lane s p).queue
    → (lane s p).queue.full ≡ false
    → RoundOf s p c (enqueue s p c)
unfolding enqueue
enqueue-RoundOf s p c v open_slot =
    let (q, e, a) = add_lem (lane s p).queue (new_job s p c) v open_slot in
    rw (e, enqueue) (enqueues _ q a refl refl refl refl)

discard-RoundOf :
    (s : ConsumerProducer) (p : Priority) (c : AddCall)
    → Refine.IsValid (lane s p).queue
    → (lane s p).queue.full ≡ true
    → blocks s p c ≡ false
    → RoundOf s p c (discard s p c)
unfolding discard discard_self discard_head
discard-RoundOf s p c v filled b = elim (pop_lem (lane s p).queue v) [
  | inl (_, nothing_in, _) ↦ absurd (ground arith)
  | inr (j, q, m) ↦ elim (Bool-cases j.not_discardable) [
    | inl stays ↦ rw (m.peeked, discard, stays) (drops_self _ refl refl b)
    | inr goes ↦
        rw (m.peeked, discard, goes, m.popped, discard_head, has_jobs m, or_true)
          (drops_head _ j q m goes refl refl b)
  ]
]
  where
    has_jobs :
        {j : Job} {q : CpQueue}
        → Removed (lane s p).queue j q
        → ((lane s p).queue.count == 0) ≡ false
    has_jobs m = ground arith

    or_true : (b : Bool) → (b || true) ≡ true
    or_true b = ground arith

pub add_round-RoundOf :
    (s : ConsumerProducer) (p : Priority) (c : AddCall)
    → Refine.IsValid (lane s p).queue
    → RoundOf s p c (add_round s p c)
unfolding add_round
add_round-RoundOf s p c v =
    if_elim (RoundOf s p c) s.paused (λ _. waits _ refl refl refl)
      λ runs.
        if_elim (RoundOf s p c) (not s.allow_log || not s.shutdown)
          (λ _.
            if_elim (RoundOf s p c) (lane s p).queue.full
              (λ filled.
                if_elim (RoundOf s p c) (blocks s p c) (λ _. waits _ refl refl refl)
                  (discard-RoundOf s p c v filled))
              (enqueue-RoundOf s p c v))
          (λ stopped. aborts runs (ground arith))

abbrev pub without_head : ConsumerProducer → Priority → CpQueue → ConsumerProducer
without_head s p q = set_lane s p (record (lane s p) { queue = q })

-- A worker takes the oldest job of the high queue, and one of the low queue only if there is none.
pub data GotOf (s : ConsumerProducer) (o : Option (Got × ConsumerProducer)) : Type 0 where
  takes_high :
      (j : Job) (q : CpQueue)
      → Removed s.high_lane.queue j q
      → o ≡ some (taken high s.high_lane.queue.count j, without_head s high q)
      → GotOf s o
  takes_low :
      (j : Job) (q : CpQueue)
      → s.high_lane.queue.count ≡ 0
      → Removed s.low_lane.queue j q
      → o ≡ some (taken low s.low_lane.queue.count j, without_head s low q)
      → GotOf s o
  finds_nothing :
      s.high_lane.queue.count ≡ 0
      → s.low_lane.queue.count ≡ 0
      → o ≡ some (if s.shutdown then leave else nothing, s)
      → GotOf s o

pub get_job-GotOf :
    (s : ConsumerProducer)
    → Refine.IsValid s.low_lane.queue
    → Refine.IsValid s.high_lane.queue
    → GotOf s (get_job s)
unfolding get_job
get_job-GotOf s vl vh = elim (pop_lem s.high_lane.queue vh) [
  | inr (j, q, m) ↦ takes_high j q m (rw (m.popped, get_job, count_pos m))
  | inl (_, none_high, eh) ↦ elim (pop_lem s.low_lane.queue vl) [
    | inr (j, q, m) ↦ takes_low j q none_high m (rw (eh, get_job, m.popped, count_pos m))
    | inl (_, none_low, el) ↦ finds_nothing none_high none_low (rw (eh, get_job, el))
  ]
]
  where
    count_pos : {a : CpQueue} {j : Job} {q : CpQueue} → Removed a j q → (a.count == 0) ≡ false
    count_pos m = ground arith
