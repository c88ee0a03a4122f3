-- ===== src/ConsumerProducer/Waiting.antt =====
-- The job ids of a queue of utils/consumer_producer.cpp that never discards, while a producer adds.
use ros2_perception.Prelude.{
  add64, ℕ, ◌+◌, ◌^◌, ◌<◌, ◌≤◌, ◌≡◌, refl, List, [], ◌∷◌, ◌++◌, map, Bool, true, some, arith,
  if_elim, length, ◌==◌,
}
use mathlib.Core.List.{map-append, append_assoc}
use ros2_perception.JobQueue.{Job, CpQueue}
use ros2_perception.JobQueue.Refine.{waiting, Added}
use ros2_perception.ConsumerProducer.{
  ConsumerProducer, Lane, Priority, low, high, lane, Held, AddCall, Round,
}
use ros2_perception.ConsumerProducer.Rounds.{
  enqueued, RoundOf, waits, drops_self, drops_head, enqueues,
}
use ros2_perception.ConsumerProducer.Machine.{Sys}

-- `is` counts up from `m + 1` to `n`.
abbrev pub CountsUp : ℕ → List ℕ → ℕ → Type 0
CountsUp m [] n = m ≡ n
CountsUp m (i ∷ is) n = (i ≡ m + 1) × CountsUp i is n

CountsUp-snoc :
    (m : ℕ) (is : List ℕ) (n : ℕ) → CountsUp m is n → CountsUp m (is ++ ((n + 1) ∷ [])) (n + 1)
CountsUp-snoc m [] n h = (omega arith, refl)
CountsUp-snoc m (i ∷ is) n h = (h.0, CountsUp-snoc i is n h.1)

-- The low queue of an object made with no preferred length, and every high queue.
abbrev pub never_discards : ConsumerProducer → Priority → Bool
never_discards s high = true
never_discards s low = s.blocking

abbrev keep_if : Priority → Priority → ℕ → List ℕ → List ℕ
keep_if low low i is = i ∷ is
keep_if high high i is = i ∷ is
keep_if _ _ i is = is

abbrev pub ids_in_hand : Priority → List Held → List ℕ
ids_in_hand p [] = []
ids_in_hand p (h ∷ hs) = keep_if p h.priority h.job.job_id (ids_in_hand p hs)

abbrev pub ids_waiting : CpQueue → List ℕ
ids_waiting q = map (λ j. j.job_id) (waiting q)

-- The ids of the jobs of a priority that are not done, the next to be done first.
abbrev pub open_ids : Priority → Sys → List ℕ
open_ids p y = ids_in_hand p y.held ++ ids_waiting (lane y.cp p).queue

abbrev pub InOrder : Priority → ConsumerProducer → List Held → Type 0
InOrder p s hs =
    (never_discards s p ≡ true)
    × CountsUp (lane s p).finished_job_id (ids_in_hand p hs ++ ids_waiting (lane s p).queue)
        (lane s p).job_id

pub record OrderInv (p : Priority) (y : Sys) : Type 0 where
  pub hands : length y.held ≤ y.live
  pub single : y.live ≤ 1
  pub order : InOrder p y.cp y.held

enqueued-CountsUp :
    (l : Lane) (c : AddCall) (is : List ℕ) (j : Job) (q : CpQueue)
    → CountsUp l.finished_job_id (is ++ ids_waiting l.queue) l.job_id
    → l.job_id + 1 < 2 ^ 64
    → j.job_id ≡ add64 l.job_id 1
    → Added l.queue j q
    → CountsUp
        (enqueued c l q).finished_job_id
        (is ++ ids_waiting (enqueued c l q).queue)
        (enqueued c l q).job_id
enqueued-CountsUp l c is j q h small e a =
    if_elim (λ (x : Lane). CountsUp x.finished_job_id (is ++ ids_waiting x.queue) x.job_id)
      (c.ret == 1) (λ _. grown) (λ _. grown)
  where
    no_wrap : add64 l.job_id 1 ≡ l.job_id + 1
    no_wrap = omega arith

    grown : CountsUp l.finished_job_id (is ++ ids_waiting q) (add64 l.job_id 1)
    grown =
        rw (a.items, map-append, ← append_assoc, e, no_wrap)
          (CountsUp-snoc l.finished_job_id (is ++ ids_waiting l.queue) l.job_id h)

pub round-InOrder :
    (s : ConsumerProducer) (p q : Priority) (c : AddCall) (hs : List Held) {r : Round}
    → InOrder p s hs
    → (lane s p).job_id + 1 < 2 ^ 64
    → RoundOf s q c (some r)
    → InOrder p r.state hs
round-InOrder s p q c hs v small (waits r e _ _) = rw e v
round-InOrder s low low c hs v small (drops_self r e _ b) = absurd (ground arith)
round-InOrder s high high c hs v small (drops_self r e _ b) = cc
round-InOrder s low high c hs v small (drops_self r e _ b) = rw e v
round-InOrder s high low c hs v small (drops_self r e _ b) = rw e v
round-InOrder s low low c hs v small (drops_head r j q d _ e _ b) = absurd (ground arith)
round-InOrder s high high c hs v small (drops_head r j q d _ e _ b) = cc
round-InOrder s low high c hs v small (drops_head r j q d _ e _ b) = rw e v
round-InOrder s high low c hs v small (drops_head r j q d _ e _ b) = rw e v
round-InOrder s low low c hs v small (enqueues r q a e _ _ _) =
    rw e (v.0, enqueued-CountsUp s.low_lane c _ _ q v.1 small refl a)
round-InOrder s high high c hs v small (enqueues r q a e _ _ _) =
    rw e (refl, enqueued-CountsUp s.high_lane c _ _ q v.1 small refl a)
round-InOrder s low high c hs v small (enqueues r q a e _ _ _) = rw e v
round-InOrder s high low c hs v small (enqueues r q a e _ _ _) = rw e v
