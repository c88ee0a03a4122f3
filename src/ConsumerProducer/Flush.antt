-- ===== src/ConsumerProducer/Flush.antt =====
-- `flush_and_pause`: its loop ends exactly when all the work is done, and its check never aborts.
use ros2_perception.Prelude.{
  false, ◌⊎◌, inl, inr, dec_lt, ℕ, suc, ◌+◌, ◌^◌, ◌<◌, ◌≡◌, List, [], ◌∷◌, true, some, arith,
  length, ◌∙◌, ap,
}
use ros2_perception.ConsumerProducer.{low, high, Held, flushed, Priority}
use ros2_perception.ConsumerProducer.Machine.{Sys}
use ros2_perception.ConsumerProducer.Accounting.{Inv, in_hand, count_if}

-- What is still to be done: the jobs that wait and the jobs in hand.
abbrev pub outstanding : Sys → ℕ
outstanding y = y.cp.low_lane.queue.count + y.cp.high_lane.queue.count + length y.held

in_hand-sum : (hs : List Held) → in_hand low hs + in_hand high hs ≡ length hs
in_hand-sum [] = omega arith
in_hand-sum (h ∷ hs) = count_if-sum h.priority _ _ ∙ ap suc (in_hand-sum hs)
  where
    count_if-sum : (p : Priority) (m n : ℕ) → count_if low p m + count_if high p n ≡ suc (m + n)
    count_if-sum low m n = omega arith
    count_if-sum high m n = omega arith

-- The jobs added so far, which the counters hold modulo 2 ^ 64.
abbrev pub total : Sys → ℕ
total y =
    outstanding y
    + y.cp.low_lane.finished
    + y.cp.high_lane.finished
    + y.cp.low_lane.dropped
    + y.cp.high_lane.dropped

-- While fewer than 2 ^ 64 jobs have been added, `flush_and_pause` leaves its loop if no job waits
-- and none is in hand, goes on waiting if there is one, and its check does not abort.
pub flushed_lem :
    (y : Sys)
    → Inv y
    → total y < 2 ^ 64
    → ((flushed y.cp ≡ some true) × (outstanding y ≡ 0))
      ⊎ ((flushed y.cp ≡ some false) × (0 < outstanding y))
unfolding flushed
flushed_lem y v small = elim (dec_lt 0 (outstanding y)) [
  | yes more ↦ inr (ground (arith, v, in_hand-sum y.held), more)
  | no done ↦ inl (ground (arith, v, in_hand-sum y.held), omega arith)
]
