-- ===== src/Read/Misorder/Tests.antt =====
-- Runs of the correction of the order, and the theorems about it at concrete packets.
use ros2_perception.Prelude.{ℕ, ◌*◌, ◌+◌, ◌++◌, ◌≤◌, ◌≡◌, refl, List, [], ◌∷◌, length, ◌==◌, arith}
use ros2_perception.Read.Misorder.{
  InnoDataPacket, new_misorder, next_expected, drain, deliver, reset, hold, relieve,
  add_deliver_packet_after_correct, correct_all,
}
use ros2_perception.Read.Misorder.Queue.{rank, IsSent, IsFresh}
use ros2_perception.Read.Misorder.Ownership.{Conserves, correct_all-Conserves}
use ros2_perception.Read.Misorder.Order.{IsSteady, correct_all_lem}
use ros2_perception.Read.Misorder.Steps.{Keeps}
use ros2_perception.Read.Misorder.Bound.{correct_all-bounded}

-- Frames of three sub-frames.
abbrev packet : ℕ → ℕ → InnoDataPacket
packet idx sub_idx = record {
  buffer = idx * 1000 + sub_idx;
  idx = idx;
  sub_idx = sub_idx;
  is_last_sub_frame = sub_idx == 2;
}

abbrev two : ℕ → ℕ
two idx = 2

-- The last two sub-frames of frame 5 come the wrong way round.
abbrev stream : List InnoDataPacket
stream = packet 5 2 ∷ packet 5 1 ∷ []

abbrev in_order : List InnoDataPacket
in_order = packet 5 0 ∷ packet 5 1 ∷ packet 5 2 ∷ []

put_in_order : (correct_all new_misorder (packet 5 0 ∷ stream)).delivered ≡ in_order
unfolding correct_all add_deliver_packet_after_correct new_misorder reset hold relieve deliver drain
    next_expected
put_in_order = refl

-- A packet that is repeated while it waits stays in the queue once its first copy is delivered, and
-- holds up those behind it.
repeated :
    (correct_all new_misorder (
      packet 5 0 ∷ packet 5 2 ∷ packet 5 2 ∷ packet 5 1 ∷ packet 6 1 ∷ packet 6 0 ∷ [])).state.queue
    ≡ packet 5 2 ∷ packet 6 1 ∷ []
unfolding correct_all add_deliver_packet_after_correct new_misorder reset hold relieve deliver drain
    next_expected
repeated = refl

correct_all-Conserves_example :
    Conserves 5002 (stream ++ new_misorder.queue) (correct_all new_misorder stream)
correct_all-Conserves_example = correct_all-Conserves 5002 stream new_misorder

correct_all-bounded_example : length (correct_all new_misorder stream).state.queue ≤ 10
unfolding new_misorder
correct_all-bounded_example = correct_all-bounded stream new_misorder (omega arith)

sent : (sub_idx : ℕ) → sub_idx ≤ 2 → IsSent two (packet 5 sub_idx)
sent sub_idx h = record { inside = h; ends = refl; narrow = omega arith; small = omega arith }

steady : IsSteady two (add_deliver_packet_after_correct new_misorder (packet 5 0)).state stream
unfolding IsSteady IsFresh add_deliver_packet_after_correct new_misorder reset hold relieve deliver
    drain next_expected
steady =
    (sent 2 (omega arith), (tt, (refl, (sent 1 (omega arith), ((omega arith, tt), (refl, tt))))))

correct_all_lem_example :
    Keeps two
      (rank (packet 5 0))
      (correct_all new_misorder (packet 5 0 ∷ stream)).delivered
      (correct_all new_misorder (packet 5 0 ∷ stream)).state
correct_all_lem_example = correct_all_lem two (packet 5 0) stream (sent 0 (omega arith)) steady
