-- ===== src/Read/Misorder/Order.antt =====
-- Packets are delivered in the order of the sensor, as long as none is repeated and no jump resets
-- the queue.
use ros2_perception.Prelude.{ℕ, ◌≡◌, refl, List, [], ◌∷◌, false, arith}
use ros2_perception.Read.Misorder.{
  InnoDataPacket, Misorder, new_misorder, is_far, reset, add_deliver_packet_after_correct,
  correct_all,
}
use ros2_perception.Read.Misorder.Queue.{rank, expected, IsSent, Rising, IsFresh, Rises}
use ros2_perception.Read.Misorder.Steps.{
  IsReady, Rises-append, Keeps, add_deliver-Keeps, deliver-Keeps,
}

-- A stream that goes on from a state: packets of the sensor, none of which is repeated while it
-- waits or more than 10 frames from the expected one.
unfoldable pub IsSteady : (ℕ → ℕ) → Misorder → List InnoDataPacket → Type 0
IsSteady last s [] = Unit
IsSteady last s (p ∷ ps) =
    IsSent last p
    × (IsFresh p s.queue
        × ((is_far p.idx s.expected_idx ≡ false)
            × IsSteady last (add_deliver_packet_after_correct s p).state ps))

correct_all-Keeps :
    (last : ℕ → ℕ) (ps : List InnoDataPacket) (s : Misorder)
    → IsReady last s
    → IsSteady last s ps
    → Keeps last (expected s) (correct_all s ps).delivered (correct_all s ps).state
unfolding correct_all IsSteady Rises
correct_all-Keeps last [] s v t = record { rises = omega arith; ready = v }
correct_all-Keeps last (p ∷ ps) s v (w, (f, (near, t))) =
    let first = add_deliver-Keeps last s p v w f near in
    let rest = correct_all-Keeps last ps _ first.ready t in
    record {
      rises =
          Rises-append _ _ _ (add_deliver_packet_after_correct s p).delivered _ first.rises
            rest.rises;
      ready = rest.ready;
    }

-- The first packet of all is delivered at once.
first-Keeps :
    (last : ℕ → ℕ) (p : InnoDataPacket)
    → IsSent last p
    → Keeps last
        (rank p)
        (add_deliver_packet_after_correct new_misorder p).delivered
        (add_deliver_packet_after_correct new_misorder p).state
unfolding add_deliver_packet_after_correct reset new_misorder Rising
first-Keeps last p w =
    deliver-Keeps last (record new_misorder { first_step = false }) p (rank p) w (omega arith) tt
      refl

-- From the first packet on, what is delivered rises strictly in the order of the sensor, below the
-- expected position; what waits comes after that position, in order.
pub correct_all_lem :
    (last : ℕ → ℕ) (p : InnoDataPacket) (ps : List InnoDataPacket)
    → IsSent last p
    → IsSteady last (add_deliver_packet_after_correct new_misorder p).state ps
    → Keeps last
        (rank p)
        (correct_all new_misorder (p ∷ ps)).delivered
        (correct_all new_misorder (p ∷ ps)).state
unfolding correct_all
correct_all_lem last p ps w t =
    let first = first-Keeps last p w in
    let rest = correct_all-Keeps last ps _ first.ready t in
    record {
      rises =
          Rises-append _ _ _ (add_deliver_packet_after_correct new_misorder p).delivered _
            first.rises rest.rises;
      ready = rest.ready;
    }
