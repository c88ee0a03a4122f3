-- ===== src/Read/Udp/Balance.antt =====
-- The addresses of buffers that `read_udp_` of sdk_client/stage_client_read.cpp has had, counted.
use ros2_perception.Read.Udp.{Held, Receiver, is_points, packet_at, addresses, hand_over}
use ros2_perception.Read.Misorder.{Misorder, InnoDataPacket, add_deliver_packet_after_correct}
use ros2_perception.Read.Misorder.Ownership.{copies, Conserves, add_deliver-Conserves}
use ros2_perception.Read.Packets.{magic_number, item_type, kind_of}
use ros2_perception.Prelude.{
  one, count, count-append, count-last, ℕ, ◌+◌, ◌≡◌, refl, Bool, ◌&&◌, Option, none, some, List, [],
  ◌∷◌, ◌==◌, if_elim, arith,
}

count-addresses : (b : ℕ) (ps : List InnoDataPacket) → count b (addresses ps) ≡ copies b ps
unfolding count copies
count-addresses b [] = refl
count-addresses b (p ∷ ps) = omega (arith, count-addresses b ps)

abbrev pub held_at : ℕ → Option Held → ℕ
held_at b none = 0
held_at b (some h) = one b h.address

-- The buffers that are no longer the loop's.
abbrev pub gone : ℕ → Receiver → ℕ
gone b st = count b st.delivered + (count b st.freed + copies b st.misorder.queue)

-- A buffer that came from the pool went to the deliver stage, went back, waits or is held, as often as
-- it came.
abbrev pub IsBalanced : ℕ → Receiver → Type 0
IsBalanced b st = count b st.taken ≡ gone b st + held_at b st.held

handed-Conserves :
    (b : ℕ) (s : Misorder) (hd : ℕ) (p : List ℕ)
    → let r = add_deliver_packet_after_correct s (packet_at hd p) in
      copies b r.delivered + (copies b r.freed + copies b r.state.queue)
      ≡ one b hd + copies b s.queue
unfolding Conserves copies packet_at
handed-Conserves b s hd p = omega (arith, add_deliver-Conserves b s (packet_at hd p))

pub hand_over-IsBalanced :
    (b : ℕ) (enable : Bool) (hd : ℕ) (p : List ℕ) (st : Receiver)
    → count b st.taken ≡ gone b st + one b hd
    → IsBalanced b (hand_over enable hd p st)
unfolding hand_over
hand_over-IsBalanced b enable hd p st h =
    let r = add_deliver_packet_after_correct st.misorder (packet_at hd p) in
    if_elim (λ (z : Receiver). IsBalanced b z)
      (enable && (magic_number p == 0x176A) && is_points (kind_of (item_type p)))
      (λ _. omega (
        arith,
        h,
        count-append b st.delivered (addresses r.delivered),
        count-append b st.freed (addresses r.freed),
        count-addresses b r.delivered,
        count-addresses b r.freed,
        handed-Conserves b st.misorder hd p,
      ))
      (λ _. omega (arith, h, count-last b hd st.delivered))

pub hand_over-kept :
    (enable : Bool) (hd : ℕ) (p : List ℕ) (st : Receiver)
    → ((hand_over enable hd p st).gap ≡ st.gap) × ((hand_over enable hd p st).held ≡ none)
unfolding hand_over
hand_over-kept enable hd p st = (ground arith, ground arith)
