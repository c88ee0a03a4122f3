-- ===== src/Packet/Tests.antt =====
-- Runs of the packet statistics, and the theorems about them at concrete packets.
use ros2_perception.Prelude.{ℕ, ◌+◌, ◌-◌, ◌≡◌, refl, List, [], ◌∷◌, true, false, arith}
use ros2_perception.Packet.Summary.{
  InnoDataPacket, InnoSummaryPackage, new_summary, get_expect_receive_inno_packet,
}
use ros2_perception.Packet.Sequence.{
  Arrival, receive_all, highest, lowest, count, IsNear, AllNear, HasSeen, receive_all_lem,
}
use ros2_perception.Packet.Frames.Missing.{IsAt, summary_all, InOrder, last_frame, summary_all_lem}
use ros2_perception.Packet.Faults.{Faults, check_status_packet_fault_id}
use ros2_perception.Packet.Raw4.{Raw4UdpHeader}

abbrev packet : ℕ → ℕ → InnoDataPacket
packet idx sub_idx = record {
  idx = idx;
  sub_idx = sub_idx;
  sub_seq = 0;
  item_number = 10;
  is_last_sub_frame = false;
}

abbrev arrival : ℕ → Arrival
arrival number = record { packet = packet 1 0; number = number; time = 5 }

-- After packets 65535 + 2 ^ 16 and one before, the counter of 16 bits is about to wrap around.
abbrev full : InnoSummaryPackage
full = record (new_summary 0) {
  highest_seq_num_received = 0x1FFFF;
  base_seq_num_received = 0x1FFFE;
  total_receive_packet = 2;
  is_init_seq_num = true;
}

abbrev full-HasSeen : HasSeen full 0x1FFFF 0x1FFFE 2
full-HasSeen = record {
  top = refl;
  base = refl;
  total = refl;
  ready = refl;
  cycled = omega arith;
  ordered = omega arith;
  bounded = omega arith;
}

abbrev near_wrap : IsNear 0x1FFFF 0x20000
near_wrap = record { above = omega arith; below = omega arith; small = omega arith }

abbrev wrapping : List Arrival
wrapping = arrival 0x20000 ∷ arrival 0x1FFFE ∷ []

wrapping-AllNear : AllNear 0x1FFFF wrapping
unfolding AllNear
wrapping-AllNear =
    (near_wrap, (record { above = omega arith; below = omega arith; small = omega arith }, tt))

receive_all_lem_example :
    HasSeen
      (receive_all (new_summary 0) (arrival 0x1FFFF ∷ wrapping))
      (highest 0x1FFFF wrapping)
      (lowest 0x1FFFF wrapping)
      (count 1 wrapping)
    × (get_expect_receive_inno_packet (receive_all (new_summary 0) (arrival 0x1FFFF ∷ wrapping))
        ≡ highest 0x1FFFF wrapping - lowest 0x1FFFF wrapping + 1)
receive_all_lem_example =
    receive_all_lem 0 (arrival 0x1FFFF) wrapping (omega arith) (omega arith) wrapping-AllNear

-- In frame 7, after its sub-frame 2.
abbrev in_frame : InnoSummaryPackage
in_frame = record (new_summary 0) {
  current_frame = 7;
  expect_frame = 8;
  expect_sub_frame = 3;
  frame_counter = 2;
  miss_frame_counter = 1;
}

in_frame-IsAt : IsAt in_frame 5 7
in_frame-IsAt = record {
  current = refl;
  expected = refl;
  split = refl;
  started = omega arith;
  small = omega arith;
}

summary_all_lem_example :
    (summary_all (new_summary 0) (packet 5 0 ∷ packet 5 1 ∷ packet 8 0 ∷ [])).frame_counter
      + (summary_all (new_summary 0) (packet 5 0 ∷ packet 5 1 ∷ packet 8 0 ∷ [])).miss_frame_counter
    ≡ last_frame 5 (packet 5 1 ∷ packet 8 0 ∷ []) + 1 - 5
unfolding InOrder
summary_all_lem_example =
    summary_all_lem 0 (packet 5 0) (packet 5 1 ∷ packet 8 0 ∷ []) (omega arith) (omega arith)
      (omega arith, (omega arith, (omega arith, (omega arith, tt))))

abbrev raw4_header : Raw4UdpHeader
raw4_header = record { idx = 0x01020304; field_type = 7; field_sequence_id = 0xA0B0C0D0; flag = 1 }

abbrev two_faults : Faults
two_faults = record { faults = 8; extended_faults = 2; ex_faults = 0 }

fault_65 : check_status_packet_fault_id two_faults 65 ≡ true
unfolding check_status_packet_fault_id
fault_65 = refl
