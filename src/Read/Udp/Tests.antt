-- ===== src/Read/Udp/Tests.antt =====
-- Runs of `read_udp_`: a timeout, a datagram of another sensor, a short one, and a status packet.
use ros2_perception.Read.Udp
use ros2_perception.Read.Udp.{
  Held, Receiver, new_receiver, Event, times_out, fails, arrives, max_read_size, Judged,
}
use ros2_perception.Read.Udp.Rounds.{new_receiver-IsOwned, read_udp_-frees}
use ros2_perception.Read.Udp.Gap.{take_datagram-behind_gap}
use ros2_perception.Packet.Check.{calculate_packet_crc32, verify_packet_crc32, check_status_packet}
use ros2_perception.Packet.Decode.{common_header_of}
use ros2_perception.Read.Counters.{Counters, new_counters, verify_inno_status_packet_counter}
use ros2_perception.Read.Misorder.{new_misorder}
use ros2_perception.Read.Misorder.Ownership.{copies}
use ros2_perception.Read.Packets.{magic_number, major_version, item_type}
use ros2_perception.MemPool.{MemPoolManager, new_manager, address, free}
use ros2_perception.MemPool.Address.{Fits}
use ros2_perception.Prelude.{
  count, ℕ, ◌+◌, ◌*◌, ◌<◌, ◌≡◌, refl, true, false, Option, none, some, List, [], ◌∷◌, ◌++◌, drop,
  replicate, length-replicate, arith,
}

abbrev no_crc : List ℕ → ℕ
no_crc bs = 7

-- 30 bytes of version 4.
abbrev status : List ℕ
status =
    (107 ∷ 24 ∷ 4 ∷ 0 ∷ 0 ∷ 0 ∷ 7 ∷ 0 ∷ 0 ∷ 0 ∷ 30 ∷ 0 ∷ 0 ∷ 0 ∷ [])
    ++ replicate 12 0
    ++ (5 ∷ 0 ∷ 0 ∷ 0 ∷ [])

abbrev fresh : List ℕ
fresh = replicate 65536 0

-- The pool gives a unit of 65536 bytes after another.
abbrev unit_at : ℕ → Option ℕ
unit_at k = some (4096 + 65536 * k)

abbrev stream : List Event
stream =
    times_out
    ∷ arrives false status
    ∷ arrives true (1 ∷ 2 ∷ 4 ∷ [])
    ∷ arrives true status
    ∷ fails
    ∷ []

abbrev counted : Counters
counted = record new_counters { status_first_step = false; status_last_idx = 5 }

abbrev after_stream : Receiver
after_stream = record new_receiver {
  timeout_flag = 1;
  eagain_count = 1;
  counters = counted;
  misorder = record new_misorder { first_step = true };
  taken = 4096 ∷ 69632 ∷ [];
  delivered = 4096 ∷ [];
  freed = 69632 ∷ [];
}

run_lem : Udp.read_udp_ no_crc fresh unit_at true false new_receiver stream ≡ some after_stream
unfolding Udp.read_udp_ Udp.round Udp.ensure Udp.receive Udp.finish Udp.recover Udp.time_out
    Udp.take_datagram Udp.judge Udp.judge_present Udp.hand_over new_receiver new_counters
    new_misorder magic_number major_version item_type common_header_of check_status_packet
    verify_packet_crc32 calculate_packet_crc32 verify_inno_status_packet_counter
run_lem = refl

read_udp_-frees_example :
    (after_stream.held ≡ none)
    × ((b : ℕ)
        → count b after_stream.taken
          ≡ count b after_stream.delivered
            + (count b after_stream.freed + copies b after_stream.misorder.queue))
read_udp_-frees_example =
    read_udp_-frees no_crc fresh unit_at true false false stream new_receiver after_stream
      (length-replicate {A = ℕ} 65536 0) (new_receiver-IsOwned false) refl run_lem

abbrev pool : MemPoolManager
pool = new_manager 4096 64 2

pool-Fits : Fits pool
unfolding new_manager
pool-Fits = record { sized = omega arith; small = omega arith }

abbrev behind_gap : List ℕ
behind_gap = replicate 16 0 ++ status

abbrev with_gap : Receiver
with_gap = record new_receiver { gap = 16 }

abbrev judged : Judged
judged = record {
  adapted = record { accepted = true; gap = 16; start = 16; buffer = behind_gap };
  counters = counted;
}

judge_lem : Udp.judge no_crc 30 16 behind_gap with_gap.counters ≡ some judged
unfolding Udp.judge Udp.judge_present new_receiver new_counters new_misorder magic_number
    major_version item_type common_header_of check_status_packet verify_packet_crc32
    calculate_packet_crc32 verify_inno_status_packet_counter
judge_lem = refl

later_version : 1 < major_version (drop 16 behind_gap)
unfolding major_version
later_version = omega arith

gap_lem : with_gap.gap ≡ 16
gap_lem = refl

few_units : (1 < pool.unit_count) × (16 < pool.unit_size)
unfolding new_manager
few_units = omega arith

take_datagram-behind_gap_example :
    (z : Receiver) × (Udp.take_datagram no_crc false 30 (address pool 1) behind_gap with_gap
      ≡ some z)
    × (hd : ℕ) × (z.delivered ≡ with_gap.delivered ++ (hd ∷ []))
    × (free pool hd ≡ none)
take_datagram-behind_gap_example =
    take_datagram-behind_gap no_crc pool 1 30 behind_gap with_gap judged pool-Fits few_units.0
      few_units.1 gap_lem (omega arith) later_version judge_lem refl
