-- ===== src/Read/Udp.antt =====
-- `UdpInput::read_udp_` of sdk_client/stage_client_read.cpp: the datagrams of one port, each received
-- into a buffer of the pool behind a gap, checked, and handed to the deliver stage, points by way of
-- the misorder queue where that is enabled. A run ends where `start_flag_` is found cleared. `none` is
-- an abort or a read behind the buffer. Parameters are the CRC function, what a fresh buffer holds,
-- and what the calls of the pool give, since other stages call it too. The threads of the other
-- ports, which share the counters and the queue, opening the socket, and logging are left out; a
-- receive that a signal interrupts is made again, and is no event.
pub mod Judge
pub mod Balance
pub mod Owned
pub mod Rounds
pub mod Gap
mod Tests
use ros2_perception.Packet.Check.{check_data_packet, check_status_packet}
use ros2_perception.Packet.Decode.{
  common_header_of, data_packet_of, item_type_of, idx, sub_idx, sub_seq,
}
use ros2_perception.Read.Adapt.{
  Adapted, refused, check_data_packet_v1_and_convert_packet,
  check_status_packet_v1_and_convert_packet,
}
use ros2_perception.Read.Counters.{
  Counters, Verified, new_counters, verify_inno_data_packet_counter,
  verify_inno_status_packet_counter,
}
use ros2_perception.Read.Misorder.{
  Misorder, InnoDataPacket, new_misorder, add_deliver_packet_after_correct,
}
use ros2_perception.Read.Packets.{
  write, magic_number, major_version, item_type, Kind, points, kind_of,
}
use ros2_perception.Prelude.{
  ℕ, ◌+◌, ◌-◌, ◌*◌, ◌/◌, ◌%◌, ◌^◌, Bool, true, false, not, ◌&&◌, Option, none, some, List, [], ◌∷◌,
  ◌++◌, map, ◌==◌, ltb, leb, if◌then◌else◌, length, take, drop, get_or,
}

-- `buff` where it is not NULL.
pub record Held : Type 0 where
  pub address : ℕ
  pub bytes : List ℕ

-- The variables of the loop, with the counters of the input and the misorder queue, and the addresses
-- of the buffers that came from the pool, that went to the deliver stage, and that went back.
pub record Receiver : Type 0 where
  pub held : Option Held
  pub gap : ℕ
  pub timeout_flag : ℕ
  pub eagain_count : ℕ
  pub counters : Counters
  pub misorder : Misorder
  pub taken : List ℕ
  pub delivered : List ℕ
  pub freed : List ℕ

-- The variables before the loop, of a client that has just been made.
unfoldable pub new_receiver : Receiver
new_receiver = record {
  held = none;
  gap = 0;
  timeout_flag = 1;
  eagain_count = 1;
  counters = new_counters;
  misorder = new_misorder;
  taken = [];
  delivered = [];
  freed = [];
}

-- What `recvfrom` comes to: a timeout, another error, or a datagram, with the result of
-- `source_ip_check_`.
pub data Event : Type 0 where
  times_out : Event
  fails : Event
  arrives : Bool → List ℕ → Event

abbrev pub max_read_size : ℕ
max_read_size = 65536

-- What the checks make of a packet: where `hd` points, and the counters.
pub record Judged : Type 0 where
  pub adapted : Adapted
  pub counters : Counters

abbrev pub with_counters : Counters → Option Adapted → Option Judged
with_counters c none = none
with_counters c (some a) = some (record { adapted = a; counters = c })

unfoldable pub judge_v1 : (List ℕ → ℕ) → ℕ → ℕ → List ℕ → Counters → Option Judged
judge_v1 crc32 n gap buf c =
    let p = drop gap buf in
    let v = verify_inno_data_packet_counter c (item_type_of (item_type p)) (sub_seq p) in
    if magic_number p == 0x176A
    then with_counters v.counters (
        if v.accepted
        then check_data_packet_v1_and_convert_packet crc32 n gap buf
        else some (refused gap buf))
    else with_counters c (
        if magic_number p == 0x186B
        then check_status_packet_v1_and_convert_packet crc32 n gap buf
        else some (refused gap buf))

-- A packet of a later version stays where it was received.
abbrev pub in_place : Bool → ℕ → List ℕ → Adapted
in_place accepted gap buf = record { accepted = accepted; gap = gap; start = gap; buffer = buf }

-- The running number of a packet that passed its check is tested next.
abbrev pub number_checked : Option Bool → Verified → ℕ → List ℕ → Counters → Option Judged
number_checked none v gap buf c = none
number_checked (some false) v gap buf c = some (record { adapted = refused gap buf; counters = c })
number_checked (some true) v gap buf c =
    some (record { adapted = in_place v.accepted gap buf; counters = v.counters })

unfoldable pub judge_present : (List ℕ → ℕ) → ℕ → ℕ → List ℕ → Counters → Option Judged
judge_present crc32 n gap buf c =
    let p = drop gap buf in
    if magic_number p == 0x176A
    then number_checked (check_data_packet crc32 (data_packet_of p) n)
        (verify_inno_data_packet_counter c (item_type_of (item_type p)) (sub_seq p)) gap buf c
    else if magic_number p == 0x186B
    then number_checked (check_status_packet crc32 (common_header_of p) n)
        (verify_inno_status_packet_counter c (idx p)) gap buf c
    else some (record { adapted = refused gap buf; counters = c })

unfoldable pub judge : (List ℕ → ℕ) → ℕ → ℕ → List ℕ → Counters → Option Judged
judge crc32 n gap buf c =
    let version = major_version (drop gap buf) in
    if version == 1
    then judge_v1 crc32 n gap buf c
    else if ltb 1 version
    then judge_present crc32 n gap buf c
    else some (record { adapted = refused gap buf; counters = c })

abbrev pub is_points : Kind → Bool
is_points points = true
is_points _ = false

-- The fields of a data packet that the misorder queue goes by.
unfoldable pub packet_at : ℕ → List ℕ → InnoDataPacket
packet_at address p = record {
  buffer = address;
  idx = idx p;
  sub_idx = sub_idx p;
  is_last_sub_frame = get_or p 48 0 / 128 % 2 == 1;
}

abbrev pub addresses : List InnoDataPacket → List ℕ
addresses ps = map (λ (p : InnoDataPacket). p.buffer) ps

-- Hands over the packet at `start` in a buffer, which is no longer the loop's.
unfoldable pub hand_over : Bool → ℕ → List ℕ → Receiver → Receiver
hand_over misorder_correct_enable hd p st =
    let r = add_deliver_packet_after_correct st.misorder (packet_at hd p) in
    if misorder_correct_enable && (magic_number p == 0x176A) && is_points (kind_of (item_type p))
    then (record st {
      held = none;
      misorder = r.state;
      delivered = st.delivered ++ addresses r.delivered;
      freed = st.freed ++ addresses r.freed;
    })
    else (record st { held = none; delivered = st.delivered ++ (hd ∷ []) })

-- The first receive after timeouts that were logged makes the queue start anew.
unfoldable pub recover : Bool → Receiver → Receiver
recover misorder_correct_enable st =
    if leb 2 st.timeout_flag
    then (record st {
      timeout_flag = 1;
      eagain_count = 1;
      misorder =
          if misorder_correct_enable
          then (record st.misorder { first_step = true })
          else st.misorder;
    })
    else st

unfoldable pub time_out : Bool → Receiver → Receiver
time_out message_port_is_separate st = record st {
  timeout_flag =
      if (st.eagain_count == st.timeout_flag) && not message_port_is_separate
      then st.timeout_flag * 2 % 2 ^ 32
      else st.timeout_flag;
  eagain_count = (st.eagain_count + 1) % 2 ^ 32;
}

-- What is done with `n` bytes that were received into the buffer.
unfoldable pub take_datagram : (List ℕ → ℕ) → Bool → ℕ → ℕ → List ℕ → Receiver → Option Receiver
take_datagram crc32 misorder_correct_enable n address buf st =
    if leb 26 n
    then elim (judge crc32 n st.gap buf st.counters) [
      | none ↦ none
      | some j ↦
          let a = j.adapted in
          let next = record st {
            held = some (record { address = address; bytes = a.buffer });
            gap = a.gap;
            counters = j.counters;
          } in
          some (
            if a.accepted
            then hand_over misorder_correct_enable (address + a.start) (drop a.start a.buffer) next
            else next)
    ]
    else some st

module _ (crc32 : List ℕ → ℕ) (fresh : List ℕ) (alloc : ℕ → Option ℕ)
    (misorder_correct_enable message_port_is_separate : Bool) where
  -- Where `buff` is NULL it gets a buffer; a pool that has none left ends the program.
  unfoldable pub ensure : Receiver → Option (Held × Receiver)
  ensure st = elim st.held [
    | some h ↦ some (h, st)
    | none ↦ elim (alloc (length st.taken)) [
      | none ↦ none
      | some a ↦
          let h : Held = record { address = a; bytes = fresh } in
          some (h, (record st { held = some h; taken = st.taken ++ (a ∷ []) }))
    ]
  ]

  unfoldable pub receive : Held → Receiver → Event → Option Receiver
  receive h st times_out = some (time_out message_port_is_separate st)
  receive h st fails = some st
  receive h st (arrives source_ip_valid bs) =
      let got = take (max_read_size - st.gap) bs in
      let buf = write st.gap got h.bytes in
      let ready = record (recover misorder_correct_enable st) {
        held = some (record { address = h.address; bytes = buf });
      } in
      if source_ip_valid
      then take_datagram crc32 misorder_correct_enable (length got) h.address buf ready
      else some ready

  -- A round of the loop.
  unfoldable pub round : Receiver → Event → Option Receiver
  round st e = elim (ensure st) [ none ↦ none | some (h, ready) ↦ receive h ready e ]

  -- The buffer that is left goes back to the pool.
  unfoldable pub finish : Receiver → Receiver
  finish st = elim st.held [
    | none ↦ st
    | some h ↦ record st { held = none; freed = st.freed ++ (h.address ∷ []) }
  ]

  unfoldable pub read_udp_ : Receiver → List Event → Option Receiver
  read_udp_ st [] = some (finish st)
  read_udp_ st (e ∷ es) = elim (round st e) [ none ↦ none | some z ↦ read_udp_ z es ]
