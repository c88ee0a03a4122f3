-- ===== src/Packet/Summary.antt =====
-- `InnoSummaryPackage` of sdk_common/inno_lidar_packet_utils.h and inno_lidar_packet_utils.cpp: the
-- statistics on lost packets, kept from the headers of the data packets as they arrive. The signed
-- fields are bit patterns: an `int64_t` or `int32_t` below zero is its sum with 2 ^ 64 or 2 ^ 32.
use ros2_perception.Prelude.{
  ℕ, ◌+◌, ◌-◌, ◌*◌, ◌/◌, ◌%◌, ◌^◌, Bool, true, false, ◌&&◌, ltb, leb, if◌then◌else◌, add64, sub64,
}

-- The fields of a data packet that the statistics read.
pub record InnoDataPacket : Type 0 where
  pub idx : ℕ
  pub sub_idx : ℕ
  pub sub_seq : ℕ
  pub item_number : ℕ
  pub is_last_sub_frame : Bool

pub record InnoSummaryPackage : Type 0 where
  pub current_frame : ℕ
  pub expect_frame : ℕ
  pub current_sub_frame : ℕ
  pub expect_sub_frame : ℕ
  pub next_new_frame : Bool
  pub frame_counter : ℕ
  pub miss_frame_counter : ℕ
  pub miss_sub_frame_gap_counter : ℕ
  pub miss_sub_frame_last_one_counter : ℕ
  pub miss_sub_frame_except_last_one_counter : ℕ
  pub empty_sub_frame_counter : ℕ
  pub highest_seq_num_received : ℕ
  pub base_seq_num_received : ℕ
  pub total_receive_packet : ℕ
  pub last_recieve_total_packet_count : ℕ
  pub last_recieve_expect_packet_count : ℕ
  pub last_print_time : ℕ
  pub is_init_seq_num : Bool

-- The constructor, at the time `now`.
unfoldable pub new_summary : ℕ → InnoSummaryPackage
new_summary now = record {
  current_frame = 0;
  expect_frame = 0;
  current_sub_frame = 0;
  expect_sub_frame = 2 ^ 32 - 1;
  next_new_frame = false;
  frame_counter = 0;
  miss_frame_counter = 0;
  miss_sub_frame_gap_counter = 0;
  miss_sub_frame_last_one_counter = 0;
  miss_sub_frame_except_last_one_counter = 0;
  empty_sub_frame_counter = 0;
  highest_seq_num_received = 0;
  base_seq_num_received = 0;
  total_receive_packet = 0;
  last_recieve_total_packet_count = 0;
  last_recieve_expect_packet_count = 0;
  last_print_time = now;
  is_init_seq_num = false;
}

-- `diff = seq - pre_seq` is an `int`, here above, below or at zero.
unfoldable pub is_newer_packet : ℕ → ℕ → Bool
is_newer_packet pre_seq seq =
    if ltb pre_seq seq
    then ltb (seq - pre_seq) 0x8000
    else if ltb seq pre_seq
    then ltb 0x8000 (pre_seq - seq)
    else false

-- `0x10000 | seqNum` of a `uint16_t`.
unfoldable pub init_seq_num : InnoSummaryPackage → ℕ → InnoSummaryPackage
init_seq_num s seq_num = record s {
  highest_seq_num_received = 0x10000 + seq_num;
  base_seq_num_received = 0x10000 + seq_num;
  is_init_seq_num = false;
}

abbrev pub get_expect_receive_inno_packet : InnoSummaryPackage → ℕ
get_expect_receive_inno_packet s =
    add64 (sub64 s.highest_seq_num_received s.base_seq_num_received) 1

-- The low 16 bits and the rest: `x & 0xFFFF` and `x & 0xFFFFFFFFFFFF0000`.
abbrev pub low_bits : ℕ → ℕ
low_bits x = x % 0x10000

abbrev pub high_bits : ℕ → ℕ
high_bits x = x / 0x10000 * 0x10000

-- `static_cast<int>(d) >= 0x8000` of a `uint64_t`.
abbrev pub is_int_above : ℕ → Bool
is_int_above d = leb 0x8000 (d % 2 ^ 32) && ltb (d % 2 ^ 32) (2 ^ 31)

-- The number of a packet newer than the highest one. `seq_num_cycle | sub_seq` is a sum, since the
-- low 16 bits of a cycle are 0.
unfoldable pub newer_seq_num : ℕ → ℕ → ℕ
newer_seq_num highest sub_seq =
    let cycle = high_bits highest in
    let difference = sub64 sub_seq (low_bits highest) in
    (if leb 0x8000 difference then add64 cycle 0x10000 else cycle) + sub_seq

-- The number of any other packet.
unfoldable pub older_seq_num : ℕ → ℕ → ℕ
older_seq_num highest sub_seq =
    let cycle = high_bits highest in
    let difference = sub64 sub_seq (low_bits highest) in
    (if is_int_above difference then sub64 cycle 0x10000 else cycle) + sub_seq

unfoldable pub count_packet : InnoSummaryPackage → ℕ → InnoSummaryPackage
count_packet s sub_seq =
    let newer = newer_seq_num s.highest_seq_num_received sub_seq in
    let older = older_seq_num s.highest_seq_num_received sub_seq in
    let total = add64 s.total_receive_packet 1 in
    if is_newer_packet (low_bits s.highest_seq_num_received) sub_seq
    then (record s {
      total_receive_packet = total;
      highest_seq_num_received =
          if ltb s.highest_seq_num_received newer then newer else s.highest_seq_num_received;
    })
    else (record s {
      total_receive_packet = total;
      base_seq_num_received =
          if ltb older s.base_seq_num_received then older else s.base_seq_num_received;
    })

-- Whether the rates are printed at `now`: after an interval, if more than one more packet is expected.
abbrev pub is_print_due : InnoSummaryPackage → ℕ → Bool
is_print_due s now =
    ltb 30000 (sub64 now s.last_print_time)
    && ltb 1 (sub64 (get_expect_receive_inno_packet s) s.last_recieve_expect_packet_count)

-- What `print_inno_data_packet_loss_rate` keeps; the rates themselves are only printed.
unfoldable pub print_loss_rate : InnoSummaryPackage → ℕ → InnoSummaryPackage
print_loss_rate s now =
    if is_print_due s now
    then (record s {
      last_recieve_total_packet_count = s.total_receive_packet;
      last_recieve_expect_packet_count = get_expect_receive_inno_packet s;
      last_print_time = now;
    })
    else s

-- `inno_data_packet_receive_stats`, at the time `now`.
unfoldable pub receive_stats : InnoSummaryPackage → InnoDataPacket → ℕ → InnoSummaryPackage
receive_stats s pkt now =
    let s1 =
      if s.is_init_seq_num
      then s
      else (record (init_seq_num s pkt.sub_seq) { is_init_seq_num = true }) in
    print_loss_rate (count_packet s1 pkt.sub_seq) now
