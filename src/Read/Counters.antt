-- ===== src/Read/Counters.antt =====
-- `UdpInput::verify_inno_data_packet_counter`, `verify_inno_status_packet_counter` and
-- `verify_counter_process` of sdk_client/stage_client_read.cpp: the tests of the running numbers of
-- packets that come by UDP. The numbers of errors at the last print and its time only serve the log
-- and are left out.
pub mod Ring
pub mod Counted
pub mod Errors
mod Tests
use ros2_perception.Packet.Items.{
  InnoItemType, message, message_log, robinw_anglehv_table, falcon_ring_id_table,
}
use ros2_perception.Prelude.{
  ℕ, ◌+◌, ◌-◌, ◌%◌, ◌^◌, Bool, true, false, not, ◌&&◌, ◌||◌, List, [], ◌∷◌, ◌==◌, ltb, leb,
  if◌then◌else◌, add64,
}

pub record Counters : Type 0 where
  pub data_first_step : ℕ
  pub data_last_sub_seq : ℕ
  pub sub_seq_zero_counter : ℕ
  pub data_diff3_error_counter : ℕ
  pub data_repeat_error_counter : ℕ
  pub status_first_step : Bool
  pub status_last_idx : ℕ
  pub status_diff3_error_counter : ℕ
  pub status_repeat_error_counter : ℕ

unfoldable pub new_counters : Counters
new_counters = record {
  data_first_step = 0;
  data_last_sub_seq = 0;
  sub_seq_zero_counter = 0;
  data_diff3_error_counter = 0;
  data_repeat_error_counter = 0;
  status_first_step = true;
  status_last_idx = 0;
  status_diff3_error_counter = 0;
  status_repeat_error_counter = 0;
}

-- `std::abs(a - b)`.
abbrev pub abs_diff : ℕ → ℕ → ℕ
abs_diff a b = if leb a b then b - a else a - b

-- For numbers of 16 bits; 65535 is `max_value_` and 3 `max_delta_counter_init_`.
unfoldable pub verify_counter_process : ℕ → ℕ → Bool
verify_counter_process current last =
    let edge_min_value = 65535 - 3 in
    let special_case =
      ((leb last 65535 && leb (65535 - 3 + 1) last) || (leb last (3 - 1) && leb 0 last))
      && ltb edge_min_value (abs_diff current last) in
    let basic_case = leb (abs_diff current last) 3 in not (special_case || basic_case)

-- The result, whether the flag of a repeated packet was set, and the state.
pub record Verified : Type 0 where
  pub accepted : Bool
  pub is_same : Bool
  pub counters : Counters

abbrev pub answer : Bool → Bool → Counters → Verified
answer accepted same c = record { accepted = accepted; is_same = same; counters = c }

-- The types that have no running number.
abbrev pub is_unnumbered : InnoItemType → Bool
is_unnumbered message = true
is_unnumbered message_log = true
is_unnumbered robinw_anglehv_table = true
is_unnumbered falcon_ring_id_table = true
is_unnumbered _ = false

abbrev pub count_if : Bool → ℕ → ℕ
count_if b n = if b then add64 n 1 else n

unfoldable pub verify_inno_data_packet_counter : Counters → InnoItemType → ℕ → Verified
verify_inno_data_packet_counter c item_type sub_seq =
    if is_unnumbered item_type
    then answer true false c
    else if ltb c.data_first_step 5
    then answer true false (record c {
      data_first_step = c.data_first_step + 1;
      data_last_sub_seq = sub_seq;
      sub_seq_zero_counter =
          if sub_seq == 0 then c.sub_seq_zero_counter + 1 else c.sub_seq_zero_counter;
    })
    else if leb 5 c.sub_seq_zero_counter
    then answer true false c
    else if sub_seq == c.data_last_sub_seq
    then answer false true
        (record c { data_repeat_error_counter = add64 c.data_repeat_error_counter 1 })
    else answer true false (record c {
      data_diff3_error_counter =
          count_if (verify_counter_process sub_seq c.data_last_sub_seq) c.data_diff3_error_counter;
      data_last_sub_seq = sub_seq;
    })

-- Only 16 bits of the index are used.
unfoldable pub verify_inno_status_packet_counter : Counters → ℕ → Verified
verify_inno_status_packet_counter c idx =
    let current_idx = idx % 2 ^ 16 in
    if c.status_first_step
    then answer true false (record c { status_first_step = false; status_last_idx = current_idx })
    else if current_idx == c.status_last_idx
    then answer false true
        (record c { status_repeat_error_counter = add64 c.status_repeat_error_counter 1 })
    else answer true false (record c {
      status_diff3_error_counter =
          count_if (verify_counter_process current_idx c.status_last_idx)
            c.status_diff3_error_counter;
      status_last_idx = current_idx;
    })
