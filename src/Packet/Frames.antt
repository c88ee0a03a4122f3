-- ===== src/Packet/Frames.antt =====
-- `summary_data_package` of sdk_common/inno_lidar_packet_utils.cpp: the statistics on the frames and
-- sub-frames that are missing. Its result is 0, -1 (a sub-frame is missing) or -2 (a frame is).
pub mod Missing
pub mod Gaps
use ros2_perception.Prelude.{
  ℕ, ◌+◌, ◌-◌, ◌%◌, ◌^◌, Bool, true, false, not, ◌&&◌, ◌==◌, ltb, if◌then◌else◌, add64, sub64, ℤ,
  pos, negsuc,
}
use ros2_perception.Packet.Summary.{InnoDataPacket, InnoSummaryPackage}

-- Signed comparisons of bit patterns: above zero at the width `w`, and `a > b` of `int64_t`.
abbrev pub is_positive : ℕ → ℕ → Bool
is_positive w x = ltb 0 x && ltb x (2 ^ (w - 1))

abbrev pub is_greater : ℕ → ℕ → Bool
is_greater a b = ltb ((b + 2 ^ 63) % 2 ^ 64) ((a + 2 ^ 63) % 2 ^ 64)

abbrev pub is_zero : ℤ → Bool
is_zero (pos n) = n == 0
is_zero (negsuc n) = false

-- The `int result` and the statistics.
abbrev pub Noted : Type 0
Noted = ℤ × InnoSummaryPackage

-- The last sub-frame of the frame before did not come.
unfoldable pub note_last_one : InnoSummaryPackage → Noted
note_last_one s =
    if not s.next_new_frame && is_positive 64 s.expect_frame
    then (
      negsuc 0,
      (record s {
        miss_sub_frame_last_one_counter = add64 s.miss_sub_frame_last_one_counter 1;
        miss_sub_frame_gap_counter = add64 s.miss_sub_frame_gap_counter 1;
      }),
    )
    else (pos 0, s)

-- Frames between the one before and this one did not come.
unfoldable pub note_frames : ℤ → InnoSummaryPackage → ℕ → Noted
note_frames result s idx =
    if not (s.expect_frame == idx) && is_positive 64 s.expect_frame && is_greater idx s.expect_frame
    then (
      negsuc 1,
      (record s { miss_frame_counter = add64 s.miss_frame_counter (sub64 idx s.expect_frame) }),
    )
    else (result, s)

unfoldable pub begin_frame : InnoSummaryPackage → ℕ → InnoSummaryPackage
begin_frame s idx = record s {
  current_frame = idx;
  expect_frame = add64 idx 1;
  frame_counter = add64 s.frame_counter 1;
  next_new_frame = false;
}

unfoldable pub note_new_frame : InnoSummaryPackage → ℕ → Noted
note_new_frame s idx =
    let last = note_last_one s in
    let frames = note_frames last.0 last.1 idx in
    if s.current_frame == idx then (pos 0, s) else (frames.0, begin_frame frames.1 idx)

-- Sub-frames between the one before and this one did not come.
unfoldable pub note_sub_frames : ℤ → InnoSummaryPackage → ℕ → Noted
note_sub_frames result s sub_idx =
    let gap = add64 s.miss_sub_frame_gap_counter 1 in
    if not (s.expect_sub_frame == sub_idx) && is_zero result && is_positive 32 s.expect_sub_frame
    then if ltb s.expect_sub_frame sub_idx
      then (
        negsuc 0,
        (record s {
          current_sub_frame = sub_idx;
          miss_sub_frame_gap_counter = gap;
          miss_sub_frame_except_last_one_counter =
              add64 s.miss_sub_frame_except_last_one_counter (sub_idx - s.expect_sub_frame);
        }),
      )
      else (result, (record s { current_sub_frame = sub_idx; miss_sub_frame_gap_counter = gap }))
    else (result, (record s { current_sub_frame = sub_idx }))

unfoldable pub end_packet : InnoSummaryPackage → InnoDataPacket → InnoSummaryPackage
end_packet s pkt = record s {
  expect_sub_frame = if pkt.is_last_sub_frame then 0 else pkt.sub_idx + 1;
  next_new_frame = if pkt.is_last_sub_frame then true else s.next_new_frame;
  empty_sub_frame_counter =
      if pkt.item_number == 0 then add64 s.empty_sub_frame_counter 1 else s.empty_sub_frame_counter;
}

unfoldable pub summary_data_package : InnoSummaryPackage → InnoDataPacket → Noted
summary_data_package s pkt =
    let frame = note_new_frame s pkt.idx in
    let sub = note_sub_frames frame.0 frame.1 pkt.sub_idx in (sub.0, end_packet sub.1 pkt)
