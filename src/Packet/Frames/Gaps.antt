-- ===== src/Packet/Frames/Gaps.antt =====
-- The results of `summary_data_package` and its counts of missing sub-frames, packet by packet.
use ros2_perception.Prelude.{
  ℕ, ◌+◌, ◌-◌, ◌^◌, ◌<◌, ◌≡◌, refl, ◌∙◌, ◌⊎◌, inl, inr, Bool, false, not, ◌&&◌, ◌==◌, ltb,
  if◌then◌else◌, if_elim, add64, ℤ, pos, negsuc, arith,
}
use ros2_perception.Packet.Summary.{InnoDataPacket, InnoSummaryPackage}
use ros2_perception.Packet.Frames.{
  is_positive, is_zero, Noted, note_last_one, note_frames, begin_frame, note_new_frame,
  note_sub_frames, end_packet, summary_data_package,
}
use ros2_perception.Packet.Frames.Missing.{IsAt, SameFrames-note_last_one}

-- The result, the sub-frames counted as missing and the gaps.
pub record Counts (n : Noted) (result : ℤ) (missing gaps : ℕ) : Type 0 where
  pub answer : n.0 ≡ result
  pub missed : n.1.miss_sub_frame_except_last_one_counter ≡ missing
  pub gapped : n.1.miss_sub_frame_gap_counter ≡ gaps

-- A packet of the current frame against the sub-frame `e` that is expected.
pub data Arrives (s : InnoSummaryPackage) (e sub : ℕ) (n : Noted) : Type 0 where
  on_time :
      sub ≡ e
      → Counts n (pos 0) s.miss_sub_frame_except_last_one_counter s.miss_sub_frame_gap_counter
      → Arrives s e sub n
  early :
      e < sub
      → Counts n
          (negsuc 0)
          (add64 s.miss_sub_frame_except_last_one_counter (sub - e))
          (add64 s.miss_sub_frame_gap_counter 1)
      → Arrives s e sub n
  late :
      sub < e
      → Counts n
          (pos 0)
          s.miss_sub_frame_except_last_one_counter
          (add64 s.miss_sub_frame_gap_counter 1)
      → Arrives s e sub n

note_sub_frames-Arrives :
    (s : InnoSummaryPackage) (e sub : ℕ)
    → s.expect_sub_frame ≡ e
    → 0 < e
    → e < 2 ^ 31
    → Arrives s e sub (note_sub_frames (pos 0) s sub)
unfolding note_sub_frames
note_sub_frames-Arrives s e sub same nonzero small =
    if_elim (λ (n : Noted). Arrives s e sub n)
      (not (s.expect_sub_frame == sub) && is_zero (pos 0) && is_positive 32 s.expect_sub_frame)
      (λ g.
        if_elim (λ (n : Noted). Arrives s e sub n) (ltb s.expect_sub_frame sub)
          (λ h.
            early (ground (arith, h, same))
              (record { answer = refl; missed = rw same refl; gapped = refl }))
          (λ h.
            late (ground (arith, g, h, same))
              (record { answer = refl; missed = refl; gapped = refl })))
      (λ g.
        on_time (ground (arith, g, same, nonzero, small))
          (record { answer = refl; missed = refl; gapped = refl }))

Counts-end_packet :
    (n : Noted) (pkt : InnoDataPacket) (result : ℤ) (missing gaps : ℕ)
    → Counts n result missing gaps
    → Counts (n.0, end_packet n.1 pkt) result missing gaps
unfolding end_packet
Counts-end_packet n pkt result missing gaps c = record {
  answer = c.answer;
  missed = c.missed;
  gapped = c.gapped;
}

Arrives-end_packet :
    (s : InnoSummaryPackage) (e sub : ℕ) (n : Noted) (pkt : InnoDataPacket)
    → Arrives s e sub n
    → Arrives s e sub (n.0, end_packet n.1 pkt)
Arrives-end_packet s e sub n pkt (on_time a c) = on_time a (Counts-end_packet n pkt _ _ _ c)
Arrives-end_packet s e sub n pkt (early a c) = early a (Counts-end_packet n pkt _ _ _ c)
Arrives-end_packet s e sub n pkt (late a c) = late a (Counts-end_packet n pkt _ _ _ c)

-- A packet of the current frame, of which the sub-frame `e` is expected: that one is answered with 0
-- and counts nothing; a later one with -1, and the sub-frames before it are added to the missing
-- ones as one gap; an earlier one with 0, and counts a gap alone.
pub same_frame_lem :
    (s : InnoSummaryPackage) (e : ℕ) (pkt : InnoDataPacket)
    → s.current_frame ≡ pkt.idx
    → s.expect_sub_frame ≡ e
    → 0 < e
    → e < 2 ^ 31
    → Arrives s e pkt.sub_idx (summary_data_package s pkt)
unfolding summary_data_package note_new_frame
same_frame_lem s e pkt here same nonzero small =
    if_elim
      (λ (n : Noted). Arrives s e pkt.sub_idx (
        (note_sub_frames n.0 n.1 pkt.sub_idx).0,
        end_packet (note_sub_frames n.0 n.1 pkt.sub_idx).1 pkt,
      ))
      (s.current_frame == pkt.idx)
      (λ g.
        Arrives-end_packet s e pkt.sub_idx (note_sub_frames (pos 0) s pkt.sub_idx) pkt
          (note_sub_frames-Arrives s e pkt.sub_idx same nonzero small))
      (λ g. ground (arith, g, here))

-- The answer to the first packet of a later frame `idx`, after the frame `f` with or without its last
-- sub-frame.
abbrev pub frame_answer : Bool → ℕ → ℕ → ℤ
frame_answer complete f idx =
    if ltb (f + 1) idx then negsuc 1 else if complete then pos 0 else negsuc 0

note_last_one-answer :
    (s : InnoSummaryPackage) (first f : ℕ)
    → IsAt s first f
    → (note_last_one s).0 ≡ (if s.next_new_frame then pos 0 else negsuc 0)
unfolding note_last_one
note_last_one-answer s first f v = ground (arith, v.expected, v.small)

note_frames-answer :
    (result : ℤ) (s : InnoSummaryPackage) (f idx : ℕ)
    → s.expect_frame ≡ f + 1
    → f < idx
    → idx + 1 < 2 ^ 63
    → (note_frames result s idx).0 ≡ (if ltb (f + 1) idx then negsuc 1 else result)
unfolding note_frames
note_frames-answer result s f idx e lt small = ground (arith, e, lt, small)

note_new_frame-answer :
    (s : InnoSummaryPackage) (first f idx : ℕ)
    → IsAt s first f
    → f < idx
    → idx + 1 < 2 ^ 63
    → (note_new_frame s idx).0 ≡ frame_answer s.next_new_frame f idx
unfolding note_new_frame
note_new_frame-answer s first f idx v lt small =
    if_elim (λ (n : Noted). n.0 ≡ frame_answer s.next_new_frame f idx) (s.current_frame == idx)
      (λ e. ground (arith, e, v.current, lt))
      (λ e.
        note_frames-answer _ _ f idx ((SameFrames-note_last_one s).expected ∙ v.expected) lt small
        ∙ rw (note_last_one-answer s first f v) refl)

expect-note_new_frame :
    (s : InnoSummaryPackage) (idx : ℕ)
    → (note_new_frame s idx).1.expect_sub_frame ≡ s.expect_sub_frame
unfolding note_new_frame note_frames note_last_one begin_frame
expect-note_new_frame s idx = ground arith

note_sub_frames-keeps :
    (result : ℤ) (s : InnoSummaryPackage) (sub : ℕ)
    → (is_zero result ≡ false) ⊎ (s.expect_sub_frame ≡ 0)
    → (note_sub_frames result s sub).0 ≡ result
unfolding note_sub_frames
note_sub_frames-keeps result s sub h = ground (arith, h)

-- The first packet of a later frame `idx` is answered with -2 if frames in between are missing, else
-- with -1 if the last sub-frame of the frame before is, else with 0.
pub new_frame_lem :
    (s : InnoSummaryPackage) (first f : ℕ) (pkt : InnoDataPacket)
    → IsAt s first f
    → (s.next_new_frame ≡ false) ⊎ (s.expect_sub_frame ≡ 0)
    → f < pkt.idx
    → pkt.idx + 1 < 2 ^ 63
    → (summary_data_package s pkt).0 ≡ frame_answer s.next_new_frame f pkt.idx
unfolding summary_data_package
new_frame_lem s first f pkt v h lt small =
    let a = note_new_frame-answer s first f pkt.idx v lt small in
    note_sub_frames-keeps _ _ pkt.sub_idx (elim h [
      | inl open_frame ↦ inl (rw (a, open_frame) (ground arith))
      | inr start ↦ inr (expect-note_new_frame s pkt.idx ∙ start)
    ])
    ∙ a
