-- ===== src/Packet/Frames/Missing.antt =====
-- What the statistics of `summary_data_package` count, for packets whose frames come in order.
use ros2_perception.Prelude.{
  ℕ, ◌+◌, ◌-◌, ◌^◌, ◌<◌, ◌≤◌, ◌≡◌, refl, ◌∙◌, subst, List, [], ◌∷◌, not, ◌&&◌, ◌==◌, ltb, if_elim,
  ℤ, pos, arith,
}
use ros2_perception.Packet.Summary.{InnoDataPacket, InnoSummaryPackage, new_summary}
use ros2_perception.Packet.Frames.{
  is_positive, is_zero, is_greater, Noted, note_last_one, note_frames, begin_frame, note_new_frame,
  note_sub_frames, end_packet, summary_data_package,
}

-- The statistics after packets of the frames `first` to `f`: each of these is counted as received
-- or as missing.
pub record IsAt (s : InnoSummaryPackage) (first f : ℕ) : Type 0 where
  pub current : s.current_frame ≡ f
  pub expected : s.expect_frame ≡ f + 1
  pub split : s.frame_counter + s.miss_frame_counter + first ≡ f + 1
  pub started : 0 < s.frame_counter
  pub small : f + 1 < 2 ^ 63

-- Only the rest of the statistics differs.
pub record SameFrames (s r : InnoSummaryPackage) : Type 0 where
  pub current : r.current_frame ≡ s.current_frame
  pub expected : r.expect_frame ≡ s.expect_frame
  pub received : r.frame_counter ≡ s.frame_counter
  pub missing : r.miss_frame_counter ≡ s.miss_frame_counter

pub SameFrames-note_last_one : (s : InnoSummaryPackage) → SameFrames s (note_last_one s).1
unfolding note_last_one
SameFrames-note_last_one s =
    if_elim (λ (n : Noted). SameFrames s n.1)
      (not s.next_new_frame && is_positive 64 s.expect_frame)
      (λ _. record { current = refl; expected = refl; received = refl; missing = refl })
      (λ _. record { current = refl; expected = refl; received = refl; missing = refl })

SameFrames-note_sub_frames :
    (result : ℤ) (s : InnoSummaryPackage) (sub_idx : ℕ)
    → SameFrames s (note_sub_frames result s sub_idx).1
unfolding note_sub_frames
SameFrames-note_sub_frames result s sub_idx =
    if_elim (λ (n : Noted). SameFrames s n.1)
      (not (s.expect_sub_frame == sub_idx) && is_zero result && is_positive 32 s.expect_sub_frame)
      (λ _.
        if_elim (λ (n : Noted). SameFrames s n.1) (ltb s.expect_sub_frame sub_idx)
          (λ _. record { current = refl; expected = refl; received = refl; missing = refl })
          (λ _. record { current = refl; expected = refl; received = refl; missing = refl }))
      (λ _. record { current = refl; expected = refl; received = refl; missing = refl })

IsAt-SameFrames :
    (s r : InnoSummaryPackage) (first f : ℕ) → SameFrames s r → IsAt s first f → IsAt r first f
IsAt-SameFrames s r first f e v = record {
  current = e.current ∙ v.current;
  expected = e.expected ∙ v.expected;
  split = rw (e.received, e.missing) v.split;
  started = rw e.received v.started;
  small = v.small;
}

-- A later frame: the frames in between are added to the missing ones.
IsAt-begin_frame :
    (result : ℤ) (s : InnoSummaryPackage) (first f idx : ℕ)
    → IsAt s first f
    → f < idx
    → idx + 1 < 2 ^ 63
    → IsAt (begin_frame (note_frames result s idx).1 idx) first idx
unfolding note_frames begin_frame
IsAt-begin_frame result s first f idx v lt small =
    if_elim (λ (n : Noted). IsAt (begin_frame n.1 idx) first idx)
      (not (s.expect_frame == idx)
        && is_positive 64 s.expect_frame
        && is_greater idx s.expect_frame)
      (λ e. record {
        current = refl;
        expected = omega (arith, small);
        split = rw v.expected (omega (arith, v.split, v.started, small, lt));
        started = omega (arith, v.split, v.small);
        small = small;
      })
      (λ e. record {
        current = refl;
        expected = omega (arith, small);
        split = ground (arith, v.expected, v.split, v.started, lt, small);
        started = omega (arith, v.split, v.small);
        small = small;
      })

IsAt-end_packet :
    (s : InnoSummaryPackage) (first f : ℕ) (pkt : InnoDataPacket)
    → IsAt s first f
    → IsAt (end_packet s pkt) first f
unfolding end_packet
IsAt-end_packet s first f pkt v = record {
  current = v.current;
  expected = v.expected;
  split = v.split;
  started = v.started;
  small = v.small;
}

IsAt-note_new_frame :
    (s : InnoSummaryPackage) (first f idx : ℕ)
    → IsAt s first f
    → f ≤ idx
    → idx + 1 < 2 ^ 63
    → IsAt (note_new_frame s idx).1 first idx
unfolding note_new_frame
IsAt-note_new_frame s first f idx v le small =
    if_elim (λ (n : Noted). IsAt n.1 first idx) (s.current_frame == idx)
      (λ e. subst (λ x. IsAt s first x) (ground (arith, e, v.current)) v)
      (λ e.
        IsAt-begin_frame _ _ first f idx
          (IsAt-SameFrames s _ first f (SameFrames-note_last_one s) v)
          (ground (arith, e, v.current, le)) small)

-- A packet of the same or a later frame keeps every frame from the first to the one it belongs to
-- counted exactly once, as received or as missing.
pub summary-IsAt :
    (s : InnoSummaryPackage) (first f : ℕ) (pkt : InnoDataPacket)
    → IsAt s first f
    → f ≤ pkt.idx
    → pkt.idx + 1 < 2 ^ 63
    → IsAt (summary_data_package s pkt).1 first pkt.idx
unfolding summary_data_package
summary-IsAt s first f pkt v le small = IsAt-end_packet _ first pkt.idx pkt (
    IsAt-SameFrames _ _ first pkt.idx (SameFrames-note_sub_frames _ _ pkt.sub_idx)
      (IsAt-note_new_frame s first f pkt.idx v le small))

unfoldable pub summary_all : InnoSummaryPackage → List InnoDataPacket → InnoSummaryPackage
summary_all s [] = s
summary_all s (pkt ∷ rest) = summary_all (summary_data_package s pkt).1 rest

-- The frames of the packets do not go back below `f`, and stay below 2 ^ 63 - 1.
unfoldable pub InOrder : ℕ → List InnoDataPacket → Type 0
InOrder f [] = Unit
InOrder f (pkt ∷ rest) = (f ≤ pkt.idx) × ((pkt.idx + 1 < 2 ^ 63) × InOrder pkt.idx rest)

unfoldable pub last_frame : ℕ → List InnoDataPacket → ℕ
last_frame f [] = f
last_frame f (pkt ∷ rest) = last_frame pkt.idx rest

summary_all-IsAt :
    (pkts : List InnoDataPacket) (s : InnoSummaryPackage) (first f : ℕ)
    → IsAt s first f
    → InOrder f pkts
    → IsAt (summary_all s pkts) first (last_frame f pkts)
unfolding summary_all InOrder last_frame
summary_all-IsAt [] s first f v o = v
summary_all-IsAt (pkt ∷ rest) s first f v (le, (small, o)) =
    summary_all-IsAt rest _ first pkt.idx (summary-IsAt s first f pkt v le small) o

begin_first-IsAt :
    (start idx : ℕ)
    → 0 < idx
    → idx + 1 < 2 ^ 63
    → IsAt (begin_frame (note_frames (pos 0) (new_summary start) idx).1 idx) idx idx
unfolding note_frames begin_frame new_summary
begin_first-IsAt start idx nonzero small =
    if_elim (λ (n : Noted). IsAt (begin_frame n.1 idx) idx idx)
      (not (0 == idx) && is_positive 64 0 && is_greater idx 0) (λ e. ground (arith, e))
      (λ e. record {
        current = refl;
        expected = omega (arith, small);
        split = omega arith;
        started = omega arith;
        small = small;
      })

first-IsAt :
    (start : ℕ) (pkt : InnoDataPacket)
    → 0 < pkt.idx
    → pkt.idx + 1 < 2 ^ 63
    → IsAt (summary_data_package (new_summary start) pkt).1 pkt.idx pkt.idx
unfolding summary_data_package note_new_frame note_last_one new_summary
first-IsAt start pkt nonzero small = IsAt-end_packet _ _ _ pkt (
    IsAt-SameFrames _ _ _ _ (SameFrames-note_sub_frames _ _ pkt.sub_idx) (
      if_elim (λ (n : Noted). IsAt n.1 pkt.idx pkt.idx) (0 == pkt.idx)
        (λ e. ground (arith, e, nonzero)) (λ e. begin_first-IsAt start pkt.idx nonzero small)))

-- After packets whose frames come in order, from a first frame that is not 0 on, the received and
-- the missing frames are as many as there are from the first to the last.
pub summary_all_lem :
    (start : ℕ) (pkt : InnoDataPacket) (rest : List InnoDataPacket)
    → 0 < pkt.idx
    → pkt.idx + 1 < 2 ^ 63
    → InOrder pkt.idx rest
    → (summary_all (new_summary start) (pkt ∷ rest)).frame_counter
        + (summary_all (new_summary start) (pkt ∷ rest)).miss_frame_counter
      ≡ last_frame pkt.idx rest + 1 - pkt.idx
unfolding summary_all
summary_all_lem start pkt rest nonzero small o =
    let v = summary_all-IsAt rest _ _ _ (first-IsAt start pkt nonzero small) o in
    omega (arith, v.split)
