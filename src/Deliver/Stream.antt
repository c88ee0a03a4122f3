-- ===== src/Deliver/Stream.antt =====
-- A stream of frames through `StageClientDeliver` of sdk_client/stage_client_deliver.cpp.
use ros2_perception.Deliver.{
  Packet, XyzPacket, Call, xyz_packet_callback, Deliver, max_xyz_data_packet_buf_size,
}
use ros2_perception.Deliver.Stage.{process_all}
use ros2_perception.Deliver.Frames.{frame_client, At}
use ros2_perception.Deliver.Sequence.{IsFrame, buffers, needs, frame_of, run-append, frame_lem}
use ros2_perception.Packet.Items.{size_of_data_packet}
use ros2_perception.Prelude.{
  ℕ, ◌+◌, ◌-◌, ◌^◌, ◌<◌, ◌≤◌, ◌≡◌, refl, sym, ap, ◌∙◌, Bool, true, Option, some, List, [], ◌∷◌,
  ◌++◌, arith,
}
use mathlib.Core.List.{append-nil, append_assoc, map-append}

-- The frames of a sensor, each with its number and its packets: the numbers rise, and each frame fits
-- into the buffer of the stage once it is converted.
abbrev pub AreFrames : (Packet → List ℕ) → ℕ → List (ℕ × List Packet) → Type 0
AreFrames points_of last [] = Unit {0}
AreFrames points_of last ((i, ps) ∷ frames) =
    IsFrame i ps
    × (last < i)
    × (i < 2 ^ 64 - 1)
    × (size_of_data_packet + needs points_of ps ≤ max_xyz_data_packet_buf_size)
    × AreFrames points_of i frames

abbrev pub packets_of : List (ℕ × List Packet) → List Packet
packets_of [] = []
packets_of ((i, ps) ∷ frames) = ps ++ packets_of frames

abbrev pub frame_calls : (Packet → List ℕ) → List (ℕ × List Packet) → List Call
frame_calls points_of [] = []
frame_calls points_of ((i, ps) ∷ frames) =
    xyz_packet_callback (frame_of points_of i ps) ∷ frame_calls points_of frames

module _ (points_of : Packet → List ℕ) (alloc : Option ℕ) (now : ℕ)
    (status message second : Bool) where
  stream_lem :
      (frames : List (ℕ × List Packet)) (st : Deliver) (last : ℕ) (x : XyzPacket) (cs : List Call)
      (fs : List ℕ)
      → AreFrames points_of last frames
      → At st last x cs fs
      → x.is_last_sub_frame ≡ true
      → (z : Deliver) × (process_all points_of alloc now
            (frame_client status message second)
            (packets_of frames)
            st
          ≡ some z)
        × (z.calls ≡ cs ++ frame_calls points_of frames)
        × (z.freed ≡ fs ++ buffers (packets_of frames))
  unfolding process_all
  stream_lem [] st last x cs fs h at done =
      (st, refl, at.called ∙ sym (append-nil cs), at.given_back ∙ sym (append-nil fs))
  stream_lem ((i, ps) ∷ frames) st last x cs fs (frame, above, low, fits, more) at done =
      let (y, e, over) =
        frame_lem points_of alloc now status message second ps st i last x cs fs frame at done
          (λ q. omega (arith, above, q)) (λ q. absurd (omega (arith, above, low, q))) fits in
      let (z, e', called, freed) =
        stream_lem frames y i (frame_of points_of i ps)
          (cs ++ (xyz_packet_callback (frame_of points_of i ps) ∷ [])) (fs ++ buffers ps) more over
          refl in
      (
        z,
        run-append points_of alloc now status message second ps (packets_of frames) st y e ∙ e',
        called
            ∙ append_assoc cs (xyz_packet_callback (frame_of points_of i ps) ∷ [])
                (frame_calls points_of frames),
        freed
            ∙ append_assoc fs (buffers ps) (buffers (packets_of frames))
            ∙ ap (λ l. fs ++ l)
                (sym (map-append (λ (p : Packet). p.buffer) ps (packets_of frames))),
      )

-- A stage that last delivered a whole frame, and whose client asks for frames, delivers a stream of
-- later frames whose packets come in order, and which have room once they are converted, each once,
-- whole, and in their order: with the points of all its packets in the order of the packets. Each
-- packet's buffer goes back to the pool, in order.
pub process_all-frames :
    (points_of : Packet → List ℕ) (alloc : Option ℕ) (now : ℕ) (status message second : Bool)
    (frames : List (ℕ × List Packet)) (st : Deliver)
    → AreFrames points_of st.last_frame_idx frames
    → st.xyz_data_packet.is_last_sub_frame ≡ true
    → (z : Deliver) × (process_all points_of alloc now
          (frame_client status message second)
          (packets_of frames)
          st
        ≡ some z)
      × (z.calls ≡ st.calls ++ frame_calls points_of frames)
      × (z.freed ≡ st.freed ++ buffers (packets_of frames))
process_all-frames points_of alloc now status message second frames st h done =
    stream_lem points_of alloc now status message second frames st st.last_frame_idx
      st.xyz_data_packet st.calls st.freed h
      (record { last_frame = refl; frame = refl; called = refl; given_back = refl }) done
