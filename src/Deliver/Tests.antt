-- ===== src/Deliver/Tests.antt =====
-- Runs of the deliver stages of sdk_client/stage_client_deliver.cpp.
use ros2_perception.Deliver.{
  Packet, CallbackType, as_received, xyz_packets, Client, Deliver, new_deliver, other_code,
}
use ros2_perception.Deliver.Stage.{process_job_, process_job2, process_all}
use ros2_perception.Deliver.Frames.{frame_client, IsPoints}
use ros2_perception.Deliver.Sequence.{buffers}
use ros2_perception.Deliver.Owned.{process_job_-balanced}
use ros2_perception.Deliver.Leak.{process_job_-loses_buffer}
use ros2_perception.Deliver.Second.{with_second, process_job2-after_process_job_}
use ros2_perception.Deliver.Stream.{packets_of, frame_calls, process_all-frames}
use ros2_perception.Packet.Items.{sphere_pointcloud}
use ros2_perception.Prelude.{
  ℕ, ◌+◌, ◌≡◌, refl, Bool, true, false, none, some, List, [], ◌∷◌, ◌++◌, replicate,
  length-replicate, one, count, arith,
}

-- Packets of points, whose points are numbered after them.
abbrev packet : ℕ → ℕ → Bool → Packet
packet b i last = record {
  buffer = b;
  magic_number = 0x176A;
  size = 104;
  lidar_status = 0;
  lidar_mode = 3;
  item_type = sphere_pointcloud;
  header = record { idx = i; sub_idx = 0; sub_seq = 0; item_number = 2; is_last_sub_frame = last };
  item_size = 17;
  message_size = 0;
  code = other_code;
}

abbrev two_points : Packet → List ℕ
two_points pkt = (pkt.buffer + 1) ∷ (pkt.buffer + 2) ∷ []

abbrev many_points : Packet → List ℕ
many_points pkt = replicate 2600 7

abbrev stage : Deliver
stage =
    record (new_deliver (record { idx = 4; is_last_sub_frame = true; size = 70; points = [] }) 0) {
      last_frame_idx = 4;
      cur_lidar_mode = 3;
    }

abbrev two_frames : List (ℕ × List Packet)
two_frames = (5, packet 1000 5 false ∷ packet 2000 5 true ∷ []) ∷ (6, packet 3000 6 true ∷ []) ∷ []

is_points : (b i : ℕ) (last : Bool) → IsPoints (packet b i last)
is_points b i last = record { magic = refl; sized = omega arith; sphere = refl }

process_all-frames_example :
    (z : Deliver) × (process_all two_points none 0
        (frame_client true true false)
        (packets_of two_frames)
        stage
      ≡ some z)
    × (z.calls ≡ [] ++ frame_calls two_points two_frames)
    × (z.freed ≡ [] ++ buffers (packets_of two_frames))
process_all-frames_example =
    process_all-frames two_points none 0 true true false two_frames stage
      (
        (is_points 1000 5 false, refl, refl, (is_points 2000 5 true, refl, refl)),
        omega arith,
        omega arith,
        omega arith,
        ((is_points 3000 6 true, refl, refl), omega arith, omega arith, omega arith, tt),
      )
      refl

abbrev client : CallbackType → Bool → Client
client wanted second = record {
  has_data_callback = true;
  has_status_callback = true;
  has_message_callback = true;
  force_xyz_pointcloud = false;
  callback_data_type = wanted;
  enable_stage_client_deliver2 = second;
}

process_job_-balanced_example :
    (z : Deliver) × (process_job_ two_points
        (some 5000)
        0
        (client xyz_packets true)
        (packet 1000 5 false)
        true
        stage
      ≡ some z)
    × ((b : ℕ)
        → count b z.freed + count b z.passed + count b stage.taken
          ≡ count b stage.freed + count b stage.passed + count b z.taken + one b 1000)
process_job_-balanced_example =
    process_job_-balanced two_points 5000 0 (client xyz_packets true) (packet 1000 5 false) true
      stage (omega arith) (λ second. omega arith)

process_job_-loses_buffer_example :
    (z : Deliver) × (process_job_ many_points
        (some 5000)
        0
        (client xyz_packets true)
        (packet 1000 5 false)
        true
        stage
      ≡ some z)
    × (z.taken ≡ [] ++ (5000 ∷ []))
    × (z.freed ≡ [] ++ (1000 ∷ []))
    × (z.passed ≡ [])
process_job_-loses_buffer_example =
    process_job_-loses_buffer many_points 5000 0 (client xyz_packets true) (packet 1000 5 false)
      stage (is_points 1000 5 false) refl refl refl (omega (arith, length-replicate {A = ℕ} 2600 7))

process_job2-after_process_job__example :
    (y z w : Deliver) × (process_job_ two_points none 0
        (with_second false (client as_received true))
        (packet 1000 5 false)
        true
        stage
      ≡ some y)
    × (process_job_ two_points none 0
          (with_second true (client as_received true))
          (packet 1000 5 false)
          true
          stage
        ≡ some z)
    × (process_job2 (with_second true (client as_received true)) (packet 1000 5 false) true z
        ≡ some w)
    × (w.calls ≡ y.calls)
    × (w.freed ≡ y.freed)
    × (z.calls ≡ [])
    × (z.freed ≡ [])
process_job2-after_process_job__example =
    process_job2-after_process_job_ two_points none 0 (client as_received true)
      (packet 1000 5 false) stage
      (record {
        magic = refl;
        sized = omega arith;
        points = refl;
        wanted = refl;
        no_packet = refl;
        no_frame = refl;
      })
