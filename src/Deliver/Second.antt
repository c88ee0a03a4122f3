-- ===== src/Deliver/Second.antt =====
-- The two stages of sdk_client/stage_client_deliver.cpp one after the other.
use ros2_perception.Deliver.{
  Packet, data_packet_callback, Client, Deliver, call, free_buffer_, pass_on,
}
use ros2_perception.Deliver.Stage.{
  is_frames, is_packets, count_frame, deliver_points, deliver_data, begin_job, process_job_,
  process_job2,
}
use ros2_perception.Deliver.Guards.{not_short, not_cut, not_status, is_data}
use ros2_perception.Packet.Items.{size_of_data_packet}
use ros2_perception.Packet.Blocks.{is_sphere_pointcloud, is_xyz_pointcloud}
use ros2_perception.Prelude.{
  ℕ, ◌≤◌, ◌≡◌, Bool, true, false, ◌&&◌, ◌||◌, Option, some, List, leb, if◌then◌else◌, add64, arith,
}

-- A packet of points that the client gets as it was received.
pub record IsRaw (client : Client) (pkt : Packet) : Type 0 where
  pub magic : pkt.magic_number ≡ 0x176A
  pub sized : size_of_data_packet ≤ pkt.size
  pub points : (is_sphere_pointcloud pkt.item_type || is_xyz_pointcloud pkt.item_type) ≡ true
  pub wanted : client.has_data_callback ≡ true
  pub no_packet :
      ((client.force_xyz_pointcloud || is_packets client.callback_data_type)
        && is_sphere_pointcloud pkt.item_type)
      ≡ false
  pub no_frame : (is_frames client.callback_data_type && is_sphere_pointcloud pkt.item_type) ≡ false

abbrev pub with_second : Bool → Client → Client
with_second b client = record client { enable_stage_client_deliver2 = b }

module _ (points_of : Packet → List ℕ) (alloc : Option ℕ) (now : ℕ) (client : Client) (pkt : Packet)
    (st : Deliver) where
  -- What is left of the stage once the job is noted.
  abbrev noted : Deliver
  noted = let b = begin_job now pkt st in record b { data_jobs = add64 b.data_jobs 1 }

  first :
      (second : Bool)
      → IsRaw client pkt
      → process_job_ points_of alloc now (with_second second client) pkt true st
        ≡ some (
            if second
            then count_frame pkt (pass_on pkt.buffer noted)
            else free_buffer_ pkt.buffer
                (count_frame pkt (call (data_packet_callback pkt.buffer) noted)))
  unfolding process_job_ deliver_data deliver_points
  first true is = simp (
    not_short pkt.size is.sized,
    not_cut pkt.size is.sized,
    not_status pkt.magic_number is.magic,
    is_data pkt.magic_number is.magic,
    is.points,
    is.wanted,
    is.no_packet,
    is.no_frame,
  )
  first false is = simp (
    not_short pkt.size is.sized,
    not_cut pkt.size is.sized,
    not_status pkt.magic_number is.magic,
    is_data pkt.magic_number is.magic,
    is.points,
    is.wanted,
    is.no_packet,
    is.no_frame,
  )

  second :
      (z : Deliver)
      → IsRaw client pkt
      → process_job2 (with_second true client) pkt true z
        ≡ some (
            free_buffer_ pkt.buffer (
              call
                (data_packet_callback pkt.buffer)
                (record z { total_jobs = add64 z.total_jobs 1 })))
  unfolding process_job2
  second z is =
      let whole : leb size_of_data_packet pkt.size ≡ true = ground (arith, is.sized) in
      simp (
        not_short pkt.size is.sized,
        is_data pkt.magic_number is.magic,
        whole,
        is.points,
        is.wanted,
      )

-- A packet of points that the client gets as it was received: the two stages one after the other make
-- the calls and free the buffers that the first stage alone makes and frees where the second stage is
-- disabled; the first stage alone, where the second is enabled, makes no call and frees nothing.
pub process_job2-after_process_job_ :
    (points_of : Packet → List ℕ) (alloc : Option ℕ) (now : ℕ) (client : Client) (pkt : Packet)
    (st : Deliver)
    → IsRaw client pkt
    → (y z w : Deliver) × (process_job_ points_of alloc now (with_second false client) pkt true st
        ≡ some y)
      × (process_job_ points_of alloc now (with_second true client) pkt true st ≡ some z)
      × (process_job2 (with_second true client) pkt true z ≡ some w)
      × (w.calls ≡ y.calls)
      × (w.freed ≡ y.freed)
      × (z.calls ≡ st.calls)
      × (z.freed ≡ st.freed)
unfolding count_frame begin_job
process_job2-after_process_job_ points_of alloc now client pkt st is = (
  _,
  _,
  _,
  first points_of alloc now client pkt st false is,
  first points_of alloc now client pkt st true is,
  second points_of alloc now client pkt st _ is,
  ground arith,
  ground arith,
  ground arith,
  ground arith,
)
