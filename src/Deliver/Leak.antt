-- ===== src/Deliver/Leak.antt =====
-- A packet whose points do not fit into the buffer that `process_job_` of
-- sdk_client/stage_client_deliver.cpp takes for the second stage.
use ros2_perception.Deliver.{
  Packet, XyzPacket, Client, Deliver, free_buffer_, max_inno_data_buffer_size,
}
use ros2_perception.Deliver.Stage.{
  is_packets, deliver_xyz_packet, count_frame, finished, deliver_points, deliver_data, process_job_,
  begin_job,
}
use ros2_perception.Deliver.Convert.{need, convert-over}
use ros2_perception.Deliver.Frames.{IsPoints}
use ros2_perception.Deliver.Kept.{begin_job-Same, count_frame-Same}
use ros2_perception.Deliver.Guards.{not_short, not_cut, not_status, is_data}
use ros2_perception.Packet.Items.{size_of_data_packet}
use ros2_perception.Packet.Blocks.{is_sphere_pointcloud}
use ros2_perception.Prelude.{
  ℕ, ◌+◌, ◌<◌, ◌≡◌, refl, ap, ◌∙◌, true, false, ◌||◌, Option, some, List, [], ◌∷◌, ◌++◌, add64,
}

taken_lem :
    (points_of : Packet → List ℕ) (a : ℕ) (client : Client) (pkt : Packet) (st : Deliver)
    → client.enable_stage_client_deliver2 ≡ true
    → max_inno_data_buffer_size < size_of_data_packet + need points_of pkt
    → deliver_xyz_packet points_of (some a) client pkt st
      ≡ some (record st { taken = st.taken ++ (a ∷ []) })
unfolding deliver_xyz_packet
taken_lem points_of a client pkt st second over =
    let blank : XyzPacket = record { idx = 0; is_last_sub_frame = false; size = 0; points = [] } in
    let e = convert-over points_of max_inno_data_buffer_size pkt blank over in rw (second, e) refl

points_lem :
    (points_of : Packet → List ℕ) (alloc : Option ℕ) (client : Client) (pkt : Packet)
    (st0 z : Deliver)
    → is_sphere_pointcloud pkt.item_type ≡ true
    → client.has_data_callback ≡ true
    → (client.force_xyz_pointcloud || is_packets client.callback_data_type) ≡ true
    → deliver_xyz_packet points_of alloc client pkt
        (record st0 { data_jobs = add64 st0.data_jobs 1 })
      ≡ some z
    → deliver_points points_of alloc client pkt st0 ≡ some (finished pkt true z)
unfolding deliver_points
points_lem points_of alloc client pkt st0 z sphere wanted packets e =
    rw e (simp (wanted, packets, sphere))

-- A job with a packet of points whose client wants points and leaves the callback to the second stage,
-- and whose points do not fit into a buffer of 65536 bytes: the buffer that the stage took from the
-- pool is neither freed nor given to the second stage; that of the job is freed.
pub process_job_-loses_buffer :
    (points_of : Packet → List ℕ) (a now : ℕ) (client : Client) (pkt : Packet) (st : Deliver)
    → IsPoints pkt
    → client.has_data_callback ≡ true
    → (client.force_xyz_pointcloud || is_packets client.callback_data_type) ≡ true
    → client.enable_stage_client_deliver2 ≡ true
    → max_inno_data_buffer_size < size_of_data_packet + need points_of pkt
    → (z : Deliver) × (process_job_ points_of (some a) now client pkt true st ≡ some z)
      × (z.taken ≡ st.taken ++ (a ∷ []))
      × (z.freed ≡ st.freed ++ (pkt.buffer ∷ []))
      × (z.passed ≡ st.passed)
unfolding process_job_ deliver_data
process_job_-loses_buffer points_of a now client pkt st is wanted packets second over =
    let begun = begin_job now pkt st in
    let ready : Deliver = record begun { data_jobs = add64 begun.data_jobs 1 } in
    let lost : Deliver = record ready { taken = ready.taken ++ (a ∷ []) } in
    let e =
      points_lem points_of (some a) client pkt begun lost is.sphere wanted packets
        (taken_lem points_of a client pkt ready second over) in
    let begun_kept = begin_job-Same now pkt st in
    let kept = count_frame-Same pkt lost in
    (
      free_buffer_ pkt.buffer (count_frame pkt lost),
      rw
          (
            not_short pkt.size is.sized,
            not_status pkt.magic_number is.magic,
            is_data pkt.magic_number is.magic,
            not_cut pkt.size is.sized,
            is.sphere,
            e,
          )
          refl,
      kept.same_taken ∙ ap (λ (l : List ℕ). l ++ (a ∷ [])) begun_kept.same_taken,
      ap (λ (l : List ℕ). l ++ (pkt.buffer ∷ [])) (kept.same_freed ∙ begun_kept.same_freed),
      kept.same_passed ∙ begun_kept.same_passed,
    )
