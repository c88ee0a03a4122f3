-- ===== src/Deliver/Stage.antt =====
-- `StageClientDeliver::process_job_` and `StageClientDeliver2::process_job_` of
-- sdk_client/stage_client_deliver.cpp. `points_of` says which points a packet has once it is converted,
-- `alloc` what the pool gives at its next call, and `now` is the time.
use ros2_perception.Deliver.{
  Packet, XyzPacket, status_packet_callback, data_packet_callback, xyz_packet_callback,
  message_callback, update_ring_id_table, CallbackType, xyz_packets, xyz_frames, Client, Deliver,
  MessageCode, max_distance_check_result, roi_changed, is_text, is_ring_id_table, call,
  free_buffer_, pass_on, convert_to_xyz_pointcloud, max_xyz_data_packet_buf_size,
  max_inno_data_buffer_size,
}
use ros2_perception.Packet.Items.{size_of_data_packet, size_of_message}
use ros2_perception.Packet.Blocks.{is_sphere_pointcloud, is_xyz_pointcloud}
use ros2_perception.Packet.Summary.{receive_stats}
use ros2_perception.Prelude.{
  ℕ, ◌+◌, Bool, true, false, not, ◌&&◌, ◌||◌, Option, none, some, List, [], ◌∷◌, ◌++◌, ◌==◌, ltb,
  leb, if◌then◌else◌, add64, sub64,
}

-- What a step of the stage leaves, and whether the buffer of the job is still to be freed: an early
-- return frees it itself.
pub record Done : Type 0 where
  pub stage : Deliver
  pub need_free_buffer : Bool

abbrev pub is_code : MessageCode → MessageCode → Bool
is_code roi_changed roi_changed = true
is_code max_distance_check_result max_distance_check_result = true
is_code _ _ = false

-- A packet whose points are delivered at once, from the stage's buffer or by the second stage.
unfoldable pub deliver_xyz_packet :
    (Packet → List ℕ) → Option ℕ → Client → Packet → Deliver → Option Deliver
deliver_xyz_packet points_of alloc client pkt st =
    if client.enable_stage_client_deliver2
    then elim alloc [
      | none ↦ none
      | some a ↦
          let blank : XyzPacket = record {
            idx = 0;
            is_last_sub_frame = false;
            size = 0;
            points = [];
          } in
          let r =
            convert_to_xyz_pointcloud pkt (points_of pkt) blank max_inno_data_buffer_size false in
          let got = record st { taken = st.taken ++ (a ∷ []) } in
          some (if r.0 then pass_on a got else got)
    ]
    else (let r =
          convert_to_xyz_pointcloud pkt (points_of pkt) st.xyz_data_packet
            max_xyz_data_packet_buf_size false in
        let next = record st { xyz_data_packet = r.1 } in
        some (if r.0 then call (xyz_packet_callback r.1) next else next))

-- The last packet of a frame was lost: the frame is delivered without it.
unfoldable pub end_frame : Packet → Deliver → Deliver
end_frame pkt st =
    if not st.xyz_data_packet.is_last_sub_frame && (sub64 pkt.header.idx st.last_frame_idx == 1)
    then call (xyz_packet_callback st.xyz_data_packet) st
    else st

-- What the stage keeps of the frame, which goes out with its last packet.
abbrev pub place : Bool → XyzPacket → Deliver → Deliver
place false x st = record st { xyz_data_packet = x }
place true x st =
    let whole = record x { is_last_sub_frame = true } in
    call (xyz_packet_callback whole) (record st { xyz_data_packet = whole })

-- Adds the points of a packet to the frame, and delivers the frame with its last packet.
unfoldable pub add_to_frame : (Packet → List ℕ) → Bool → Packet → Deliver → Deliver
add_to_frame points_of append pkt st =
    place pkt.header.is_last_sub_frame
      (convert_to_xyz_pointcloud pkt (points_of pkt) st.xyz_data_packet max_xyz_data_packet_buf_size
        append).1
      st

-- A packet of the frame before the last one is dropped.
unfoldable pub deliver_xyz_frame : (Packet → List ℕ) → Packet → Deliver → Deliver × Bool
deliver_xyz_frame points_of pkt st =
    if pkt.header.idx == st.last_frame_idx
    then (add_to_frame points_of true pkt st, true)
    else (let ended = end_frame pkt st in
        if sub64 st.last_frame_idx pkt.header.idx == 1 then (ended, false) else (
          add_to_frame points_of false pkt (record ended { last_frame_idx = pkt.header.idx }),
          true,
        ))

unfoldable pub count_frame : Packet → Deliver → Deliver
count_frame pkt st =
    if pkt.header.is_last_sub_frame then (record st { frames = add64 st.frames 1 }) else st

abbrev pub is_frames : CallbackType → Bool
is_frames xyz_frames = true
is_frames _ = false

abbrev pub is_packets : CallbackType → Bool
is_packets xyz_packets = true
is_packets _ = false

abbrev pub finished : Packet → Bool → Deliver → Done
finished pkt need st = record { stage = count_frame pkt st; need_free_buffer = need }

unfoldable pub deliver_points :
    (Packet → List ℕ) → Option ℕ → Client → Packet → Deliver → Option Done
deliver_points points_of alloc client pkt st0 =
    let st = record st0 { data_jobs = add64 st0.data_jobs 1 } in
    let sphere = is_sphere_pointcloud pkt.item_type in
    let frame = deliver_xyz_frame points_of pkt st in
    if not client.has_data_callback
    then some (finished pkt true st)
    else if (client.force_xyz_pointcloud || is_packets client.callback_data_type) && sphere
    then elim (deliver_xyz_packet points_of alloc client pkt st) [
      | none ↦ none
      | some z ↦ some (finished pkt true z)
    ]
    else if is_frames client.callback_data_type && sphere
    then some (
        if frame.1
        then finished pkt true frame.0
        else (record { stage = free_buffer_ pkt.buffer frame.0; need_free_buffer = false }))
    else if client.enable_stage_client_deliver2
    then some (finished pkt false (pass_on pkt.buffer st))
    else some (finished pkt true (call (data_packet_callback pkt.buffer) st))

-- The zero that ends the message in place is left out; the table of ring ids is read anew where its code says so.
unfoldable pub deliver_message : Client → Packet → Deliver → Deliver
deliver_message client pkt st0 =
    let st = record st0 { message_jobs = add64 st0.message_jobs 1 } in
    if not (pkt.size == pkt.item_size + size_of_data_packet)
      || leb pkt.item_size size_of_message
      || not (pkt.header.item_number == 1)
      || not (pkt.item_size == pkt.message_size)
    then st
    else (let noted =
          if is_code roi_changed pkt.code then call (update_ring_id_table none) st else st in
        if client.has_message_callback && not (is_code max_distance_check_result pkt.code)
        then call (message_callback pkt.buffer) noted
        else noted)

unfoldable pub deliver_status : Client → Packet → Deliver → Deliver
deliver_status client pkt st0 =
    let st = record st0 { status_jobs = add64 st0.status_jobs 1 } in
    let told =
      if client.has_status_callback then call (status_packet_callback pkt.buffer) st else st in
    if pkt.lidar_status == 0
    then (record (if pkt.lidar_mode == st.cur_lidar_mode
        then told
        else call (update_ring_id_table none) told) { cur_lidar_mode = pkt.lidar_mode })
    else told

unfoldable pub deliver_data : (Packet → List ℕ) → Option ℕ → Client → Packet → Deliver → Option Done
deliver_data points_of alloc client pkt st =
    if ltb pkt.size size_of_data_packet
    then some (record { stage = st; need_free_buffer = true })
    else if is_sphere_pointcloud pkt.item_type || is_xyz_pointcloud pkt.item_type
    then deliver_points points_of alloc client pkt st
    else some (record {
      stage =
          if is_text pkt.item_type
          then deliver_message client pkt st
          else if is_ring_id_table pkt.item_type
          then call (update_ring_id_table (some pkt.buffer)) st
          else st;
      need_free_buffer = true;
    })

abbrev pub free_if_needed : ℕ → Option Done → Option Deliver
free_if_needed b none = none
free_if_needed b (some d) = some (if d.need_free_buffer then free_buffer_ b d.stage else d.stage)

-- The start of a job: packets that carry points count for the statistics on losses.
unfoldable pub begin_job : ℕ → Packet → Deliver → Deliver
begin_job now pkt st =
    let counts =
      (pkt.magic_number == 0x176A)
      && not (is_text pkt.item_type || is_ring_id_table pkt.item_type) in
    record st {
      total_jobs = add64 st.total_jobs 1;
      summary_package =
          if counts then receive_stats st.summary_package pkt.header now else st.summary_package;
    }

unfoldable pub process_job_ :
    (Packet → List ℕ) → Option ℕ → ℕ → Client → Packet → Bool → Deliver → Option Deliver
process_job_ points_of alloc now client pkt prefer st0 =
    let st = begin_job now pkt st0 in
    if not prefer
    then some (free_buffer_ pkt.buffer (record st { dropped_jobs = add64 st.dropped_jobs 1 }))
    else if ltb pkt.size 26
    then none
    else if pkt.magic_number == 0x186B
    then some (free_buffer_ pkt.buffer (deliver_status client pkt st))
    else if pkt.magic_number == 0x176A
    then free_if_needed pkt.buffer (deliver_data points_of alloc client pkt st)
    else some (free_buffer_ pkt.buffer st)

-- The second stage takes packets of points only; any other data packet ends the program.
unfoldable pub process_job2 : Client → Packet → Bool → Deliver → Option Deliver
process_job2 client pkt prefer st0 =
    let st = record st0 { total_jobs = add64 st0.total_jobs 1 } in
    if not prefer
    then some (free_buffer_ pkt.buffer (record st { dropped_jobs = add64 st.dropped_jobs 1 }))
    else if ltb pkt.size 26
    then none
    else if not (pkt.magic_number == 0x176A)
    then some st
    else if leb size_of_data_packet pkt.size
        && (is_sphere_pointcloud pkt.item_type || is_xyz_pointcloud pkt.item_type)
        && client.has_data_callback
    then some (free_buffer_ pkt.buffer (call (data_packet_callback pkt.buffer) st))
    else none

-- The jobs of the queue, one after another, none of them dropped.
unfoldable pub process_all :
    (Packet → List ℕ) → Option ℕ → ℕ → Client → List Packet → Deliver → Option Deliver
process_all points_of alloc now client [] st = some st
process_all points_of alloc now client (pkt ∷ pkts) st =
    elim (process_job_ points_of alloc now client pkt true st) [
      | none ↦ none
      | some z ↦ process_all points_of alloc now client pkts z
    ]
