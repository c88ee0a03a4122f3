-- ===== src/Deliver.antt =====
-- The deliver stages of sdk_client/stage_client_deliver.h and .cpp: `StageClientDeliver`, which takes a
-- packet as a job, keeps the statistics and calls the client back, and `StageClientDeliver2`, to which
-- it may leave the callbacks of points. `none` is an abort. A point is a number; which points a packet
-- has once it is converted (floating point), what the pool gives, and the time are parameters. The
-- table of angles, which is fetched from the sensor, the restart of the recording on a new start, and
-- the counts of points and times, which are only logged, are left out.
pub mod Stage
pub mod Convert
pub mod Frames
pub mod Sequence
pub mod Stream
pub mod Kept
mod Guards
mod Runs
pub mod Owned
pub mod Second
pub mod Leak
mod Tests
use ros2_perception.Packet.Items.{
  InnoItemType, sphere_pointcloud, message, message_log, falcon_ring_id_table, xyz_pointcloud,
  robinw_xyz_pointcloud, falconii_dot_1_xyz_pointcloud, robinelite_xyz_pointcloud,
  hb_xyz_pointcloud, robine2_xyz_pointcloud, robine2x_xyz_pointcloud, size_of_data_packet,
  size_of_message,
}
use ros2_perception.Packet.Blocks.{is_sphere_pointcloud}
use ros2_perception.Packet.Summary
use ros2_perception.Packet.Summary.{InnoSummaryPackage, receive_stats}
use ros2_perception.Prelude.{
  ℕ, ◌+◌, ◌*◌, Bool, true, false, not, ◌&&◌, ◌||◌, Option, none, some, List, [], ◌∷◌, ◌++◌, ◌==◌,
  ltb, leb, if◌then◌else◌, length, add64, sub64,
}

-- The codes of messages that the stage acts on.
pub data MessageCode : Type 0 where
  new_start : MessageCode
  roi_changed : MessageCode
  max_distance_check_result : MessageCode
  other_code : MessageCode

-- A job: the address of a packet, and the fields that the stage reads.
pub record Packet : Type 0 where
  pub buffer : ℕ
  pub magic_number : ℕ
  pub size : ℕ
  pub lidar_status : ℕ
  pub lidar_mode : ℕ
  pub item_type : InnoItemType
  pub header : Summary.InnoDataPacket
  pub item_size : ℕ
  pub message_size : ℕ
  pub code : MessageCode

-- A packet of points that were converted; `size` is that in its header.
pub record XyzPacket : Type 0 where
  pub idx : ℕ
  pub is_last_sub_frame : Bool
  pub size : ℕ
  pub points : List ℕ

-- The calls that the client and the ring id converter get.
pub data Call : Type 0 where
  status_packet_callback : ℕ → Call
  data_packet_callback : ℕ → Call
  xyz_packet_callback : XyzPacket → Call
  message_callback : ℕ → Call
  update_ring_id_table : Option ℕ → Call

-- `INNO_CALLBACK_XYZ_PACKET`, `INNO_CALLBACK_XYZ_FRAME` and the other values of
-- `callback_data_type_`.
pub data CallbackType : Type 0 where
  as_received : CallbackType
  xyz_packets : CallbackType
  xyz_frames : CallbackType

pub record Client : Type 0 where
  pub has_data_callback : Bool
  pub has_status_callback : Bool
  pub has_message_callback : Bool
  pub force_xyz_pointcloud : Bool
  pub callback_data_type : CallbackType
  pub enable_stage_client_deliver2 : Bool

-- The fields of the stage, with the calls that it has made, and the addresses of the buffers that it
-- took from the pool, that it freed and that it gave to the second stage.
pub record Deliver : Type 0 where
  pub total_jobs : ℕ
  pub dropped_jobs : ℕ
  pub data_jobs : ℕ
  pub message_jobs : ℕ
  pub status_jobs : ℕ
  pub frames : ℕ
  pub xyz_data_packet : XyzPacket
  pub summary_package : InnoSummaryPackage
  pub cur_lidar_mode : ℕ
  pub last_frame_idx : ℕ
  pub calls : List Call
  pub taken : List ℕ
  pub freed : List ℕ
  pub passed : List ℕ

abbrev pub is_text : InnoItemType → Bool
is_text message = true
is_text message_log = true
is_text _ = false

abbrev pub is_ring_id_table : InnoItemType → Bool
is_ring_id_table falcon_ring_id_table = true
is_ring_id_table _ = false

abbrev pub call : Call → Deliver → Deliver
call c st = record st { calls = st.calls ++ (c ∷ []) }

abbrev pub free_buffer_ : ℕ → Deliver → Deliver
free_buffer_ b st = record st { freed = st.freed ++ (b ∷ []) }

abbrev pub pass_on : ℕ → Deliver → Deliver
pass_on b st = record st { passed = st.passed ++ (b ∷ []) }

-- `sizeof` of a point of the type that the points of a packet are converted to.
abbrev pub point_size : InnoItemType → ℕ
point_size sphere_pointcloud = 26
point_size _ = 40

-- The constructor, at the time `now`. The buffer for converted packets is not initialised.
abbrev pub new_deliver : XyzPacket → ℕ → Deliver
new_deliver garbage now = record {
  total_jobs = 0;
  dropped_jobs = 0;
  data_jobs = 0;
  message_jobs = 0;
  status_jobs = 0;
  frames = 0;
  xyz_data_packet = garbage;
  summary_package = Summary.new_summary now;
  cur_lidar_mode = 0;
  last_frame_idx = 0;
  calls = [];
  taken = [];
  freed = [];
  passed = [];
}

-- Points are added while there is room; each takes `unit` bytes.
unfoldable pub add_points : ℕ → ℕ → ℕ → List ℕ → List ℕ → Bool × ℕ × List ℕ
add_points unit dest_size required done [] = (true, required, done)
add_points unit dest_size required done (x ∷ xs) =
    let rest = add_points unit dest_size (required + unit) (done ++ (x ∷ [])) xs in
    if ltb dest_size (required + unit) then (false, required, done) else rest

-- `convert_to_xyz_pointcloud` of a packet with the points `xs`, which clears `dest` unless it appends.
-- Where the room ends the size of `dest` stays as it was.
unfoldable pub convert_to_xyz_pointcloud : Packet → List ℕ → XyzPacket → ℕ → Bool → Bool × XyzPacket
convert_to_xyz_pointcloud src xs dest dest_size append =
    if is_sphere_pointcloud src.item_type
    then (let start : XyzPacket = if append then dest else record {
      idx = src.header.idx;
      is_last_sub_frame = src.header.is_last_sub_frame;
      size = src.size;
      points = [];
    } in
        let required = if append then dest.size else size_of_data_packet in
        let r = add_points (point_size src.item_type) dest_size required start.points xs in
        if ltb dest_size required
        then (false, start)
        else (r.0, record start { size = if r.0 then r.1 else start.size; points = r.2 }))
    else (false, dest)

-- `kMaxXyzDataPacketBufSize` and `kMaxInnoDataBufferSize`.
abbrev pub max_xyz_data_packet_buf_size : ℕ
max_xyz_data_packet_buf_size = 600000 * 40

abbrev pub max_inno_data_buffer_size : ℕ
max_inno_data_buffer_size = 65536
