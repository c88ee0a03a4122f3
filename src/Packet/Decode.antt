-- ===== src/Packet/Decode.antt =====
-- The fields of a packet that lies at the front of a receive buffer, as the compiler reads the packed
-- structs of sdk_common/inno_lidar_packet.h on a little-endian machine.
use ros2_perception.Packet.Items.{
  InnoItemType, item_type_none, sphere_pointcloud, message, message_log, xyz_pointcloud,
  robine_sphere_pointcloud, robine_xyz_pointcloud, robinw_sphere_pointcloud, robinw_xyz_pointcloud,
  falconii_dot_1_sphere_pointcloud, falconii_dot_1_xyz_pointcloud, falconiii_sphere_pointcloud,
  falconiii_xyz_pointcloud, robinw_compact_pointcloud, robinelite_sphere_pointcloud,
  robinelite_xyz_pointcloud, robinelite_compact_pointcloud, robine2x_sphere_pointcloud,
  robine2x_xyz_pointcloud, robine2x_compact_pointcloud, hb_sphere_pointcloud, hb_xyz_pointcloud,
  hb_compact_pointcloud, robine2_sphere_pointcloud, robine2_xyz_pointcloud,
  robine2_compact_pointcloud, robinw_anglehv_table, robine_lite_anglehv_table, falcon_ring_id_table,
  hb_anglehv_table, robine2x_anglehv_table, robine2_anglehv_table, unknown_type,
  InnoMultipleReturnMode, mode_none, mode_single, mode_2_strongest, mode_2_strongest_furthest,
  mode_above,
}
use ros2_perception.Packet.Check.{InnoCommonHeader, InnoDataPacket}
use ros2_perception.Prelude.{
  ℕ, ◌+◌, ◌*◌, ◌/◌, ◌%◌, List, [], ◌∷◌, ◌==◌, if◌then◌else◌, take, drop, get_or, le16, le32,
}

-- The values of `enum InnoItemType`.
abbrev item_types : List (ℕ × InnoItemType)
item_types =
    (1, sphere_pointcloud)
    ∷ (2, message)
    ∷ (3, message_log)
    ∷ (4, xyz_pointcloud)
    ∷ (0, item_type_none)
    ∷ (5, robine_sphere_pointcloud)
    ∷ (6, robine_xyz_pointcloud)
    ∷ (7, robinw_sphere_pointcloud)
    ∷ (8, robinw_xyz_pointcloud)
    ∷ (9, falconii_dot_1_sphere_pointcloud)
    ∷ (10, falconii_dot_1_xyz_pointcloud)
    ∷ (11, falconiii_sphere_pointcloud)
    ∷ (12, falconiii_xyz_pointcloud)
    ∷ (13, robinw_compact_pointcloud)
    ∷ (14, robinelite_sphere_pointcloud)
    ∷ (15, robinelite_xyz_pointcloud)
    ∷ (16, robinelite_compact_pointcloud)
    ∷ (17, robine2x_sphere_pointcloud)
    ∷ (18, robine2x_xyz_pointcloud)
    ∷ (19, robine2x_compact_pointcloud)
    ∷ (20, hb_sphere_pointcloud)
    ∷ (21, hb_xyz_pointcloud)
    ∷ (22, hb_compact_pointcloud)
    ∷ (23, robine2_sphere_pointcloud)
    ∷ (24, robine2_xyz_pointcloud)
    ∷ (25, robine2_compact_pointcloud)
    ∷ (100, robinw_anglehv_table)
    ∷ (101, robine_lite_anglehv_table)
    ∷ (102, falcon_ring_id_table)
    ∷ (103, hb_anglehv_table)
    ∷ (104, robine2x_anglehv_table)
    ∷ (105, robine2_anglehv_table)
    ∷ []

abbrev type_among : List (ℕ × InnoItemType) → ℕ → InnoItemType
type_among [] n = unknown_type
type_among ((code, t) ∷ ts) n = if n == code then t else type_among ts n

unfoldable pub item_type_of : ℕ → InnoItemType
item_type_of n = type_among item_types n

unfoldable pub return_mode_of : ℕ → InnoMultipleReturnMode
return_mode_of n =
    if n == 0
    then mode_none
    else if n == 1
    then mode_single
    else if n == 2
    then mode_2_strongest
    else if n == 3
    then mode_2_strongest_furthest
    else mode_above

abbrev pub sub_seq : List ℕ → ℕ
sub_seq p = le16 p 36

-- The index of 64 bits of a data or status packet.
abbrev pub idx : List ℕ → ℕ
idx p = le32 p 26 + 4294967296 * le32 p 30

abbrev pub sub_idx : List ℕ → ℕ
sub_idx p = le16 p 34

abbrev pub item_number : List ℕ → ℕ
item_number p = get_or p 39 0 + 256 * le16 p 40

abbrev pub item_size : List ℕ → ℕ
item_size p = le16 p 42

abbrev pub multi_return_mode : List ℕ → InnoMultipleReturnMode
multi_return_mode p = return_mode_of (get_or p 48 0 / 4 % 8)

-- The bytes of `p` go to the end of the receive buffer.
unfoldable pub common_header_of : List ℕ → InnoCommonHeader
common_header_of p = record {
  magic_number = le16 p 0;
  major_version = get_or p 2 0;
  checksum = le32 p 6;
  size = le32 p 10;
  version = take 6 p;
  rest = drop 10 p;
}

unfoldable pub data_packet_of : List ℕ → InnoDataPacket
data_packet_of p = record {
  common = common_header_of p;
  item_type = item_type_of (get_or p 38 0);
  item_number = item_number p;
  item_size = item_size p;
  multi_return_mode = multi_return_mode p;
  message_size = le32 p 70;
}
