-- ===== src/Packet/Items.antt =====
-- The types of items in sdk_common/inno_lidar_packet.h, and their sizes by `get_data_packet_size` of
-- sdk_common/inno_lidar_packet_utils.h and by `check_data_packet` of inno_lidar_packet_utils.cpp.
use ros2_perception.Prelude.{ℕ, ◌+◌, ◌*◌, ◌^◌, ◌%◌, Option, none, some}

-- `enum InnoItemType`; `unknown_type` is any other value of the 8 bits.
pub data InnoItemType : Type 0 where
  item_type_none : InnoItemType
  sphere_pointcloud : InnoItemType
  message : InnoItemType
  message_log : InnoItemType
  xyz_pointcloud : InnoItemType
  robine_sphere_pointcloud : InnoItemType
  robine_xyz_pointcloud : InnoItemType
  robinw_sphere_pointcloud : InnoItemType
  robinw_xyz_pointcloud : InnoItemType
  falconii_dot_1_sphere_pointcloud : InnoItemType
  falconii_dot_1_xyz_pointcloud : InnoItemType
  falconiii_sphere_pointcloud : InnoItemType
  falconiii_xyz_pointcloud : InnoItemType
  robinw_compact_pointcloud : InnoItemType
  robinelite_sphere_pointcloud : InnoItemType
  robinelite_xyz_pointcloud : InnoItemType
  robinelite_compact_pointcloud : InnoItemType
  robine2x_sphere_pointcloud : InnoItemType
  robine2x_xyz_pointcloud : InnoItemType
  robine2x_compact_pointcloud : InnoItemType
  hb_sphere_pointcloud : InnoItemType
  hb_xyz_pointcloud : InnoItemType
  hb_compact_pointcloud : InnoItemType
  robine2_sphere_pointcloud : InnoItemType
  robine2_xyz_pointcloud : InnoItemType
  robine2_compact_pointcloud : InnoItemType
  robinw_anglehv_table : InnoItemType
  robine_lite_anglehv_table : InnoItemType
  falcon_ring_id_table : InnoItemType
  hb_anglehv_table : InnoItemType
  robine2x_anglehv_table : InnoItemType
  robine2_anglehv_table : InnoItemType
  unknown_type : InnoItemType

-- `enum InnoMultipleReturnMode`, of three bits; `mode_above` is any value above its last.
pub data InnoMultipleReturnMode : Type 0 where
  mode_none : InnoMultipleReturnMode
  mode_single : InnoMultipleReturnMode
  mode_2_strongest : InnoMultipleReturnMode
  mode_2_strongest_furthest : InnoMultipleReturnMode
  mode_above : InnoMultipleReturnMode

-- `sizeof` of the packed structs, as their fields add up.
abbrev pub size_of_data_packet : ℕ
size_of_data_packet = 26 + 12 + 10 + 2 + 4 + 16

abbrev pub size_of_message : ℕ
size_of_message = 4 + 4 + 8 + 4 + 4 + 16

-- The structs of items: with one or two returns in a block, or a point.
pub data Layout : Type 0 where
  block : Layout
  en_block : Layout
  co_block : Layout
  xyz_point : Layout
  en_xyz_point : Layout

-- The size of an item of a block; `none` is a bad return mode.
abbrev pub block_size : ℕ → ℕ → InnoMultipleReturnMode → Option ℕ
block_size one two mode_single = some one
block_size one two mode_2_strongest = some two
block_size one two mode_2_strongest_furthest = some two
block_size one two mode_none = none
block_size one two mode_above = none

abbrev pub unit_size : Layout → InnoMultipleReturnMode → Option ℕ
unit_size block mode = block_size (17 + 4 * 4) (17 + 8 * 4) mode
unit_size en_block mode = block_size (18 + 4 * 8) (18 + 8 * 8) mode
unit_size co_block mode = block_size (10 + 8 * 4) (10 + 16 * 4) mode
unit_size xyz_point mode = some (16 + 2 + 2 + 4 + 2)
unit_size en_xyz_point mode = some (16 + 6 + 8 + 4 + 6)

-- The cases of the `switch` of `check_data_packet`.
abbrev pub checked_layout : InnoItemType → Option Layout
checked_layout sphere_pointcloud = some block
checked_layout robine_sphere_pointcloud = some en_block
checked_layout robinw_sphere_pointcloud = some en_block
checked_layout falconii_dot_1_sphere_pointcloud = some en_block
checked_layout xyz_pointcloud = some xyz_point
checked_layout robine_xyz_pointcloud = some en_xyz_point
checked_layout robinw_xyz_pointcloud = some en_xyz_point
checked_layout robinelite_xyz_pointcloud = some en_xyz_point
checked_layout falconii_dot_1_xyz_pointcloud = some en_xyz_point
checked_layout hb_xyz_pointcloud = some en_xyz_point
checked_layout robinw_compact_pointcloud = some co_block
checked_layout robinelite_compact_pointcloud = some co_block
checked_layout hb_compact_pointcloud = some co_block
checked_layout robine2_compact_pointcloud = some co_block
checked_layout robine2x_compact_pointcloud = some co_block
checked_layout _ = none

-- The cases of the `switch` of `get_data_packet_size`.
abbrev pub sized_layout : InnoItemType → Option Layout
sized_layout sphere_pointcloud = some block
sized_layout robinw_compact_pointcloud = some co_block
sized_layout robinelite_compact_pointcloud = some co_block
sized_layout hb_compact_pointcloud = some co_block
sized_layout robine2_compact_pointcloud = some co_block
sized_layout robine2x_compact_pointcloud = some co_block
sized_layout xyz_pointcloud = some xyz_point
sized_layout robine_sphere_pointcloud = some en_block
sized_layout robinw_sphere_pointcloud = some en_block
sized_layout falconii_dot_1_sphere_pointcloud = some en_block
sized_layout robinw_xyz_pointcloud = some en_xyz_point
sized_layout falconii_dot_1_xyz_pointcloud = some en_xyz_point
sized_layout robinelite_xyz_pointcloud = some en_xyz_point
sized_layout hb_xyz_pointcloud = some en_xyz_point
sized_layout robine2_xyz_pointcloud = some en_xyz_point
sized_layout robine2x_xyz_pointcloud = some en_xyz_point
sized_layout _ = none

-- An unknown type aborts, a bad mode gives 0.
unfoldable pub get_data_packet_size : InnoItemType → ℕ → InnoMultipleReturnMode → Option ℕ
get_data_packet_size item_type item_count mode = elim (sized_layout item_type) [
  | none ↦ none
  | some l ↦ elim (unit_size l mode) [
    | none ↦ some 0
    | some u ↦ some ((size_of_data_packet + item_count * u) % 2 ^ 64)
  ]
]
