-- ===== src/Read/Adapt.antt =====
-- `InnoPacketV1Adapt` of sdk_client/inno_lidar_packet_v1_adapt.h: packets of version 1, whose header
-- is shorter, are checked and rewritten in place as packets of version 2. The buffer of the pool is a
-- list of bytes, in which the packet stands behind a gap of `gap` bytes, as both callers have it;
-- `none` is an abort or a read behind the buffer.
pub mod Bytes
pub mod Checksum
pub mod Data
pub mod Accepted
mod Tests
use ros2_perception.Packet.Items.{
  InnoItemType, sphere_pointcloud, xyz_pointcloud, message, message_log, falcon_ring_id_table,
  InnoMultipleReturnMode, block, xyz_point, unit_size, size_of_message,
}
use ros2_perception.Packet.Check.{InnoCommonHeader, InnoDataPacket, verify_packet_crc32}
use ros2_perception.Packet.Decode.{common_header_of, data_packet_of}
use ros2_perception.Read.Packets.{write, le32_bytes, crc_of}
use ros2_perception.Prelude.{
  ℕ, ◌+◌, ◌*◌, Bool, true, false, not, ◌&&◌, Option, none, some, List, [], ◌∷◌, ◌==◌, ltb,
  if◌then◌else◌, take, drop, replicate, le32,
}

abbrev pub size_of_data_packet_v1 : ℕ
size_of_data_packet_v1 = 26 + 12 + 10 + 2 + 4

abbrev pub size_of_status_packet_v1 : ℕ
size_of_status_packet_v1 = 598

abbrev pub memory_front_gap : ℕ
memory_front_gap = 16

-- The answer, the reference `gap`, and where `*buff` points into the buffer.
pub record Adapted : Type 0 where
  pub accepted : Bool
  pub gap : ℕ
  pub start : ℕ
  pub buffer : List ℕ

-- The payload of a packet of version 1 is at 54.
unfoldable pub data_packet_v1_of : List ℕ → InnoDataPacket
data_packet_v1_of p = record (data_packet_of p) { message_size = le32 p 54 }

unfoldable pub get_data_packet_v1_size : InnoItemType → ℕ → InnoMultipleReturnMode → Option ℕ
get_data_packet_v1_size t item_count mode = elim t [
  | sphere_pointcloud ↦ elim (unit_size block mode) [
    | none ↦ some 0
    | some u ↦ some (size_of_data_packet_v1 + item_count * u)
  ]
  | xyz_pointcloud ↦ some (size_of_data_packet_v1 + item_count * 26)
  | _ ↦ none
]

unfoldable pub check_points_v1 : (List ℕ → ℕ) → InnoDataPacket → Option Bool
check_points_v1 crc32 pkt =
    elim (get_data_packet_v1_size pkt.item_type pkt.item_number pkt.multi_return_mode) [
      | none ↦ none
      | some s ↦ if pkt.common.size == s then verify_packet_crc32 crc32 pkt.common else some false
    ]

unfoldable pub check_message_v1 : (List ℕ → ℕ) → InnoDataPacket → Option Bool
check_message_v1 crc32 pkt =
    if (pkt.item_number == 1)
      && (pkt.item_size == pkt.message_size)
      && ltb size_of_message pkt.item_size
      && (pkt.common.size == pkt.item_size + size_of_data_packet_v1)
    then verify_packet_crc32 crc32 pkt.common
    else some false

unfoldable pub check_table_v1 : (List ℕ → ℕ) → InnoDataPacket → Option Bool
check_table_v1 crc32 pkt =
    if (pkt.item_number == 1) && (pkt.common.size == pkt.item_size + size_of_data_packet_v1)
    then verify_packet_crc32 crc32 pkt.common
    else some false

-- The tests of each type of packets.
unfoldable pub check_type_v1 : (List ℕ → ℕ) → InnoDataPacket → Option Bool
check_type_v1 crc32 pkt = elim pkt.item_type [
  | sphere_pointcloud ↦ elim (unit_size block pkt.multi_return_mode) [
    | none ↦ some false
    | some u ↦ if pkt.item_size == u then check_points_v1 crc32 pkt else some false
  ]
  | xyz_pointcloud ↦ if pkt.item_size == 26 then check_points_v1 crc32 pkt else some false
  | message ↦ check_message_v1 crc32 pkt
  | message_log ↦ check_message_v1 crc32 pkt
  | falcon_ring_id_table ↦ check_table_v1 crc32 pkt
  | _ ↦ some false
]

-- `set_packet_crc32`.
unfoldable pub set_packet_crc32 : (List ℕ → ℕ) → List ℕ → List ℕ
set_packet_crc32 crc32 buf = write 6 (le32_bytes (crc_of crc32 buf)) buf

-- The header moves to the front of the gap, and the bytes behind it are cleared.
unfoldable pub extend_header : List ℕ → List ℕ
extend_header buf =
    let moved = write 0 (take 54 (drop 16 buf)) buf in
    let sized = write 10 (le32_bytes (le32 moved 10 + memory_front_gap)) moved in
    write 2 (2 ∷ 1 ∷ []) (write 54 (replicate 16 0) sized)

-- The whole packet moves to the front of the gap, and the fields behind it are cleared.
unfoldable pub extend_status : List ℕ → List ℕ
extend_status buf =
    let moved = write 0 (take 598 (drop 16 buf)) buf in
    let sized = write 10 (le32_bytes (le32 moved 10 + 76)) moved in
    write 598 (replicate 76 0) (write 2 (2 ∷ 1 ∷ []) sized)

abbrev pub refused : ℕ → List ℕ → Adapted
refused gap buf = record { accepted = false; gap = gap; start = gap; buffer = buf }

-- What is done with a valid packet: without a gap there is no room, and the next packets get one.
unfoldable pub convert : (List ℕ → ℕ) → (List ℕ → List ℕ) → ℕ → List ℕ → Adapted
convert crc32 extend gap buf =
    if gap == memory_front_gap
    then record {
      accepted = true;
      gap = gap;
      start = 0;
      buffer = set_packet_crc32 crc32 (extend buf);
    }
    else if gap == 0
    then record { accepted = false; gap = memory_front_gap; start = 0; buffer = buf }
    else record { accepted = true; gap = gap; start = gap; buffer = buf }

abbrev pub convert_valid :
    (List ℕ → ℕ) → (List ℕ → List ℕ) → ℕ → List ℕ → Option Bool → Option Adapted
convert_valid crc32 extend gap buf none = none
convert_valid crc32 extend gap buf (some false) = some (refused gap buf)
convert_valid crc32 extend gap buf (some true) = some (convert crc32 extend gap buf)

-- The size 0 stands for a packet of unknown size.
unfoldable pub is_packet : ℕ → ℕ → InnoCommonHeader → Bool
is_packet magic size h = (h.magic_number == magic) && not (ltb 0 size && ltb size h.size)

unfoldable pub check_data_packet_v1_and_convert_packet :
    (List ℕ → ℕ) → ℕ → ℕ → List ℕ → Option Adapted
check_data_packet_v1_and_convert_packet crc32 size gap buf =
    let pkt = data_packet_v1_of (drop gap buf) in
    convert_valid crc32 extend_header gap buf
      (if is_packet 0x176A size pkt.common then check_type_v1 crc32 pkt else some false)

unfoldable pub check_status_packet_v1_and_convert_packet :
    (List ℕ → ℕ) → ℕ → ℕ → List ℕ → Option Adapted
check_status_packet_v1_and_convert_packet crc32 size gap buf =
    let h = common_header_of (drop gap buf) in
    convert_valid crc32 extend_status gap buf (
      if is_packet 0x186B size h && (h.size == size_of_status_packet_v1)
      then verify_packet_crc32 crc32 h
      else some false)
