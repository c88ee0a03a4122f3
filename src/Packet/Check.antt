-- ===== src/Packet/Check.antt =====
-- `InnoDataPacketUtils::check_data_packet` and `check_status_packet` of
-- sdk_common/inno_lidar_packet_utils.cpp and `get_data_packet_size` of inno_lidar_packet_utils.h: which
-- packets of the network the client takes. `none` is an abort by `inno_log_verify` or a read behind
-- the receive buffer: of the struct of the packet (70 bytes), of the message's size behind it, or of the
-- bytes of the checksum. The common header (26 bytes) is there. The CRC function of utils/utils.cpp is a parameter. The check of the minor
-- version only logs.
pub mod Accepted
pub mod Total
mod Tests
use ros2_perception.Packet.Items.{
  InnoItemType, InnoMultipleReturnMode, message, message_log, robine_lite_anglehv_table,
  robinw_anglehv_table, hb_anglehv_table, robine2_anglehv_table, robine2x_anglehv_table,
  size_of_data_packet, size_of_message, unit_size, checked_layout, get_data_packet_size,
}
use ros2_perception.Prelude.{
  ℕ, ◌+◌, ◌-◌, ◌*◌, ◌^◌, ◌%◌, Bool, true, false, not, ◌&&◌, ◌||◌, Option, none, some, List, ◌++◌,
  ◌==◌, ltb, leb, if◌then◌else◌, sub64, length, take,
}

-- `version` holds the bytes of the version, with the two numbers decoded beside it, and `rest` the
-- bytes from the field `size` to the end of the receive buffer.
pub record InnoCommonHeader : Type 0 where
  pub magic_number : ℕ
  pub major_version : ℕ
  pub checksum : ℕ
  pub size : ℕ
  pub version : List ℕ
  pub rest : List ℕ

-- `message_size` is `messages[0].size` of the payload. Behind `common`, the fields are what stands there
-- if the buffer goes as far, which `has_bytes` tells.
pub record InnoDataPacket : Type 0 where
  pub common : InnoCommonHeader
  pub item_type : InnoItemType
  pub item_number : ℕ
  pub item_size : ℕ
  pub multi_return_mode : InnoMultipleReturnMode
  pub message_size : ℕ

-- Whether the first `n` bytes of a packet are in the receive buffer.
abbrev pub has_bytes : ℕ → InnoCommonHeader → Bool
has_bytes n header = leb n (10 + length header.rest)

-- The length `header->size - off` is a `size_t`; `off` is 10.
unfoldable pub calculate_packet_crc32 : (List ℕ → ℕ) → InnoCommonHeader → Option ℕ
calculate_packet_crc32 crc32 header =
    let len = sub64 header.size 10 in
    if ltb (length header.rest) len
    then none
    else some (crc32 (header.version ++ take len header.rest))

unfoldable pub verify_packet_crc32 : (List ℕ → ℕ) → InnoCommonHeader → Option Bool
verify_packet_crc32 crc32 header = elim (calculate_packet_crc32 crc32 header) [
  | none ↦ none
  | some checksum ↦ some (header.checksum == checksum)
]

-- `CHECK_ANGLEHV_TABLE_DATA`.
abbrev pub is_anglehv_table : InnoItemType → Bool
is_anglehv_table robine_lite_anglehv_table = true
is_anglehv_table robinw_anglehv_table = true
is_anglehv_table hb_anglehv_table = true
is_anglehv_table robine2_anglehv_table = true
is_anglehv_table robine2x_anglehv_table = true
is_anglehv_table _ = false

abbrev pub is_message : InnoItemType → Bool
is_message message = true
is_message message_log = true
is_message _ = false

-- What follows the `switch` for the types it names.
unfoldable pub check_data : (List ℕ → ℕ) → InnoDataPacket → Option Bool
check_data crc32 pkt =
    elim (get_data_packet_size pkt.item_type pkt.item_number pkt.multi_return_mode) [
      | none ↦ none
      | some s ↦
          if pkt.common.size == s
          then elim (verify_packet_crc32 crc32 pkt.common) [
            | none ↦ none
            | some ok ↦ some (ok && leb pkt.common.major_version 4)
          ]
          else some false
    ]

-- The size of the message lies 70 to 74 bytes behind the front of the packet.
unfoldable pub check_message : (List ℕ → ℕ) → InnoDataPacket → Option Bool
check_message crc32 pkt =
    if not (pkt.item_number == 1)
    then some false
    else if not (has_bytes 74 pkt.common)
    then none
    else if (pkt.item_size == pkt.message_size)
        && ltb size_of_message pkt.item_size
        && (pkt.common.size == pkt.item_size + size_of_data_packet)
    then verify_packet_crc32 crc32 pkt.common
    else some false

unfoldable pub check_other : (List ℕ → ℕ) → InnoDataPacket → Option Bool
check_other crc32 pkt =
    if is_message pkt.item_type
    then check_message crc32 pkt
    else if is_anglehv_table pkt.item_type
    then verify_packet_crc32 crc32 pkt.common
    else some false

-- The `switch`, and what follows it.
unfoldable pub check_type : (List ℕ → ℕ) → InnoDataPacket → Option Bool
check_type crc32 pkt = elim (checked_layout pkt.item_type) [
  | none ↦ check_other crc32 pkt
  | some l ↦ elim (unit_size l pkt.multi_return_mode) [
    | none ↦ some false
    | some u ↦ if pkt.item_size == u then check_data crc32 pkt else some false
  ]
]

-- The `switch` and what follows it read the whole struct.
unfoldable pub check_fields : (List ℕ → ℕ) → InnoDataPacket → Option Bool
check_fields crc32 pkt =
    if has_bytes size_of_data_packet pkt.common then check_type crc32 pkt else none

-- The size 0 stands for a buffer of unknown size.
unfoldable pub check_data_packet : (List ℕ → ℕ) → InnoDataPacket → ℕ → Option Bool
check_data_packet crc32 pkt size =
    if (pkt.common.magic_number == 0x176A) && not (ltb 0 size && ltb size pkt.common.size)
    then check_fields crc32 pkt
    else some false

unfoldable pub check_status_packet : (List ℕ → ℕ) → InnoCommonHeader → ℕ → Option Bool
check_status_packet crc32 header size =
    if (header.magic_number == 0x186B) && not (ltb 0 size && ltb size header.size)
    then verify_packet_crc32 crc32 header
    else some false
