-- ===== src/Read/Adapt/Tests.antt =====
-- A message of version 1, without a gap in front of it and with one.
use ros2_perception.Packet.Items.{falcon_ring_id_table}
use ros2_perception.Packet.Check.{calculate_packet_crc32, verify_packet_crc32, check_data_packet}
use ros2_perception.Packet.Decode.{common_header_of, data_packet_of, item_type_of, return_mode_of}
use ros2_perception.Read.Packets.{crc_of, size}
use ros2_perception.Read.Adapt.{
  Adapted, data_packet_v1_of, check_message_v1, check_type_v1, set_packet_crc32, extend_header,
  convert, is_packet, check_data_packet_v1_and_convert_packet,
}
use ros2_perception.Read.Adapt.Data.{IsExtended}
use ros2_perception.Read.Adapt.Accepted.{check_data_packet_v1_lem}
use ros2_perception.Prelude.{
  ℕ, ◌+◌, ◌≡◌, ◌⊎◌, refl, true, false, some, List, [], ◌∷◌, ◌++◌, length, drop, replicate, arith,
}

-- A checksum that is always 7.
abbrev no_crc : List ℕ → ℕ
no_crc bs = 7

-- 95 bytes, with one text of one character.
abbrev text_v1 : List ℕ
text_v1 =
    (106 ∷ 23 ∷ 1 ∷ 0 ∷ 0 ∷ 0 ∷ 7 ∷ 0 ∷ 0 ∷ 0 ∷ 95 ∷ 0 ∷ 0 ∷ 0 ∷ [])
    ++ replicate 24 9
    ++ (2 ∷ 1 ∷ 0 ∷ 0 ∷ 41 ∷ 0 ∷ [])
    ++ replicate 10 0
    ++ (41 ∷ 0 ∷ 0 ∷ 0 ∷ [])
    ++ replicate 37 5

abbrev behind_gap : List ℕ
behind_gap = replicate 16 0 ++ text_v1

without_gap :
    check_data_packet_v1_and_convert_packet no_crc 95 0 (text_v1 ++ replicate 16 0)
    ≡ some (record { accepted = false; gap = 16; start = 0; buffer = text_v1 ++ replicate 16 0 })
unfolding check_data_packet_v1_and_convert_packet convert is_packet check_type_v1 check_message_v1
    data_packet_v1_of data_packet_of common_header_of item_type_of return_mode_of
    verify_packet_crc32 calculate_packet_crc32
without_gap = refl

abbrev adapted : Adapted
adapted = record {
  accepted = true;
  gap = 16;
  start = 0;
  buffer = set_packet_crc32 no_crc (extend_header behind_gap);
}

with_gap : check_data_packet_v1_and_convert_packet no_crc 95 16 behind_gap ≡ some adapted
unfolding check_data_packet_v1_and_convert_packet convert is_packet check_type_v1 check_message_v1
    data_packet_v1_of data_packet_of common_header_of item_type_of return_mode_of
    verify_packet_crc32 calculate_packet_crc32
with_gap = refl

front : drop 70 adapted.buffer ≡ drop 54 text_v1
unfolding set_packet_crc32 extend_header crc_of size
front = refl

check_data_packet_v1_lem_example :
    ◌≡◌ {A = ℕ} adapted.start 0
    × (length adapted.buffer ≡ length behind_gap)
    × IsExtended (drop 16 behind_gap) adapted.buffer
    × (((data_packet_v1_of (drop 16 behind_gap)).item_type ≡ falcon_ring_id_table)
        ⊎ (check_data_packet no_crc (data_packet_of adapted.buffer) (95 + 16) ≡ some true))
check_data_packet_v1_lem_example =
    check_data_packet_v1_lem no_crc 95 behind_gap adapted (λ bs. omega arith) (omega arith)
      (omega arith) (omega arith) with_gap refl
