-- ===== src/Packet/Check/Tests.antt =====
-- Runs of the checks of packets, and the theorems about them at concrete packets. The sum of the
-- bytes serves as the CRC.
use ros2_perception.Prelude.{ℕ, ◌+◌, ◌≡◌, ◌≢◌, refl, List, [], ◌∷◌, true, some, replicate, arith}
use ros2_perception.Packet.Items.{
  sphere_pointcloud, robine_xyz_pointcloud, block, mode_single, get_data_packet_size,
}
use ros2_perception.Packet.Check.{
  InnoCommonHeader, InnoDataPacket, calculate_packet_crc32, verify_packet_crc32, check_data,
  check_type, check_fields, check_data_packet,
}
use ros2_perception.Packet.Check.Accepted.{IsAccepted, check_data_packet_lem}
use ros2_perception.Packet.Check.Total.{Answers, check_data_packet-Answers}

abbrev byte_sum : List ℕ → ℕ
byte_sum [] = 0
byte_sum (b ∷ bs) = b + byte_sum bs

-- A header of 103 bytes, all in the buffer.
abbrev header : ℕ → InnoCommonHeader
header magic = record {
  magic_number = magic;
  major_version = 4;
  checksum = 99;
  size = 103;
  version = replicate 6 1;
  rest = replicate 93 1;
}

abbrev one_block : InnoDataPacket
one_block = record {
  common = header 0x176A;
  item_type = sphere_pointcloud;
  item_number = 1;
  item_size = 33;
  multi_return_mode = mode_single;
  message_size = 0;
}

one_block_accepted : check_data_packet byte_sum one_block 103 ≡ some true
unfolding check_data_packet check_fields check_type check_data verify_packet_crc32
    calculate_packet_crc32 get_data_packet_size
one_block_accepted = refl

check_data_packet_lem_example : IsAccepted byte_sum one_block 103
check_data_packet_lem_example =
    check_data_packet_lem byte_sum one_block 103 block refl (omega arith) (omega arith)
      one_block_accepted

abbrev robine : InnoDataPacket
robine = record one_block { item_type = robine_xyz_pointcloud; item_size = 40 }

abbrev short_header : InnoCommonHeader
short_header = record (header 0x186B) { size = 9 }

is_other : sphere_pointcloud ≢ robine_xyz_pointcloud
is_other e = cc

check_data_packet-Answers_example : Answers (check_data_packet byte_sum one_block 103)
check_data_packet-Answers_example =
    check_data_packet-Answers byte_sum one_block 103
      (record { low = omega arith; high = omega arith; inside = omega arith })
      (record { struct = omega arith; message_head = λ e. cc }) is_other (omega arith) (omega arith)
