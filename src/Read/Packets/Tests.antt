-- ===== src/Read/Packets/Tests.antt =====
-- Runs of `read_packet_` of sdk_client/stage_client_read.cpp, and its theorems at concrete streams.
use ros2_perception.Read.Packets.{
  Buffers, magic_number, major_version, size, item_type, kind_of, is_roomy, read_packet_,
}
use ros2_perception.Read.Packets.Whole.{
  IsPacket, message_slot, slot_of, buffer_of, put, took, read_packet_-whole,
}
use ros2_perception.Read.Packets.Framing.{Stored}
use ros2_perception.Read.Packets.Memory.{
  is_bounded_stream, is_bounded_data, is_bounded, is_int_sized, read_packet_-inside,
  read_packet_-behind,
}
use ros2_perception.Read.Receive.{Event, bytes, interrupted, contents}
use ros2_perception.Prelude.{ℕ, ◌≡◌, ◌≢◌, refl, none, List, [], ◌∷◌, ◌++◌, replicate, arith}

abbrev pub sum : List ℕ → ℕ
sum bs = 0

abbrev buffers : Buffers
buffers = record {
  data_packet = replicate 80 0;
  message_packet = replicate 80 0;
  status_packet = replicate 674 0;
  anglehv_table = replicate 80 0;
}

-- A text of two bytes, in a packet of 72.
abbrev pub text_packet : List ℕ
text_packet =
    (106 ∷ 23 ∷ 3 ∷ replicate 7 0) ++ (72 ∷ replicate 27 0) ++ (2 ∷ replicate 31 0) ++ (7 ∷ 8 ∷ [])

abbrev stream : List Event
stream = bytes text_packet ∷ interrupted ∷ bytes (1 ∷ 2 ∷ []) ∷ []

text_packet-IsPacket : IsPacket text_packet message_slot buffers
unfolding slot_of magic_number item_type kind_of size major_version buffer_of
text_packet-IsPacket = record {
  slot = refl;
  sized = refl;
  long = omega arith;
  small = omega arith;
  fits = omega arith;
  current = omega arith;
}

read_packet_-whole_example :
    Stored
      (put message_slot buffers)
      (took message_slot)
      text_packet
      (1 ∷ 2 ∷ [])
      (read_packet_ sum buffers stream)
unfolding is_roomy contents
read_packet_-whole_example =
    read_packet_-whole message_slot sum text_packet (1 ∷ 2 ∷ []) buffers stream refl
      text_packet-IsPacket refl

read_packet_-inside_example : read_packet_ sum buffers stream ≢ none
unfolding is_roomy contents is_int_sized is_bounded_stream is_bounded_data is_bounded magic_number
    item_type kind_of size major_version
read_packet_-inside_example = read_packet_-inside sum buffers stream refl refl refl

-- The header of a status packet of 700 bytes.
abbrev long_header : List ℕ
long_header = (107 ∷ 24 ∷ 4 ∷ replicate 7 0) ++ (188 ∷ 2 ∷ replicate 14 0)

read_packet_-behind_example :
    read_packet_ sum buffers (bytes (long_header ++ replicate 674 0) ∷ []) ≡ none
unfolding is_roomy contents magic_number size
read_packet_-behind_example =
    read_packet_-behind sum long_header (replicate 674 0) [] buffers
      (bytes (long_header ++ replicate 674 0) ∷ []) refl refl refl refl refl (omega arith)
      (omega arith)
