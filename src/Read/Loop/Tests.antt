-- ===== src/Read/Loop/Tests.antt =====
-- Runs of the loop of sdk_client/stage_client_read.cpp over a file of two packets, and its theorems
-- there.
use ros2_perception.Read.Loop.{Reader, Finished, at_file_end, keep_reading_}
use ros2_perception.Read.Loop.Amount.{amount}
use ros2_perception.Read.Loop.Delivers.{keep_reading_-delivers}
use ros2_perception.Read.Loop.Files.{fronts, IsReady, IsAccepted, uniform, AreWhole}
use ros2_perception.Read.Loop.Ends.{EndsItself, keep_reading_-done}
use ros2_perception.Read.Loop.Owned.{IsBalanced, LeavesNothing, keep_reading_-frees}
use ros2_perception.Read.Packets.{magic_number, major_version, size, item_type, kind_of}
use ros2_perception.Read.Packets.Tests.{sum, text_packet}
use ros2_perception.Read.Packets.Whole.{IsPacket, Slot, message_slot, slot_of, buffer_of}
use ros2_perception.Read.Receive.{Event, bytes, interrupted, contents}
use ros2_perception.Prelude.{
  ℕ, ◌+◌, ◌*◌, ◌≡◌, refl, false, Option, none, some, List, [], ◌∷◌, ◌++◌, replicate, map, count,
  arith,
}

abbrev take_all : List ℕ → ℕ → Option (List ℕ)
take_all buf n = some buf

-- Each buffer is another one.
abbrev new_buffer : ℕ → ℕ
new_buffer n = 4096 + 65536 * n

abbrev fresh : List ℕ
fresh = replicate 674 0

abbrev new_reader : Reader
new_reader = record {
  data_packet = none;
  message_packet = none;
  status_packet = none;
  anglehv_table = [];
  delivered = [];
  allocated = [];
  freed = [];
}

abbrev file : List Event
file = bytes text_packet ∷ interrupted ∷ bytes text_packet ∷ []

abbrev two : List (Slot × List ℕ)
two = (message_slot, text_packet) ∷ (message_slot, text_packet) ∷ []

text-IsPacket : IsPacket text_packet message_slot (uniform fresh)
unfolding slot_of magic_number item_type kind_of size major_version buffer_of
text-IsPacket = record {
  slot = refl;
  sized = refl;
  long = omega arith;
  small = omega arith;
  fits = omega arith;
  current = omega arith;
}

two-AreWhole : AreWhole take_all fresh two
unfolding AreWhole IsAccepted
two-AreWhole = (text-IsPacket, λ buf h. refl, (text-IsPacket, λ buf h. refl, tt))

keep_reading_-delivers_example :
    (f : Finished) × (keep_reading_ sum take_all new_buffer fresh false 3 new_reader file ≡ some f)
    × (f.reason ≡ at_file_end)
    × (fronts f.reader.delivered ≡ fronts new_reader.delivered ++ map (λ x. x.1) two)
unfolding IsReady contents
keep_reading_-delivers_example =
    keep_reading_-delivers sum take_all new_buffer fresh two 3 new_reader file (omega arith)
      (refl, refl, refl) two-AreWhole refl (omega arith)

keep_reading_-done_example :
    EndsItself (keep_reading_ sum take_all new_buffer fresh false 200 new_reader file)
    × (keep_reading_ sum take_all new_buffer fresh false 200 new_reader file
        ≡ keep_reading_ sum take_all new_buffer fresh false 148 new_reader file)
unfolding amount
keep_reading_-done_example =
    keep_reading_-done sum take_all new_buffer fresh false 200 148 new_reader file (omega arith)
      (omega arith)

keep_reading_-frees_example :
    LeavesNothing (keep_reading_ sum take_all new_buffer fresh false 2 new_reader file)
unfolding IsBalanced count
keep_reading_-frees_example =
    keep_reading_-frees sum take_all new_buffer fresh false 2 new_reader file (λ a. refl)
