-- ===== src/Deliver/Guards.antt =====
-- The tests of a job in sdk_client/stage_client_deliver.cpp, for a whole data packet.
use ros2_perception.Packet.Items.{size_of_data_packet}
use ros2_perception.Prelude.{ℕ, ◌≤◌, ◌≡◌, true, false, ◌==◌, ltb, arith}

pub not_short : (n : ℕ) → size_of_data_packet ≤ n → ltb n 26 ≡ false
not_short n h = ground arith

pub not_cut : (n : ℕ) → size_of_data_packet ≤ n → ltb n size_of_data_packet ≡ false
not_cut n h = ground arith

pub not_status : (magic : ℕ) → magic ≡ 0x176A → (magic == 0x186B) ≡ false
not_status magic h = ground arith

pub is_data : (magic : ℕ) → magic ≡ 0x176A → (magic == 0x176A) ≡ true
is_data magic h = ground arith
