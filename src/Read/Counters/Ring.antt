-- ===== src/Read/Counters/Ring.antt =====
-- The distance of running numbers that `verify_counter_process` of sdk_client/stage_client_read.cpp
-- tests.
use ros2_perception.Read.Counters.{verify_counter_process}
use ros2_perception.Prelude.{ℕ, ◌+◌, ◌-◌, ◌%◌, ◌^◌, ◌<◌, ◌≡◌, ltb, leb, if◌then◌else◌, arith}

-- The distance of two numbers on the ring of 16 bits.
abbrev pub ring_distance : ℕ → ℕ → ℕ
ring_distance a b =
    let up = (a + 2 ^ 16 - b) % 2 ^ 16 in
    let down = (b + 2 ^ 16 - a) % 2 ^ 16 in if leb up down then up else down

-- The test of two numbers of 16 bits finds exactly those that are more than 3 apart on the ring.
pub verify_counter_process_lem :
    (current last : ℕ)
    → current < 2 ^ 16
    → last < 2 ^ 16
    → verify_counter_process current last ≡ ltb 3 (ring_distance current last)
unfolding verify_counter_process
verify_counter_process_lem current last h h' = ground arith
