-- ===== src/Read/Counters/Tests.antt =====
-- Runs of the tests of running numbers of sdk_client/stage_client_read.cpp, and their theorem at a
-- stream that wraps around.
use ros2_perception.Read.Counters.{Counters, verify_counter_process}
use ros2_perception.Read.Counters.Counted.{IsCounted, are_new}
use ros2_perception.Read.Counters.Errors.{Are16, data_all, data_all_lem}
use ros2_perception.Packet.Items.{sphere_pointcloud}
use ros2_perception.Prelude.{ℕ, ◌≡◌, refl, true, false, List, [], ◌∷◌, arith}

-- The state after five data packets, the last of which has the number 65534.
abbrev running : Counters
running = record {
  data_first_step = 5;
  data_last_sub_seq = 65534;
  sub_seq_zero_counter = 0;
  data_diff3_error_counter = 0;
  data_repeat_error_counter = 0;
  status_first_step = true;
  status_last_idx = 0;
  status_diff3_error_counter = 0;
  status_repeat_error_counter = 0;
}

abbrev numbers : List ℕ
numbers = 65535 ∷ 65535 ∷ 0 ∷ 7 ∷ []

answers : are_new 65534 numbers ≡ true ∷ false ∷ true ∷ true ∷ []
unfolding are_new
answers = refl

wraps : verify_counter_process 1 65534 ≡ false
unfolding verify_counter_process
wraps = refl

too_far : verify_counter_process 2 65534 ≡ true
unfolding verify_counter_process
too_far = refl

data_all_lem_example :
    IsCounted running.data_last_sub_seq running.data_repeat_error_counter
      running.data_diff3_error_counter numbers
      (data_all running sphere_pointcloud numbers).answers
      (data_all running sphere_pointcloud numbers).counters.data_repeat_error_counter
      (data_all running sphere_pointcloud numbers).counters.data_diff3_error_counter
unfolding Are16
data_all_lem_example =
    data_all_lem numbers running sphere_pointcloud refl (omega arith) (omega arith) (omega arith)
      (omega arith, (omega arith, (omega arith, (omega arith, tt)))) (omega arith) (omega arith)
