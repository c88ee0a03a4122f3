-- ===== src/Read/Tests.antt =====
-- Reads of sdk_client/stage_client_read.cpp at concrete connections.
use ros2_perception.Read.Receive.{
  Event, bytes, interrupted, failed, Reads, recv_full_buffer, contents, recv_full_buffer_lem,
}
use ros2_perception.Prelude.{List, [], ◌∷◌, ◌≡◌, refl, false}

abbrev slow : List Event
slow = bytes (1 ∷ 2 ∷ []) ∷ interrupted ∷ bytes (3 ∷ 4 ∷ []) ∷ failed ∷ []

recv_full_buffer_lem_example : Reads 3 (contents slow) (recv_full_buffer 3 slow)
recv_full_buffer_lem_example = recv_full_buffer_lem slow 3

four : contents slow ≡ 1 ∷ 2 ∷ 3 ∷ 4 ∷ []
unfolding contents
four = refl

too_many : (recv_full_buffer 5 slow).complete ≡ false
unfolding recv_full_buffer
too_many = refl
