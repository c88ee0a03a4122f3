-- ===== src/Read/Stage/Tests.antt =====
-- A run of the stage of sdk_client/stage_client_read.cpp, stopped before its reader starts.
use ros2_perception.Read.Stage.{
  state_stopped, start_reading, stop_input, request_stop, stopping_or_stopped, finish_reading,
  after, Threads, Event, starts, polls, ends_reading, stops_input, requests, new_threads, step, run,
}
use ros2_perception.Read.Stage.Safe.{run_lem}
use ros2_perception.Prelude.{◌≡◌, refl, true, false, not, ◌&&◌, some, List, [], ◌∷◌}

abbrev early_stop : List Event
early_stop = stops_input ∷ requests ∷ starts ∷ requests ∷ polls ∷ ends_reading ∷ []

ended :
    run new_threads early_stop
    ≡ some (record {
      stage = record { state = state_stopped; start_flag = false };
      reading = after;
      is_requested = true;
    })
unfolding run step start_reading stop_input request_stop stopping_or_stopped finish_reading
ended = refl

run_lem_example :
    (z : Threads) × (run new_threads early_stop ≡ some z)
    × ((z.is_requested && z.stage.start_flag) ≡ false)
    × ((z.is_requested && not (stopping_or_stopped z.stage).0) ≡ false)
run_lem_example = run_lem early_stop
