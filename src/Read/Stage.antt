-- ===== src/Read/Stage.antt =====
-- The states of `StageClientRead` of sdk_client/stage_client_read.cpp: `start_reading_`, `stop`,
-- `stopping_or_stopped_` and the end of `process_job_`, each critical section under `mutex_` being one
-- step. `none` is an abort by `inno_log_verify` or `inno_log_panic_if_not`. The packets that
-- `stopping_or_stopped_` frees, the recorder and `final_cleanup` are left out.
pub mod Safe
mod Tests
use ros2_perception.Prelude.{Bool, true, false, Option, none, some, List, [], ◌∷◌, if◌then◌else◌}

pub data State : Type 0 where
  state_init : State
  state_reading : State
  state_stopping : State
  state_stopped : State

-- `start_flag` is the flag of the input by which its loop ends.
pub record Stage : Type 0 where
  pub state : State
  pub start_flag : Bool

unfoldable pub start_reading : Stage → Option Stage
start_reading s = elim s.state [
  | state_init ↦ some (record { state = state_reading; start_flag = true })
  | _ ↦ none
]

-- The first line of `stop`, which takes no lock.
unfoldable pub stop_input : Stage → Stage
stop_input s = record s { start_flag = false }

-- Whether the section of `stop` still waits for the start of the reader.
abbrev pub waits_for_start : State → Bool
waits_for_start state_init = true
waits_for_start _ = false

-- The section of `stop` once it does not wait.
unfoldable pub request_stop : Stage → Stage
request_stop s = elim s.state [
  | state_reading ↦ record { state = state_stopping; start_flag = false }
  | _ ↦ s
]

unfoldable pub stopping_or_stopped : Stage → Bool × Stage
stopping_or_stopped s = elim s.state [
  | state_stopping ↦ (true, stop_input s)
  | state_stopped ↦ (true, stop_input s)
  | _ ↦ (false, s)
]

-- The end of `process_job_`.
unfoldable pub finish_reading : Stage → Option Stage
finish_reading s = elim s.state [
  | state_reading ↦ some (record { state = state_stopped; start_flag = false })
  | state_stopping ↦ some (record { state = state_stopped; start_flag = false })
  | _ ↦ none
]

-- Where the thread of the reader is.
pub data Reading : Type 0 where
  before : Reading
  during : Reading
  after : Reading

-- The stage with its reader; `is_requested` after the section of `stop`.
pub record Threads : Type 0 where
  pub stage : Stage
  pub reading : Reading
  pub is_requested : Bool

pub data Event : Type 0 where
  starts : Event
  polls : Event
  ends_reading : Event
  stops_input : Event
  requests : Event

abbrev pub new_threads : Threads
new_threads = record {
  stage = record { state = state_init; start_flag = false };
  reading = before;
  is_requested = false;
}

abbrev pub with_stage : Threads → Reading → Option Stage → Option Threads
with_stage y r none = none
with_stage y r (some s) = some (record y { stage = s; reading = r })

-- A step of the reader where its thread is, or of the caller of `stop`; a step that is not there, or
-- that waits, leaves all as it is.
unfoldable pub step : Threads → Event → Option Threads
step y starts = elim y.reading [ before ↦ with_stage y during (start_reading y.stage) | _ ↦ some y ]
step y polls = elim y.reading [
  | during ↦ some (record y { stage = (stopping_or_stopped y.stage).1 })
  | _ ↦ some y
]
step y ends_reading = elim y.reading [
  | during ↦ with_stage y after (finish_reading y.stage)
  | _ ↦ some y
]
step y stops_input = some (record y { stage = stop_input y.stage })
step y requests =
    if waits_for_start y.stage.state
    then some y
    else some (record y { stage = request_stop y.stage; is_requested = true })

unfoldable pub run : Threads → List Event → Option Threads
run y [] = some y
run y (e ∷ es) = elim (step y e) [ none ↦ none | some z ↦ run z es ]
