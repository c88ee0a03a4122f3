-- ===== src/Read/Stage/Safe.antt =====
-- The stage of sdk_client/stage_client_read.cpp on every interleaving of its reader and a caller of
-- `stop`.
use ros2_perception.Read.Stage.{
  State, state_init, state_reading, state_stopping, state_stopped, start_reading, stop_input,
  request_stop, stopping_or_stopped, finish_reading, Reading, before, during, after, Threads, Event,
  starts, polls, ends_reading, stops_input, requests, new_threads, step, run,
}
use ros2_perception.Prelude.{◌≡◌, refl, Bool, true, false, not, ◌&&◌, some, List, [], ◌∷◌, arith}

-- What the state tells of the reader and the flag: a request holds from the section of `stop` on, and
-- then the flag is cleared.
abbrev pub is_consistent : State → Reading → Bool → Bool → Bool
is_consistent state_init before requested flag = not requested && not flag
is_consistent state_reading during requested flag = not requested
is_consistent state_stopping during requested flag = requested && not flag
is_consistent state_stopped after requested flag = not flag
is_consistent _ _ requested flag = false

unfoldable pub IsConsistent : Threads → Type 0
IsConsistent y = is_consistent y.stage.state y.reading y.is_requested y.stage.start_flag ≡ true

abbrev threads : State → Reading → Bool → Bool → Threads
threads s r q f = record {
  stage = record { state = s; start_flag = f };
  reading = r;
  is_requested = q;
}

step-cases :
    (s : State) (r : Reading) (q f : Bool) (e : Event)
    → is_consistent s r q f ≡ true
    → (z : Threads) × (step (threads s r q f) e ≡ some z)
      × (is_consistent z.stage.state z.reading z.is_requested z.stage.start_flag ≡ true)
unfolding step start_reading stop_input request_stop stopping_or_stopped finish_reading
step-cases state_init before q f starts h = (_, refl, ground arith)
step-cases state_init before q f polls h = (_, refl, ground arith)
step-cases state_init before q f ends_reading h = (_, refl, ground arith)
step-cases state_init before q f stops_input h = (_, refl, ground arith)
step-cases state_init before q f requests h = (_, refl, ground arith)
step-cases state_reading during q f starts h = (_, refl, ground arith)
step-cases state_reading during q f polls h = (_, refl, ground arith)
step-cases state_reading during q f ends_reading h = (_, refl, ground arith)
step-cases state_reading during q f stops_input h = (_, refl, ground arith)
step-cases state_reading during q f requests h = (_, refl, ground arith)
step-cases state_stopping during q f starts h = (_, refl, ground arith)
step-cases state_stopping during q f polls h = (_, refl, ground arith)
step-cases state_stopping during q f ends_reading h = (_, refl, ground arith)
step-cases state_stopping during q f stops_input h = (_, refl, ground arith)
step-cases state_stopping during q f requests h = (_, refl, ground arith)
step-cases state_stopped after q f starts h = (_, refl, ground arith)
step-cases state_stopped after q f polls h = (_, refl, ground arith)
step-cases state_stopped after q f ends_reading h = (_, refl, ground arith)
step-cases state_stopped after q f stops_input h = (_, refl, ground arith)
step-cases state_stopped after q f requests h = (_, refl, ground arith)
step-cases _ _ q f e h = cc

run-IsConsistent :
    (es : List Event) (y : Threads)
    → IsConsistent y
    → (z : Threads) × (run y es ≡ some z) × IsConsistent z
unfolding run IsConsistent
run-IsConsistent [] y h = (y, refl, h)
run-IsConsistent (e ∷ es) y h =
    let (z, eq, k) = step-cases y.stage.state y.reading y.is_requested y.stage.start_flag e h in
    let (w, eq', k') = run-IsConsistent es z k in (w, rw (eq, run) eq', k')

requested_cleared :
    (s : State) (r : Reading) (q f : Bool) → is_consistent s r q f ≡ true → (q && f) ≡ false
requested_cleared state_init before q f h = ground arith
requested_cleared state_reading during q f h = ground arith
requested_cleared state_stopping during q f h = ground arith
requested_cleared state_stopped after q f h = ground arith
requested_cleared _ _ q f h = cc

requested_stops :
    (s : State) (r : Reading) (q f : Bool)
    → is_consistent s r q f ≡ true
    → (q && not (stopping_or_stopped (record { state = s; start_flag = f })).0) ≡ false
unfolding stopping_or_stopped
requested_stops state_init before q f h = ground arith
requested_stops state_reading during q f h = ground arith
requested_stops state_stopping during q f h = ground arith
requested_stops state_stopped after q f h = ground arith
requested_stops _ _ q f h = cc

-- On every interleaving of the reader and a caller of `stop` no section aborts; and once the section
-- of `stop` is over, the flag by which the loop of the reader ends is cleared, and the reader is
-- stopping or stopped.
pub run_lem :
    (es : List Event)
    → (z : Threads) × (run new_threads es ≡ some z)
      × ((z.is_requested && z.stage.start_flag) ≡ false)
      × ((z.is_requested && not (stopping_or_stopped z.stage).0) ≡ false)
unfolding IsConsistent stopping_or_stopped
run_lem es =
    let (z, eq, h) = run-IsConsistent es new_threads refl in
    (
      z,
      eq,
      requested_cleared z.stage.state z.reading z.is_requested z.stage.start_flag h,
      requested_stops z.stage.state z.reading z.is_requested z.stage.start_flag h,
    )
