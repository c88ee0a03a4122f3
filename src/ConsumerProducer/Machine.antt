-- ===== src/ConsumerProducer/Machine.antt =====
-- The threads of a `ConsumerProducer` as interleavings of their critical sections: producers in
-- `add_job_do_`, workers in `consumer_thread_func_`, and the calls of the owner. A producer may be
-- anywhere in its loop, so an event carries the locals of its call.
use ros2_perception.Prelude.{
  ℕ, zero, suc, ◌-◌, List, [], ◌∷◌, ◌++◌, Bool, false, Option, none, some, ltb, if◌then◌else◌,
  length, get_elem?, map,
}
use ros2_perception.ConsumerProducer.{
  ConsumerProducer, Priority, Held, AddCall, Round, Got, taken, nothing, leave, add_round, get_job,
  complete, is_prefered, pause, resume, shut_down, start,
}

-- `live` workers run, those in `held` have a job in hand, and `consumed` lists the calls of
-- `consume_func_` that have returned, newest first, each with its argument `is_prefered`.
pub record Sys : Type 0 where
  pub cp : ConsumerProducer
  pub live : ℕ
  pub held : List Held
  pub consumed : List (ℕ × Bool)

pub data Event : Type 0 where
  adds : Priority → AddCall → Event
  takes : ℕ → Event
  completes : ℕ → ℕ → Event
  pauses resumes shuts_down : Event

abbrev pub remove_at {ℓ} : {A : Type ℓ} → List A → ℕ → List A
remove_at [] i = []
remove_at (x ∷ xs) zero = xs
remove_at (x ∷ xs) (suc i) = x ∷ remove_at xs i

-- `start` makes `worker_num_` threads.
unfoldable pub start_all : ConsumerProducer → Sys
start_all s = record { cp = start s; live = s.worker_num; held = []; consumed = [] }

abbrev pub after_add : Sys → Round → Sys
after_add y r = record y { cp = r.state; consumed = map (λ j. (j, false)) r.consumed ++ y.consumed }

abbrev pub after_get : Sys → ℕ → Got → ConsumerProducer → Sys
after_get y now (taken p r j) s = record y {
  cp = s;
  held = record { priority = p; ret = r; job = j; timestamp_popped = now } ∷ y.held;
}
after_get y now nothing s = record y { cp = s }
after_get y now leave s = record y { cp = s; live = y.live - 1 }

-- A worker that has no job in hand looks for one. If none is free, nothing happens.
unfoldable pub take_job : Sys → ℕ → Option Sys
take_job y now =
    if ltb (length y.held) y.live
    then elim (get_job y.cp) [ none ↦ none | some (g, s) ↦ some (after_get y now g s) ]
    else some y

-- The `i`th of the workers with a job calls `consume_func_` and accounts for it.
unfoldable pub complete_job : Sys → ℕ → ℕ → Sys
complete_job y i now = elim (get_elem? y.held i) [
  | none ↦ y
  | some h ↦ record y {
    cp = complete y.cp h now;
    held = remove_at y.held i;
    consumed = (h.job.job, is_prefered y.cp h) ∷ y.consumed;
  }
]

abbrev pub with_cp : Sys → Option ConsumerProducer → Option Sys
with_cp y none = none
with_cp y (some s) = some (record y { cp = s })

unfoldable pub step : Sys → Event → Option Sys
step y (adds p c) = elim (add_round y.cp p c) [ none ↦ none | some r ↦ some (after_add y r) ]
step y (takes now) = take_job y now
step y (completes i now) = some (complete_job y i now)
step y pauses = with_cp y (pause y.cp)
step y resumes = with_cp y (resume y.cp)
step y shuts_down = with_cp y (shut_down y.cp)

-- `none` where some event aborts.
unfoldable pub run : Sys → List Event → Option Sys
run y [] = some y
run y (e ∷ es) = elim (step y e) [ none ↦ none | some z ↦ run z es ]
