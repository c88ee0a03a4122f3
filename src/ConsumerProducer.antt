-- ===== src/ConsumerProducer.antt =====
-- `ConsumerProducer` of utils/consumer_producer.h and utils/consumer_producer.cpp (under
-- src/drivers/seyond_lidar/src/inno_sdk/src): two rings of jobs, one for each priority, that any
-- number of producers fill and a pool of worker threads empties.
-- Each critical section (what a thread does while it holds `mutex_`) is one function of the state.
-- `none` is an abort by `inno_log_verify`. `Machine` interleaves the sections.
mod Lanes
pub mod Rounds
pub mod Machine
pub mod Accounting
pub mod History
pub mod Flush
pub mod Waiting
pub mod Ordering
pub mod Growth
pub mod WaitDone
mod Tests
unfoldable pub use Lanes.*
use ros2_perception.Prelude.{
  add64, sub64, ℕ, suc, zero, ◌+◌, ◌-◌, ◌%◌, ◌^◌, List, [], ◌∷◌, Bool, true, false, not, ◌&&◌, ◌||◌,
  Option, none, some, ◌==◌, ltb, leb, if◌then◌else◌, ℤ, pos, negsuc,
}
use ros2_perception.JobQueue.{Job, no_job, CpQueue, verify, Popped, new_queue}
use ros2_perception.JobQueue

-- The locals of a call of `add_job_do_`: its arguments but the priority, the time it began, and
-- `ret` so far.
pub record AddCall : Type 0 where
  pub job : ℕ
  pub not_discardable : Bool
  pub timestamp_in : ℕ
  pub ret : ℕ

-- What one round of the loop of `add_job_do_` leaves: the state, the locals, whether the loop is
-- done, the id assigned (0 for none), and the jobs that it hands to `consume_func_` unpreferred.
pub record Round : Type 0 where
  pub state : ConsumerProducer
  pub call : AddCall
  pub done : Bool
  pub job_id : ℕ
  pub consumed : List ℕ

abbrev again : ConsumerProducer → AddCall → Round
again s c = record { state = s; call = c; done = false; job_id = 0; consumed = [] }

-- `if (ret == 1) blocked_job_[idx] += ret;`, after the loop.
abbrev pub count_blocked : AddCall → Lane → Lane
count_blocked c l = if c.ret == 1 then record l { blocked = add64 l.blocked c.ret } else l

-- The queue is full with a job that may not be discarded: the new job is dropped instead.
unfoldable pub discard_self : ConsumerProducer → Priority → AddCall → Option Round
discard_self s p c =
    let l = lane s p in
    some (record {
      state = set_lane s p (record l { added = add64 l.added 1; dropped = add64 l.dropped 1 });
      call = record c { ret = 2 };
      done = true;
      job_id = 0;
      consumed = c.job ∷ [];
    })

abbrev pub popped_job : Popped → Job
popped_job p = elim p.job [ none ↦ no_job | some j ↦ j ]

-- The head of the full queue is dropped, and the loop goes round.
unfoldable pub discard_head : ConsumerProducer → Priority → AddCall → Option Round
discard_head s p c = elim (JobQueue.pop (lane s p).queue false) [
  | none ↦ none
  | some r ↦
      let l = lane s p in
      verify s.allow_log (not (r.ret == 0)) (
        some (record {
          state = set_lane s p (record l {
            queue = r.queue;
            dropped = add64 l.dropped 1;
            finished_job_id = (popped_job r).job_id;
          });
          call = record c { ret = 3 };
          done = false;
          job_id = 0;
          consumed = (popped_job r).job ∷ [];
        }))
]

unfoldable pub discard : ConsumerProducer → Priority → AddCall → Option Round
discard s p c = elim (JobQueue.peek (lane s p).queue) [
  | none ↦ none
  | some r ↦ if (popped_job r).not_discardable then discard_self s p c else discard_head s p c
]

-- `max_queue_len_` follows the low queue, whichever queue the job went to.
abbrev pub note_length : ConsumerProducer → ConsumerProducer
note_length s = record s {
  max_queue_len =
      if ltb s.max_queue_len s.low_lane.queue.count
      then s.low_lane.queue.count
      else s.max_queue_len;
}

unfoldable pub enqueue : ConsumerProducer → Priority → AddCall → Option Round
enqueue s p c =
    let l = lane s p in
    let id = add64 l.job_id 1 in
    elim (JobQueue.add l.queue (record {
      job = c.job;
      timestamp = c.timestamp_in;
      job_id = id;
      not_discardable = c.not_discardable;
    })) [
      | none ↦ none
      | some q ↦ some (record {
        state = note_length (
            set_lane s p
              (count_blocked c (record l { queue = q; added = add64 l.added 1; job_id = id })));
        call = c;
        done = true;
        job_id = id;
        consumed = [];
      })
    ]

-- `blocking`: the high queue always blocks.
abbrev pub blocks : ConsumerProducer → Priority → AddCall → Bool
blocks s p c = elim p [ high ↦ true | low ↦ s.blocking || c.not_discardable ]

-- One round of the loop of `add_job_do_`, from taking `mutex_` to leaving it.
unfoldable pub add_round : ConsumerProducer → Priority → AddCall → Option Round
add_round s p c =
    if s.paused
    then some (again s c)
    else verify s.allow_log (not s.shutdown) (
        if (lane s p).queue.full
        then (if blocks s p c then some (again s (record c { ret = 1 })) else discard s p c)
        else enqueue s p c)

-- What a worker finds when it has `mutex_` in `get_job_`.
pub data Got : Type 0 where
  taken : Priority → ℕ → Job → Got
  nothing : Got
  leave : Got

-- Whether the worker sleeps on `not_empty_` before it looks.
unfoldable pub sleeps : ConsumerProducer → Bool
sleeps s = s.low_lane.queue.empty && s.high_lane.queue.empty && not s.shutdown

abbrev take_from : ConsumerProducer → Priority → Popped → Got × ConsumerProducer
take_from s p r =
    (taken p r.ret (popped_job r), set_lane s p (record (lane s p) { queue = r.queue }))

abbrev empty_handed : ConsumerProducer → Popped → Popped → Got × ConsumerProducer
empty_handed s h l = (
  if s.shutdown then leave else nothing,
  record s {
    high_lane = record s.high_lane { queue = h.queue };
    low_lane = record s.low_lane { queue = l.queue };
  },
)

-- `get_job_` from the point where the worker is awake: the high queue first. A worker may be woken
-- when both queues are empty: it then goes round, or leaves if the threads are being shut down.
unfoldable pub get_job : ConsumerProducer → Option (Got × ConsumerProducer)
get_job s = elim (JobQueue.pop s.high_lane.queue false) [
  | none ↦ none
  | some h ↦
      if h.ret == 0
      then elim (JobQueue.pop s.low_lane.queue false) [
        | none ↦ none
        | some l ↦ some (if l.ret == 0 then empty_handed s h l else take_from s low l)
      ]
      else some (take_from s high h)
]

-- A job that a worker has taken and not yet accounted for.
pub record Held : Type 0 where
  pub priority : Priority
  pub ret : ℕ
  pub job : Job
  pub timestamp_popped : ℕ

abbrev pub is_prefered : ConsumerProducer → Held → Bool
is_prefered s h = elim h.priority [ high ↦ true | low ↦ leb h.ret s.prefer_queue_size ]

abbrev complete_lane : Lane → Held → Bool → ℕ → Lane
complete_lane l h prefered timestamp_done =
    let waited = add64 l.wait_time (sub64 h.timestamp_popped h.job.timestamp) in
    let worked = sub64 timestamp_done h.timestamp_popped in
    if prefered
    then record l {
      wait_time = waited;
      process_time = add64 l.process_time worked;
      finished = add64 l.finished 1;
      finished_job_id = h.job.job_id;
    }
    else record l {
      wait_time = waited;
      drop_time = add64 l.drop_time worked;
      dropped = add64 l.dropped 1;
      finished_job_id = h.job.job_id;
    }

-- The second critical section of a worker, after `consume_func_` has returned.
unfoldable pub complete : ConsumerProducer → Held → ℕ → ConsumerProducer
complete s h timestamp_done =
    set_lane s h.priority (complete_lane (lane s h.priority) h (is_prefered s h) timestamp_done)

-- `added_job_total_`, `finished_job_total_` and `dropped_job_total_`
unfoldable pub added_job_total : ConsumerProducer → ℕ
added_job_total s = add64 s.low_lane.added s.high_lane.added

unfoldable pub finished_job_total : ConsumerProducer → ℕ
finished_job_total s = add64 s.low_lane.finished s.high_lane.finished

unfoldable pub dropped_job_total : ConsumerProducer → ℕ
dropped_job_total s = add64 s.low_lane.dropped s.high_lane.dropped

-- The loop test of `flush_and_pause`: `some true` if the loop ends, `some false` if it waits, and
-- `none` if the check in its body aborts.
unfoldable pub flushed : ConsumerProducer → Option Bool
unfolding added_job_total finished_job_total dropped_job_total
flushed s =
    let gone = add64 (finished_job_total s) (dropped_job_total s) in
    if added_job_total s == gone
    then some true
    else verify s.allow_log (ltb gone (added_job_total s)) (some false)

-- `flush_and_pause` up to its loop, `resume`, and the locked part of `shutdown`.
unfoldable pub pause : ConsumerProducer → Option ConsumerProducer
pause s = verify s.allow_log (not s.paused) (some (record s { paused = true }))

unfoldable pub resume : ConsumerProducer → Option ConsumerProducer
resume s = verify s.allow_log s.paused (some (record s { paused = false }))

unfoldable pub shut_down : ConsumerProducer → Option ConsumerProducer
shut_down s = verify s.allow_log (not s.shutdown) (some (record s { shutdown = true }))

-- The loop test of `add_job_wait_done`: the caller waits while its id is above the last one done.
unfoldable pub wait_done : ConsumerProducer → Priority → ℕ → Bool
wait_done s p job_id = ltb (lane s p).finished_job_id job_id
