-- ===== src/ConsumerProducer/Lanes.antt =====
-- The state of `ConsumerProducer` of utils/consumer_producer.h, its constructor and `start` of
-- utils/consumer_producer.cpp.
use ros2_perception.Prelude.{ℕ, suc, Bool, true, false, ℤ, pos}
use ros2_perception.JobQueue.{CpQueue, new_queue}

-- `enum Priority`
pub data Priority : Type 0 where
  low high : Priority

-- A queue with the entries of the arrays `…_[PRIORITY_MAX]` for its priority.
pub record Lane : Type 0 where
  pub queue : CpQueue
  pub wait_time : ℕ
  pub process_time : ℕ
  pub drop_time : ℕ
  pub added : ℕ
  pub finished : ℕ
  pub blocked : ℕ
  pub dropped : ℕ
  pub job_id : ℕ
  pub finished_job_id : ℕ

pub record ConsumerProducer : Type 0 where
  pub low_lane : Lane
  pub high_lane : Lane
  pub blocking : Bool
  pub paused : Bool
  pub shutdown : Bool
  pub prefer_queue_size : ℕ
  pub worker_num : ℕ
  pub max_queue_len : ℕ
  pub allow_log : Bool

abbrev pub lane : ConsumerProducer → Priority → Lane
lane s low = s.low_lane
lane s high = s.high_lane

abbrev pub set_lane : ConsumerProducer → Priority → Lane → ConsumerProducer
set_lane s low l = record s { low_lane = l }
set_lane s high l = record s { high_lane = l }

abbrev pub new_lane : ℕ → Bool → Lane
new_lane size allow_log = record {
  queue = new_queue size allow_log;
  wait_time = 0;
  process_time = 0;
  drop_time = 0;
  added = 0;
  finished = 0;
  blocked = 0;
  dropped = 0;
  job_id = 0;
  finished_job_id = 0;
}

-- The preferred queue length, and whether a full low queue blocks its producers.
abbrev pub prefer_or_block : ℤ → ℕ → ℕ × Bool
prefer_or_block (pos (suc n)) queue_size = (suc n, false)
prefer_or_block _ queue_size = (queue_size, true)

unfoldable pub new_consumer_producer : ℕ → ℕ → ℤ → ℕ → Bool → ConsumerProducer
new_consumer_producer worker_num queue_size prefer hi_cp_queue_size allow_log =
    let (prefer_queue_size, blocking) = prefer_or_block prefer queue_size in
    record {
      low_lane = new_lane queue_size allow_log;
      high_lane = new_lane hi_cp_queue_size allow_log;
      blocking = blocking;
      paused = false;
      shutdown = true;
      prefer_queue_size = prefer_queue_size;
      worker_num = worker_num;
      max_queue_len = 0;
      allow_log = allow_log;
    }

-- `started_` is not kept: only log messages read it. The threads are `Machine`'s.
unfoldable pub start : ConsumerProducer → ConsumerProducer
start s = record s { shutdown = false }
