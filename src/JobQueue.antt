-- ===== src/JobQueue.antt =====
-- `ConsumerProducer::Job` and `ConsumerProducer::CpQueue`, the ring of jobs of
-- utils/consumer_producer.h and utils/consumer_producer.cpp (under
-- src/drivers/seyond_lidar/src/inno_sdk/src). `none` is an abort by `inno_log_verify`, which the
-- queue makes only where `allow_log_` is set. `Refine` has the invariant and the queue it stands for.
pub mod Refine
mod Tests
use ros2_perception.Prelude.{
  ℕ, ◌+◌, ◌-◌, List, Bool, true, false, not, ◌||◌, Option, none, some, ◌==◌, ltb, leb,
  if◌then◌else◌, get_or, set, replicate,
}
use ros2_perception.Ring.{next}

-- Jobs are pointers that the queue only moves: a number names one, and 0 is `NULL`.
pub record Job : Type 0 where
  pub job : ℕ
  pub timestamp : ℕ
  pub job_id : ℕ
  pub not_discardable : Bool

-- `Job()`
abbrev pub no_job : Job
no_job = record { job = 0; timestamp = 0; job_id = 0; not_discardable = false }

pub record CpQueue : Type 0 where
  pub jobs : List Job
  pub queue_size : ℕ
  pub head : ℕ
  pub tail : ℕ
  pub count : ℕ
  pub full : Bool
  pub empty : Bool
  pub allow_log : Bool

-- `if (do_log_()) inno_log_verify(holds, …)`, before what follows it.
abbrev pub verify {ℓ} : {A : Type ℓ} → Bool → Bool → Option A → Option A
verify logs holds rest = if not logs || holds then rest else none

unfoldable pub new_queue : ℕ → Bool → CpQueue
new_queue queue_size allow_log = record {
  jobs = replicate queue_size no_job;
  queue_size = queue_size;
  head = 0;
  tail = 0;
  count = 0;
  full = false;
  empty = true;
  allow_log = allow_log;
}

unfoldable pub add : CpQueue → Job → Option CpQueue
add q job =
    let tail = next q.queue_size q.tail in
    verify q.allow_log (leb (q.count + 1) q.queue_size) (
      some (record q {
        jobs = set q.jobs q.tail job;
        tail = tail;
        full = if tail == q.head then true else q.full;
        empty = false;
        count = q.count + 1;
      }))

-- What `pop` returns, the job that it stores through `job` (`none` where it stores nothing), and
-- the queue after it.
pub record Popped : Type 0 where
  pub ret : ℕ
  pub job : Option Job
  pub queue : CpQueue

-- The part of `pop` behind the `peek_only` return.
unfoldable pub remove_head : CpQueue → Option CpQueue
remove_head q =
    let head = next q.queue_size q.head in
    if head == q.tail
    then verify q.allow_log (q.count - 1 == 0)
        (some (record q { head = head; count = q.count - 1; empty = true; full = false }))
    else some (record q { head = head; count = q.count - 1; full = false })

unfoldable pub pop : CpQueue → Bool → Option Popped
unfolding remove_head
pop q peek_only =
    if q.empty
    then verify q.allow_log (q.count == 0) (some (record { ret = 0; job = none; queue = q }))
    else verify q.allow_log (ltb 0 q.count) taken
  where
    front : Option Job
    front = some (get_or q.jobs q.head no_job)

    taken : Option Popped
    taken =
        if peek_only
        then some (record { ret = q.count; job = front; queue = q })
        else elim (remove_head q) [
          | none ↦ none
          | some r ↦ some (record { ret = q.count; job = front; queue = r })
        ]

unfoldable pub peek : CpQueue → Option Popped
peek q = pop q true
