-- ===== src/JobQueue/Refine.antt =====
-- The ring of jobs against the list of the jobs that wait, oldest first.
use ros2_perception.Prelude.{
  ℕ, suc, ◌+◌, ◌-◌, ◌<◌, ◌≤◌, ◌≡◌, refl, sym, ap, ◌∙◌, ◌⊎◌, inl, inr, List, [], ◌∷◌, ◌++◌, Bool,
  false, some, none, arith, ◌==◌, get_or, set, length, length-set, get_or-set_self, get_or-set_ne,
  length-replicate, dec_lt,
}
use ros2_perception.Ring.{
  next, wrap, window, length-window, next-lt, next-wrap, wrap-lt, wrap-next, window-write,
  window_of_pos,
}
use ros2_perception.JobQueue.{CpQueue, Job, no_job, new_queue, add, remove_head, pop, peek}

-- The indices lie in the storage, and the two flags say what `count_` says.
pub record IsValid (q : CpQueue) : Type 0 where
  pub storage : length q.jobs ≡ q.queue_size
  pub head_in : q.head < q.queue_size
  pub count_in : q.count ≤ q.queue_size
  pub tail_at : q.tail ≡ wrap q.queue_size (q.head + q.count)
  pub full_at : q.full ≡ (q.count == q.queue_size)
  pub empty_at : q.empty ≡ (q.count == 0)

abbrev pub slot : CpQueue → ℕ → Job
slot q i = get_or q.jobs i no_job

-- The jobs that wait, oldest first.
unfoldable pub waiting : CpQueue → List Job
waiting q = window (slot q) q.queue_size q.head q.count

pub length-waiting : (q : CpQueue) → length (waiting q) ≡ q.count
unfolding waiting
length-waiting q = length-window (slot q) q.queue_size q.head q.count

pub new_queue-IsValid : (n : ℕ) (log : Bool) → 0 < n → IsValid (new_queue n log)
unfolding new_queue
new_queue-IsValid n log h = ground (arith, length-replicate n no_job)

pub waiting-new_queue : (n : ℕ) (log : Bool) → waiting (new_queue n log) ≡ []
unfolding waiting new_queue
waiting-new_queue n log = refl

pub count-new_queue : (n : ℕ) (log : Bool) → (new_queue n log).count ≡ 0
unfolding new_queue
count-new_queue n log = refl

-- What `add` leaves, where it does not abort.
pub record Added (q : CpQueue) (job : Job) (r : CpQueue) : Type 0 where
  pub valid : IsValid r
  pub items : waiting r ≡ waiting q ++ (job ∷ [])
  pub size : r.queue_size ≡ q.queue_size
  pub counted : r.count ≡ q.count + 1

written : CpQueue → Job → CpQueue
written q job = record q {
  jobs = set q.jobs q.tail job;
  tail = next q.queue_size q.tail;
  full = q.count + 1 == q.queue_size;
  empty = false;
  count = q.count + 1;
}

waiting-written :
    (q : CpQueue) (job : Job)
    → IsValid q
    → q.count < q.queue_size
    → waiting (written q job) ≡ waiting q ++ (job ∷ [])
unfolding waiting written
waiting-written q job v h =
    ap (window (slot (written q job)) q.queue_size q.head) {y = suc q.count} (omega arith)
    ∙ window-write (slot q) _ job q.queue_size q.head q.count v.head_in h
        (rw (← v.tail_at) (
          get_or-set_self q.jobs q.tail job no_job
            (omega (arith, v, wrap-lt q.queue_size q.head q.count))))
        (λ j ne. get_or-set_ne q.jobs q.tail j job no_job (λ e. ne (sym v.tail_at ∙ e)))

written-IsValid :
    (q : CpQueue) (job : Job) → IsValid q → q.count < q.queue_size → IsValid (written q job)
unfolding written
written-IsValid q job v h =
    ground (arith, length-set q.jobs q.tail job, next-wrap q.queue_size q.head q.count)

add-eq-written :
    (q : CpQueue) (job : Job)
    → IsValid q
    → q.count < q.queue_size
    → add q job ≡ some (written q job)
unfolding add written
add-eq-written q job v h = ground (arith, next-wrap q.queue_size q.head q.count)

-- On a valid queue that is not full `add` does not abort: it appends the job.
pub add_lem :
    (q : CpQueue) (job : Job)
    → IsValid q
    → q.full ≡ false
    → (r : CpQueue) × (add q job ≡ some r) × Added q job r
add_lem q job v open_slot =
    let room : q.count < q.queue_size = ground arith in
    (
      written q job,
      add-eq-written q job v room,
      record {
        valid = written-IsValid q job v room;
        items = waiting-written q job v room;
        size = unfold written in refl;
        counted = unfold written in refl;
      },
    )

-- What a `pop` or `peek` of a queue with jobs gives.
pub record Removed (q : CpQueue) (job : Job) (r : CpQueue) : Type 0 where
  pub valid : IsValid r
  pub items : waiting q ≡ job ∷ waiting r
  pub size : r.queue_size ≡ q.queue_size
  pub counted : r.count + 1 ≡ q.count
  pub popped : pop q false ≡ some (record { ret = q.count; job = some job; queue = r })
  pub peeked : peek q ≡ some (record { ret = q.count; job = some job; queue = q })
  pub open_slot : r.full ≡ false

shortened : CpQueue → CpQueue
shortened q = record q {
  head = next q.queue_size q.head;
  count = q.count - 1;
  empty = q.count - 1 == 0;
  full = false;
}

shortened-IsValid : (q : CpQueue) → IsValid q → 0 < q.count → IsValid (shortened q)
unfolding shortened
shortened-IsValid q v h =
    ground (arith, next-lt q.queue_size q.head, wrap-next q.queue_size q.head (q.count - 1))

remove_head-eq-shortened :
    (q : CpQueue) → IsValid q → 0 < q.count → remove_head q ≡ some (shortened q)
unfolding remove_head shortened
remove_head-eq-shortened q v h =
    ground (arith, next-lt q.queue_size q.head, wrap-next q.queue_size q.head (q.count - 1))

pop-eq-shortened :
    (q : CpQueue)
    → IsValid q
    → 0 < q.count
    → pop q false ≡ some (record { ret = q.count; job = some (slot q q.head); queue = shortened q })
unfolding pop
pop-eq-shortened q v h = ground (arith, remove_head-eq-shortened q v h)

Removed-shortened :
    (q : CpQueue) → IsValid q → 0 < q.count → Removed q (slot q q.head) (shortened q)
Removed-shortened q v h =
    let filled : q.empty ≡ false = ground arith in
    record {
      valid = shortened-IsValid q v h;
      items = unfold waiting shortened in window_of_pos (slot q) q.queue_size q.head q.count h;
      size = unfold shortened in refl;
      counted = unfold shortened in omega arith;
      popped = pop-eq-shortened q v h;
      peeked = unfold pop peek in ground arith;
      open_slot = unfold shortened in refl;
    }

-- `pop` of a valid queue does not abort: it stores nothing and returns 0 on the empty queue, and
-- otherwise splits off the oldest job and returns how many jobs there were.
pub pop_lem :
    (q : CpQueue)
    → IsValid q
    → ((waiting q ≡ [])
        × (q.count ≡ 0)
        × (pop q false ≡ some (record { ret = 0; job = none; queue = q })))
      ⊎ ((job : Job) × (r : CpQueue) × Removed q job r)
pop_lem q v = elim (dec_lt 0 q.count) [
  | yes h ↦ inr (slot q q.head, shortened q, Removed-shortened q v h)
  | no h ↦
      let none_left : q.count ≡ 0 = omega arith in
      inl (
        unfold waiting in ap (window (slot q) q.queue_size q.head) none_left,
        none_left,
        unfold pop in ground arith,
      )
]
