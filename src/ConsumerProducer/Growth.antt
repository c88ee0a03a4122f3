-- ===== src/ConsumerProducer/Growth.antt =====
-- The finished job ids of utils/consumer_producer.cpp never go back.
use ros2_perception.Prelude.{
  ℕ, ◌+◌, ◌<◌, ◌≤◌, ◌≡◌, ◌≢◌, List, [], ◌∷◌, ◌⊎◌, inl, inr, true, false, Option, none, some, arith,
  length, if_elim, ltb, Bool-cases, dec_lt,
}
use ros2_perception.ConsumerProducer.{
  Priority, lane, AddCall, Round, wait_done, pause, resume, shut_down, complete,
}
use ros2_perception.ConsumerProducer.Rounds.{
  RoundOf, waits, drops_self, drops_head, enqueues, add_round-RoundOf, takes_high, takes_low,
  finds_nothing, get_job-GotOf,
}
use ros2_perception.ConsumerProducer.Machine.{
  Sys, Event, adds, takes, completes, pauses, resumes, shuts_down, after_get, after_add, step,
  take_job, complete_job,
}
use ros2_perception.ConsumerProducer.Accounting.{Inv, Ensures, lane-IsValid}
use ros2_perception.ConsumerProducer.Waiting.{OrderInv, CountsUp, open_ids}

abbrev pub All {ℓ κ} : {A : Type ℓ} → (A → Type κ) → List A → Type κ
All P [] = Unit
All P (x ∷ xs) = P x × All P xs

abbrev pub Any : (ℕ → Type 0) → List ℕ → Type 0
Any P [] = ⊥
Any P (x ∷ xs) = P x ⊎ Any P xs

CountsUp-above : (m : ℕ) (is : List ℕ) (n id : ℕ) → CountsUp m is n → id ≤ m → All (λ i. i ≢ id) is
CountsUp-above m [] n id h k = tt
CountsUp-above m (i ∷ is) n id h k =
    ((λ e. absurd (omega (arith, h))), CountsUp-above i is n id h.1 (omega (arith, h)))

CountsUp-Any :
    (m : ℕ) (is : List ℕ) (n id : ℕ) → CountsUp m is n → m < id → id ≤ n → Any (λ i. i ≡ id) is
CountsUp-Any m [] n id h k l = absurd (omega arith)
CountsUp-Any m (i ∷ is) n id h k l = elim (dec_lt i id) [
  | yes more ↦ inr (CountsUp-Any i is n id h.1 more l)
  | no here ↦ inl (omega (arith, h))
]

pub wait_done-cases :
    (p : Priority) (y : Sys) (id : ℕ)
    → OrderInv p y
    → id ≤ (lane y.cp p).job_id
    → ((wait_done y.cp p id ≡ false) × All (λ i. i ≢ id) (open_ids p y))
      ⊎ ((wait_done y.cp p id ≡ true) × Any (λ i. i ≡ id) (open_ids p y))
unfolding wait_done
wait_done-cases p y id v k = elim (Bool-cases (ltb (lane y.cp p).finished_job_id id)) [
  | inr e ↦ inl (e, CountsUp-above _ (open_ids p y) _ id v.order.1 (ground arith))
  | inl e ↦ inr (e, CountsUp-Any _ (open_ids p y) _ id v.order.1 (ground arith) k)
]

abbrev pub Grows : Priority → Sys → Sys → Type 0
Grows p y z = (lane z.cp p).job_id ≤ (lane y.cp p).job_id + 1

round-Grows :
    (p q : Priority) (c : AddCall) (y : Sys) {r : Round}
    → RoundOf y.cp q c (some r)
    → Grows p y (after_add y r)
round-Grows p q c y (waits r e _ _) = rw e (omega arith)
round-Grows p q c y (drops_self r e _ _) = rw e (ground arith)
round-Grows p q c y (drops_head r j s _ _ e _ _) = rw e (ground arith)
round-Grows p q c y (enqueues r s _ e _ _ _) = rw e (ground arith)

take_job-Grows :
    (p : Priority) (y : Sys) (now : ℕ) → Inv y → Ensures (Grows p y) Unit (take_job y now)
unfolding take_job
take_job-Grows p y now w =
    if_elim (Ensures (Grows p y) Unit) (ltb (length y.held) y.live)
      (λ _. elim (get_job-GotOf y.cp w.low_inv.valid w.high_inv.valid) [
        | takes_high j q m e ↦ rw (e, Ensures) (ground arith)
        | takes_low j q _ m e ↦ rw (e, Ensures) (ground arith)
        | finds_nothing _ _ e ↦
            rw (e, Ensures)
              (if_elim (λ g. Grows p y (after_get y now g y.cp)) y.cp.shutdown (λ _. omega arith)
                (λ _. omega arith))
      ])
      (λ _. omega arith)

complete_job-Grows : (p : Priority) (y : Sys) (i now : ℕ) → Grows p y (complete_job y i now)
unfolding complete_job complete
complete_job-Grows p y i now = ground arith

add-Grows :
    (p q : Priority) (c : AddCall) (y : Sys) (o : Option Round)
    → RoundOf y.cp q c o
    → Ensures (Grows p y) Unit (elim o [ none ↦ none | some r ↦ some (after_add y r) ])
add-Grows p q c y none d = tt
add-Grows p q c y (some r) d = round-Grows p q c y d

pub step-Grows : (p : Priority) (y : Sys) (e : Event) → Inv y → Ensures (Grows p y) Unit (step y e)
unfolding step pause resume shut_down
step-Grows p y (adds q c) w = add-Grows p q c y _ (add_round-RoundOf y.cp q c (lane-IsValid y q w))
step-Grows p y (takes now) w = take_job-Grows p y now w
step-Grows p y (completes i now) w = complete_job-Grows p y i now
step-Grows p y pauses w = ground arith
step-Grows p y resumes w = ground arith
step-Grows p y shuts_down w = ground arith
