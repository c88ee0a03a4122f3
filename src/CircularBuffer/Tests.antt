-- ===== src/CircularBuffer/Tests.antt =====
-- Runs of the buffer, and the theorems of `Refine` at concrete buffers.
use ros2_perception.Prelude.{ℕ, ◌≡◌, refl, ◌∷◌, [], false, arith}
use ros2_perception.CircularBuffer.{CircularBuffer, enqueue, dequeue}
use ros2_perception.CircularBuffer.Refine.{
  IsValid, contents, push_back, pop_front, enqueue_refines, dequeue_refines,
}

-- 8, then 9, round the end of three slots.
abbrev wrapped : CircularBuffer ℕ
wrapped = record { buffer = 9 ∷ 7 ∷ 8 ∷ []; cap = 3; head = 2; tail = 1; count = 2 }

wrapped-IsValid : IsValid wrapped
wrapped-IsValid = omega arith

enqueue_refines_example :
    let (done, b) = enqueue wrapped 5 in
    ((done, contents 0 b) ≡ push_back 3 (8 ∷ 9 ∷ []) 5) × IsValid b
enqueue_refines_example = enqueue_refines 0 5 wrapped-IsValid

dequeue_refines_example :
    let (done, x, b) = dequeue wrapped 0 in (done, x, contents 0 b) ≡ pop_front 0 (8 ∷ 9 ∷ [])
dequeue_refines_example = dequeue_refines 0 wrapped-IsValid

full_refuses : (enqueue (enqueue wrapped 5).1 6).0 ≡ false
unfolding enqueue
full_refuses = refl
