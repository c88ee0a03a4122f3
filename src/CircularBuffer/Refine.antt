-- ===== src/CircularBuffer/Refine.antt =====
-- The buffer against a bounded first-in first-out queue.
use ros2_perception.Prelude.{
  ℕ, suc, ◌+◌, ◌-◌, ◌%◌, ◌^◌, ◌<◌, ◌≤◌, inl, inr, Bool-cases, ◌≡◌, sym, ap, ◌∙◌, List, [], ◌∷◌,
  ◌++◌, Bool, true, false, arith, ◌==◌, if◌then◌else◌, get_or, set, length, length-set,
  get_or-set_self, get_or-set_ne, length-replicate,
}
use ros2_perception.Ring.{
  next, wrap, window, length-window, next-lt, next-eq-mod, next-wrap, wrap-lt, wrap-next,
  window-write, window_of_pos,
}
use ros2_perception.CircularBuffer.{CircularBuffer, int32, empty_buffer, enqueue, dequeue, peek}

step_index : (n i : ℕ) → n < 2 ^ 31 → i < n → int32 ((i + 1) % n) ≡ next n i
step_index n i small h = omega (arith, next-eq-mod n i h, next-lt n i h)

module _ {ℓ} {T : Type ℓ} where
  -- The indices lie inside the storage, and `tail_` stands `count_` slots after `head_`.
  pub record IsValid (b : CircularBuffer T) : Type ℓ where
    pub small : b.cap < 2 ^ 31
    pub storage : length b.buffer ≡ b.cap
    pub head_in : b.head < b.cap
    pub count_in : b.count ≤ b.cap
    pub tail_at : b.tail ≡ wrap b.cap (b.head + b.count)

  -- The values held, oldest first. A slot outside the storage would read as `spare`.
  abbrev pub contents : T → CircularBuffer T → List T
  contents spare b = window (λ i. get_or b.buffer i spare) b.cap b.head b.count

  -- The queue: it refuses a value when it holds `cap` of them.
  pub push_back : ℕ → List T → T → Bool × List T
  push_back n q x = if length q == n then (false, q) else (true, q ++ (x ∷ []))

  pub pop_front : T → List T → Bool × T × List T
  pop_front spare [] = (false, spare, [])
  pop_front spare (x ∷ q) = (true, x, q)

  -- A fresh buffer of at least one slot is valid.
  pub empty_buffer-IsValid : (n : ℕ) (d : T) → 0 < n → n < 2 ^ 31 → IsValid (empty_buffer n d)
  unfolding empty_buffer
  empty_buffer-IsValid n d h k = ground (arith, length-replicate n d)

  tail-lt : {b : CircularBuffer T} → IsValid b → b.tail < b.cap
  tail-lt {b} v = omega (arith, wrap-lt b.cap b.head b.count v.head_in v.count_in)

  enqueue-IsValid : {b : CircularBuffer T} (x : T) → IsValid b → IsValid (enqueue b x).1
  unfolding enqueue
  enqueue-IsValid {b} x v = ground (
    arith,
    length-set b.buffer b.tail x,
    step_index b.cap b.tail,
    tail-lt v,
    next-wrap b.cap b.head b.count,
  )

  pub dequeue-IsValid : {b : CircularBuffer T} (x : T) → IsValid b → IsValid (dequeue b x).2
  unfolding dequeue
  dequeue-IsValid {b} x v =
      ground
        (arith, step_index b.cap b.head, next-lt b.cap b.head, wrap-next b.cap b.head (b.count - 1))

  contents-set :
      {b : CircularBuffer T} (spare x : T)
      → IsValid b
      → b.count < b.cap
      → window (λ i. get_or (set b.buffer b.tail x) i spare) b.cap b.head (suc b.count)
        ≡ contents spare b ++ (x ∷ [])
  contents-set {b} spare x v h =
      window-write (λ i. get_or b.buffer i spare) _ x b.cap b.head b.count v.head_in h
        (rw (← v.tail_at) (get_or-set_self b.buffer b.tail x spare (omega (arith, v, tail-lt v))))
        (λ j ne. get_or-set_ne b.buffer b.tail j x spare (λ e. ne (sym v.tail_at ∙ e)))

  enqueue-push_back :
      {b : CircularBuffer T} (spare x : T)
      → IsValid b
      → let (done, b') = enqueue b x in
        (done, contents spare b') ≡ push_back b.cap (contents spare b) x
  unfolding enqueue push_back
  enqueue-push_back {b} spare x v = elim (Bool-cases (b.count == b.cap)) [
    | inl full ↦ rw (length-window (λ i. get_or b.buffer i spare) b.cap b.head b.count, full)
    | inr room ↦
        rw (length-window (λ i. get_or b.buffer i spare) b.cap b.head b.count, room)
          (ap (λ k. (true, window (λ i. get_or (set b.buffer b.tail x) i spare) b.cap b.head k))
              {y = suc b.count} (ground (arith, v))
            ∙ ap (λ (q : List T). (true, q)) (contents-set spare x v (ground (arith, v))))
  ]

  -- `enqueue` answers as the queue does, and leaves the buffer holding its queue and valid: with its
  -- indices inside the storage, and the tail as many slots behind the head as it holds values.
  pub enqueue_refines :
      {b : CircularBuffer T} (spare x : T)
      → IsValid b
      → let (done, b') = enqueue b x in
        ((done, contents spare b') ≡ push_back b.cap (contents spare b) x) × IsValid b'
  enqueue_refines spare x v = (enqueue-push_back spare x v, enqueue-IsValid x v)

  -- `dequeue` answers as the queue does, and leaves the buffer holding the rest.
  pub dequeue_refines :
      {b : CircularBuffer T} (spare : T)
      → IsValid b
      → let (done, x, b') = dequeue b spare in
        (done, x, contents spare b') ≡ pop_front spare (contents spare b)
  unfolding dequeue pop_front
  dequeue_refines {b} spare v = ground (
    arith,
    step_index b.cap b.head,
    window_of_pos (λ i. get_or b.buffer i spare) b.cap b.head b.count,
  )

  -- `peek` shows what `dequeue` would return.
  pub peek-eq-dequeue :
      (b : CircularBuffer T) (spare : T) → peek b spare ≡ ((dequeue b spare).0, (dequeue b spare).1)
  unfolding peek dequeue
  peek-eq-dequeue b spare = ground arith
