-- ===== src/CircularBuffer.antt =====
-- `CircularBuffer<T, N>` of utils/circular_buffer.h (under
-- src/drivers/seyond_lidar/src/inno_sdk/src). One thread at a time calls it.
-- `IsValid` and the queue that a buffer stands for are in `Refine`.
pub mod Refine
mod Tests
use ros2_perception.Prelude.{
  ℕ, ◌+◌, ◌-◌, ◌%◌, ◌^◌, List, [], ◌∷◌, Bool, true, false, Option, none, some, ◌==◌, if◌then◌else◌,
  get_or, set, replicate,
}

-- Storing into an `int32_t` keeps the low 32 bits; below 2 ^ 31 that is the number itself.
abbrev pub int32 : ℕ → ℕ
int32 x = x % 2 ^ 32

-- The template's `N` is the field `cap`.
pub record CircularBuffer {ℓ} (T : Type ℓ) : Type ℓ where
  pub buffer : List T
  pub cap : ℕ
  pub head : ℕ
  pub tail : ℕ
  pub count : ℕ

module _ {ℓ} {T : Type ℓ} where
  -- `default` is the value that `T buffer_[N]` gives each slot.
  pub empty_buffer : ℕ → T → CircularBuffer T
  empty_buffer n default = record {
    buffer = replicate n default;
    cap = n;
    head = 0;
    tail = 0;
    count = 0;
  }

  pub is_empty : CircularBuffer T → Bool
  is_empty b = b.count == 0

  pub is_full : CircularBuffer T → Bool
  is_full b = b.count == b.cap

  pub size : CircularBuffer T → ℕ
  size b = b.count

  pub enqueue : CircularBuffer T → T → Bool × CircularBuffer T
  unfolding is_full
  enqueue b value = if is_full b then (false, b) else (
    true,
    record b {
      buffer = set b.buffer b.tail value;
      tail = int32 ((b.tail + 1) % b.cap);
      count = int32 (b.count + 1);
    },
  )

  -- The reference parameter is what a successful call stores; `spare` is its value before the call.
  pub dequeue : CircularBuffer T → T → Bool × T × CircularBuffer T
  unfolding is_empty
  dequeue b spare = if is_empty b then (false, spare, b) else (
    true,
    get_or b.buffer b.head spare,
    record b { head = int32 ((b.head + 1) % b.cap); count = b.count - 1 },
  )

  pub peek : CircularBuffer T → T → Bool × T
  unfolding is_empty
  peek b spare = if is_empty b then (false, spare) else (true, get_or b.buffer b.head spare)
