-- ===== src/MemPool.antt =====
-- `MemPoolManager` and `MemPool` of utils/mem_pool_manager.h and utils/mem_pool_manager.cpp (under
-- src/drivers/seyond_lidar/src/inno_sdk/src): a pool of units of one size, with the free units on a
-- list through `next_free_`. `none` is an abort by `inno_log_panic_if_not` or `inno_log_verify`.
-- Pointers are addresses, and `unit_count_` is below 2 ^ 31, so its casts to `int` keep it. Each method holds `mutex_` throughout, so it is one step.
pub mod FreeList
pub mod Refine
pub mod Free
pub mod Address
pub mod Aligned
mod Tests
use Prim.Native.Nat.{bit_and}
use ros2_perception.Prelude.{
  ℕ, zero, suc, ◌+◌, ◌-◌, ◌*◌, ◌/◌, ◌%◌, ◌^◌, List, [], ◌∷◌, Bool, true, false, not, ◌&&◌, Option,
  none, some, ◌==◌, ltb, leb, if◌then◌else◌, get_or, set, replicate, add64, mul32,
}

-- An `int` index, where `none` is -1.
abbrev pub Index : Type 0
Index = Option ℕ

pub record MemPoolManager : Type 0 where
  pub pool : ℕ
  pub unit_size : ℕ
  pub unit_count : ℕ
  pub free_count : ℕ
  pub alloc_call_count : ℕ
  pub return_null_count : ℕ
  pub request_too_big : ℕ
  pub in_use : List Bool
  pub next_free : List Index
  pub first_free : Index
  pub last_free : Index

-- `next_free_[i] = i + 1` for the `n` entries from `i` on.
abbrev pub links : ℕ → ℕ → List Index
links i zero = []
links i (suc n) = some (suc i) ∷ links (suc i) n

-- With no unit the code writes before its arrays; `MemPool` never asks for that.
unfoldable pub new_manager : ℕ → ℕ → ℕ → MemPoolManager
new_manager buffer unit_size unit_count = record {
  pool = buffer;
  unit_size = unit_size;
  unit_count = unit_count;
  free_count = unit_count;
  alloc_call_count = 0;
  return_null_count = 0;
  request_too_big = 0;
  in_use = replicate unit_count false;
  next_free = set (links 0 unit_count) (unit_count - 1) none;
  first_free = some 0;
  last_free = some (unit_count - 1);
}

-- Where a unit begins. The product of two `unsigned int` wraps.
abbrev pub address : MemPoolManager → ℕ → ℕ
address m f = m.pool + mul32 m.unit_size f

abbrev used : MemPoolManager → ℕ → Bool
used m f = get_or m.in_use f false

abbrev link : MemPoolManager → ℕ → Index
link m f = get_or m.next_free f none

-- Whether an `int` index that is not -1 is the given one.
abbrev pub is_index : Index → ℕ → Bool
is_index none f = false
is_index (some l) f = l == f

-- Takes the unit `f`, the first of the free list.
unfoldable pub take_unit : MemPoolManager → ℕ → MemPoolManager
take_unit m f = record m {
  first_free = link m f;
  next_free = set m.next_free f none;
  last_free = if is_index m.last_free f then none else m.last_free;
  in_use = set m.in_use f true;
  free_count = m.free_count - 1;
}

abbrev pub called : MemPoolManager → MemPoolManager
called m = record m { alloc_call_count = add64 m.alloc_call_count 1 }

abbrev pub refused : MemPoolManager → MemPoolManager
refused m = record m { return_null_count = add64 m.return_null_count 1 }

-- The pointer returned (`none` for `NULL`) and the manager after it.
unfoldable pub alloc : MemPoolManager → ℕ → Option (Option ℕ × MemPoolManager)
alloc m size =
    if ltb m.unit_size size
    then some (none, refused (called (record m { request_too_big = add64 m.request_too_big 1 })))
    else if m.free_count == 0
    then some (none, refused (called m))
    else elim m.first_free [
      | none ↦ none
      | some f ↦
          if ltb f m.unit_count && not (used m f)
          then some (some (address m f), take_unit (called m) f)
          else none
    ]

-- Puts the unit `idx` behind the last of the free list, after `in_use_[idx] = false`.
unfoldable pub append_unit : MemPoolManager → ℕ → Option MemPoolManager
append_unit m idx = elim m.last_free [
  | none ↦
      if (m.free_count == 0) && (elim m.first_free [ none ↦ true | some f ↦ false ])
      then some
          (record m { last_free = some idx; first_free = some idx; free_count = m.free_count + 1 })
      else none
  | some l ↦
      if ltb 0 m.free_count
        && (elim m.first_free [ none ↦ false | some f ↦ true ])
        && ltb l m.unit_count
      then some (record m {
        next_free = set m.next_free l (some idx);
        last_free = some idx;
        free_count = m.free_count + 1;
      })
      else none
]

unfoldable pub free_unit : MemPoolManager → ℕ → Option MemPoolManager
free_unit m idx =
    if used m idx && ltb m.free_count m.unit_count
    then append_unit (record m { in_use = set m.in_use idx false }) idx
    else none

-- `idx` and `mod` are `unsigned int`.
unfoldable pub free : MemPoolManager → ℕ → Option MemPoolManager
free m buffer =
    let offset = buffer - m.pool in
    let idx = offset / m.unit_size % 2 ^ 32 in
    let rest = offset % m.unit_size in
    if leb m.pool buffer
    then (if (rest == 0) && ltb idx m.unit_count then free_unit m idx else none)
    else none

unfoldable pub is_manager_of : MemPoolManager → ℕ → Bool
is_manager_of m b = leb m.pool b && ltb b (m.pool + mul32 m.unit_size m.unit_count)

-- `MemPool`, over the pointer that the allocator returned (0 for a failure).
pub record MemPool : Type 0 where
  pub memory : ℕ
  pub aligned_pool : ℕ
  pub manager : MemPoolManager

-- The sizes in `uint64_t` and `unsigned int`: `((unit_sz - 1) / alignment + 1) * alignment`.
abbrev pub round_up : ℕ → ℕ → ℕ
round_up unit_sz alignment = ((unit_sz - 1) / alignment + 1) * alignment % 2 ^ 64 % 2 ^ 32

-- `x & ~(alignment - 1)`, for the powers of two that the constructor lets pass.
abbrev pub round_down : ℕ → ℕ → ℕ
round_down x alignment = x / alignment * alignment

abbrev pub align : ℕ → ℕ → ℕ
align memory alignment =
    if memory % alignment == 0
    then memory
    else round_down ((memory + alignment - 1) % 2 ^ 64) alignment

-- `calloc` is the allocator's, a parameter: it is asked for one unit more than the pool has.
unfoldable pub new_pool : (ℕ → ℕ → ℕ) → ℕ → ℕ → ℕ → Option MemPool
new_pool calloc unit_sz unit_nm alignment =
    let unit_size = round_up unit_sz alignment in
    let memory = calloc (unit_nm + 1) unit_size in
    if ltb 0 unit_sz
      && ltb 0 unit_nm
      && ltb 0 alignment
      && (bit_and alignment (alignment - 1) == 0)
      && ltb 0 memory
    then some (record {
      memory = memory;
      aligned_pool = align memory alignment;
      manager = new_manager (align memory alignment) unit_size unit_nm;
    })
    else none

-- `MemPool::alloc` asks for a whole unit.
unfoldable pub pool_alloc : MemPool → Option (Option ℕ × MemPool)
pool_alloc p = elim (alloc p.manager p.manager.unit_size) [
  | none ↦ none
  | some (b, m) ↦ some (b, record p { manager = m })
]

unfoldable pub pool_free : MemPool → ℕ → Option MemPool
pool_free p buffer = elim (free p.manager buffer) [
  | none ↦ none
  | some m ↦ some (record p { manager = m })
]
