-- ===== src/MemPool/Tests.antt =====
-- Runs of a pool, and the theorems about it at concrete pools.
use ros2_perception.Prelude.{
  ℕ, ◌<◌, ◌≤◌, ◌≡◌, ◌⊎◌, refl, [], ◌∷◌, true, false, some, none, arith, zero, suc, get_or,
}
use ros2_perception.MemPool.{MemPoolManager, MemPool, alloc, free, free_unit, address, new_manager}
use ros2_perception.MemPool.Refine.{IsValid, Allocates, SamePool, alloc_lem, in_use_at}
use ros2_perception.MemPool.Free.{Freed}
use ros2_perception.MemPool.Address.{free_lem}

-- Three units of 64 bytes from 4096 on, unit 1 in use; unit 2 is handed out before unit 0.
abbrev three : MemPoolManager
three = record {
  pool = 4096;
  unit_size = 64;
  unit_count = 3;
  free_count = 2;
  alloc_call_count = 3;
  return_null_count = 0;
  request_too_big = 0;
  in_use = false ∷ true ∷ false ∷ [];
  next_free = none ∷ none ∷ some 0 ∷ [];
  first_free = some 2;
  last_free = some 0;
}

three-stops : (i : ℕ) → in_use_at three i ≡ true → get_or three.next_free i none ≡ none
three-stops zero e = cc
three-stops (suc zero) e = refl
three-stops (suc (suc zero)) e = cc
three-stops (suc (suc (suc i))) e = refl

three-IsValid : IsValid three (2 ∷ 0 ∷ [])
three-IsValid = record {
  use_size = refl;
  link_size = refl;
  chain = (refl, (refl, refl));
  ends = refl;
  all_free = (omega arith, refl, (omega arith, tt), (omega arith, refl, tt, tt));
  listed = refl;
  counted = refl;
  stops = three-stops;
}

alloc_lem_example :
    ((64 < 60) × ((r : MemPoolManager) × (alloc three 60 ≡ some (none, r)) × SamePool three r))
    ⊎ ((60 ≤ 64) × Allocates three (2 ∷ 0 ∷ []) (alloc three 60))
alloc_lem_example = alloc_lem three (2 ∷ 0 ∷ []) 60 three-IsValid

free_lem_example :
    ((in_use_at three 1 ≡ true)
      × ((r : MemPoolManager) × (free three (address three 1) ≡ some r)
          × Freed three (2 ∷ 0 ∷ []) 1 r))
    ⊎ ((in_use_at three 1 ≡ false) × (free three (address three 1) ≡ none))
free_lem_example = free_lem three (2 ∷ 0 ∷ []) 1 three-IsValid (omega arith) (omega arith)

freed : MemPoolManager
freed = record three {
  in_use = false ∷ false ∷ false ∷ [];
  next_free = some 1 ∷ none ∷ some 0 ∷ [];
  last_free = some 1;
  free_count = 3;
}

-- A second `free` of a unit aborts.
double_free : free three (address three 2) ≡ none
unfolding free free_unit
double_free = refl

-- An allocator that returns address 4100; the pool starts at the next multiple of 64.
abbrev at_4100 : ℕ → ℕ → ℕ
at_4100 count size = 4100

abbrev two_units : MemPool
two_units = record { memory = 4100; aligned_pool = 4160; manager = new_manager 4160 128 2 }
