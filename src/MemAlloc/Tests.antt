-- ===== src/MemAlloc/Tests.antt =====
-- Runs of the allocator of utils/mem_allocator.cpp, and its theorems at a region of four pages.
use ros2_perception.MemAlloc.{MemRange, size_needed, alloc_in_free_range, alloc_first, calloc, free}
use ros2_perception.MemAlloc.Calloc.{Allocates, calloc-Allocates}
use ros2_perception.MemAlloc.Free.{is_allocated, free_exact}
use ros2_perception.MemAlloc.Region.{IsTiled, AreMerged, is_inside, is_taken}
use ros2_perception.MemAlloc.Restore.{free-calloc}
use ros2_perception.Prelude.{
  ℕ, ◌+◌, ◌*◌, ◌%◌, ◌^◌, ◌≤◌, ◌≡◌, refl, true, false, not, ◌&&◌, some, List, [], ◌∷◌, arith,
}

abbrev region : List MemRange
region =
    record { offset = 65536; end = 69631; size = 4096; is_dirty = true }
    ∷ record { offset = 69632; end = 81919; size = 12288; is_dirty = false }
    ∷ []

abbrev after : List MemRange
after =
    record { offset = 65536; end = 69631; size = 4096; is_dirty = true }
    ∷ record { offset = 69632; end = 77823; size = 8192; is_dirty = true }
    ∷ record { offset = 77824; end = 81919; size = 4096; is_dirty = false }
    ∷ []

region-IsTiled : IsTiled 65536 81920 region
unfolding IsTiled
region-IsTiled = (
  refl,
  record { ended = refl; filled = omega arith },
  (refl, record { ended = refl; filled = omega arith }, refl),
)

region-AreMerged : AreMerged false region
unfolding AreMerged
region-AreMerged = (refl, (refl, tt))

taken_in_front : calloc 4096 5000 1 region ≡ some (69632, after)
unfolding calloc size_needed alloc_first alloc_in_free_range
taken_in_front = refl

-- The product of a request may wrap around: 2 ^ 64 bytes are granted as one page.
overflow : size_needed 4096 (2 ^ 33) (2 ^ 31) ≡ 4096
unfolding size_needed
overflow = refl

calloc-Allocates_example :
    (5000 * 1 ≤ size_needed 4096 5000 1)
    × (size_needed 4096 5000 1 % 4096 ≡ 0)
    × Allocates false 65536 81920 4096 (size_needed 4096 5000 1) region (calloc 4096 5000 1 region)
calloc-Allocates_example =
    calloc-Allocates region 65536 81920 4096 5000 1 (omega arith) (omega arith) region-IsTiled
      region-AreMerged

free_exact_example :
    (rest : List MemRange) × (free 65536 region ≡ some rest)
    × IsTiled 65536 81920 rest
    × AreMerged false rest
    × ((x : ℕ) → is_taken rest x ≡ (is_taken region x && not (is_inside 65536 (65536 + 4096) x)))
unfolding is_allocated
free_exact_example = free_exact region 65536 4096 65536 81920 region-IsTiled region-AreMerged refl

free-calloc_example : free 69632 after ≡ some region
free-calloc_example =
    free-calloc region after 65536 81920 4096 5000 1 69632 (omega arith) (omega arith)
      region-IsTiled region-AreMerged taken_in_front
