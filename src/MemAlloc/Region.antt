-- ===== src/MemAlloc/Region.antt =====
-- The ranges of utils/mem_allocator.cpp as a region of memory.
use ros2_perception.MemAlloc.{MemRange, new_region}
use ros2_perception.Prelude.{
  ℕ, ◌+◌, ◌<◌, ◌≡◌, refl, arith, Bool, false, not, ◌&&◌, ◌||◌, List, [], ◌∷◌, ltb, leb,
}

-- A range as it should be: not empty, and with the last byte where it belongs.
pub record IsRange (r : MemRange) : Type 0 where
  pub ended : r.end + 1 ≡ r.offset + r.size
  pub filled : 0 < r.size

-- The ranges cover the addresses from `lo` to below `hi` one behind the other.
unfoldable pub IsTiled : ℕ → ℕ → List MemRange → Type 0
IsTiled lo hi [] = lo ≡ hi
IsTiled lo hi (r ∷ rs) = (r.offset ≡ lo) × IsRange r × IsTiled (lo + r.size) hi rs

-- No two free ranges are neighbours; `free` tells whether the range in front is free.
unfoldable pub AreMerged : Bool → List MemRange → Type 0
AreMerged before [] = Unit
AreMerged before (r ∷ rs) = ((before && not r.is_dirty) ≡ false) × AreMerged (not r.is_dirty) rs

abbrev pub is_inside : ℕ → ℕ → ℕ → Bool
is_inside lo hi x = leb lo x && ltb x hi

-- Whether a byte is allocated.
unfoldable pub is_taken : List MemRange → ℕ → Bool
is_taken [] x = false
is_taken (r ∷ rs) x = (r.is_dirty && is_inside r.offset (r.offset + r.size) x) || is_taken rs x

new_region-IsTiled : (base size : ℕ) → 0 < size → IsTiled base (base + size) (new_region base size)
unfolding IsTiled
new_region-IsTiled base size h = (refl, record { ended = omega arith; filled = h }, refl)

new_region-AreMerged : (base size : ℕ) → AreMerged false (new_region base size)
unfolding AreMerged
new_region-AreMerged base size = (refl, tt)
