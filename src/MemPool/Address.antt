-- ===== src/MemPool/Address.antt =====
-- Pointers and units: where a unit begins, and which unit a pointer stands for.
use ros2_perception.Prelude.{
  ℕ, ◌+◌, ◌-◌, ◌*◌, ◌/◌, ◌%◌, ◌^◌, ◌<◌, ◌≤◌, ◌≡◌, ◌∙◌, List, true, false, none, some, arith, ◌⊎◌,
  inl, inr, mul32, Bool-cases,
}
use native.Mathlib.Nat.{
  mul-div_cancel_left, mul-mod_right, mul-add-mod_self_left, div-add-mod, div-lt_iff_lt-mul,
  mod-eq_of_lt,
}
use ros2_perception.MemPool.{MemPoolManager, address, free_unit, free}
use ros2_perception.MemPool.Refine.{in_use_at, IsValid}
use ros2_perception.MemPool.Free.{Freed, free_unit-Freed}

-- The units of the pool fit into 32 bits, and none is empty.
pub record Fits (m : MemPoolManager) : Type 0 where
  pub sized : 0 < m.unit_size
  pub small : m.unit_size * m.unit_count ≤ 2 ^ 32

offset_lem :
    (m : MemPoolManager) (idx : ℕ)
    → Fits m
    → idx < m.unit_count
    → mul32 m.unit_size idx ≡ m.unit_size * idx
offset_lem m idx h k = mod-eq_of_lt (grind (arith, h.small, h.sized))

-- `free` finds the unit that a pointer of `alloc` stands for.
free-address :
    (m : MemPoolManager) (idx : ℕ)
    → Fits m
    → idx < m.unit_count
    → free m (address m idx) ≡ free_unit m idx
unfolding free
free-address m idx h k =
    let off : m.pool + mul32 m.unit_size idx - m.pool ≡ m.unit_size * idx =
      omega (arith, offset_lem m idx h k) in
    let wide : idx % 2 ^ 32 ≡ idx = mod-eq_of_lt (grind (arith, h.small, h.sized)) in
    rw (off, mul-mod_right m.unit_size idx, mul-div_cancel_left idx h.sized, wide) (ground arith)

-- `free` of a pointer to a unit: if the unit is in use, it goes behind all the free ones and only
-- its mark is cleared; if it is not, as after a first `free`, the code aborts.
pub free_lem :
    (m : MemPoolManager) (fs : List ℕ) (idx : ℕ)
    → IsValid m fs
    → Fits m
    → idx < m.unit_count
    → ((in_use_at m idx ≡ true)
        × ((r : MemPoolManager) × (free m (address m idx) ≡ some r) × Freed m fs idx r))
      ⊎ ((in_use_at m idx ≡ false) × (free m (address m idx) ≡ none))
free_lem m fs idx v h k = elim (Bool-cases (in_use_at m idx)) [
  | inl used ↦
      let (r, e, f) = free_unit-Freed m fs idx v used in
      inl (used, (r, free-address m idx h k ∙ e, f))
  | inr spare ↦ inr (spare, free-address m idx h k ∙ unfold free_unit in rw spare)
]

unit_begins :
    (m : MemPoolManager) (b : ℕ)
    → Fits m
    → b < m.pool + m.unit_size * 2 ^ 32
    → m.pool ≤ b
    → (b - m.pool) % m.unit_size ≡ 0
    → (b - m.pool) / m.unit_size % 2 ^ 32 < m.unit_count
    → b ≡ address m ((b - m.pool) / m.unit_size % 2 ^ 32)
unit_begins m b h near above whole inside =
    let q = (b - m.pool) / m.unit_size in
    let few : q < 2 ^ 32 = (div-lt_iff_lt-mul h.sized).1 (omega arith) in
    let same : q % 2 ^ 32 ≡ q = mod-eq_of_lt few in
    rw (same, offset_lem m q h (rw same at inside))
      (omega (arith, div-add-mod (b - m.pool) m.unit_size))

-- A pointer that `free` accepts, less than 2 ^ 32 units above the pool, is that of a unit in use.
free_only :
    (m r : MemPoolManager) (b : ℕ)
    → Fits m
    → b < m.pool + m.unit_size * 2 ^ 32
    → free m b ≡ some r
    → (idx : ℕ) × (idx < m.unit_count) × (b ≡ address m idx) × (in_use_at m idx ≡ true)
unfolding free free_unit
free_only m r b h near e =
    let idx = (b - m.pool) / m.unit_size % 2 ^ 32 in
    let inside : idx < m.unit_count = ground arith in
    let above : m.pool ≤ b = ground arith in
    let whole : (b - m.pool) % m.unit_size ≡ 0 = ground arith in
    (idx, inside, unit_begins m b h near above whole inside, ground arith)

-- A pointer into a unit is not one that `free` takes.
pub free-inside :
    (m : MemPoolManager) (idx k : ℕ)
    → Fits m
    → idx < m.unit_count
    → 0 < k
    → k < m.unit_size
    → free m (address m idx + k) ≡ none
unfolding free
free-inside m idx k h low pos inside =
    let off : m.pool + mul32 m.unit_size idx + k - m.pool ≡ m.unit_size * idx + k =
      omega (arith, offset_lem m idx h low) in
    rw (off, mul-add-mod_self_left m.unit_size idx k, mod-eq_of_lt inside) (ground arith)

-- Two units of the pool do not overlap.
pub address_apart :
    (m : MemPoolManager) (f g : ℕ)
    → Fits m
    → f < g
    → g < m.unit_count
    → (address m f + m.unit_size ≤ address m g)
      × (address m g + m.unit_size ≤ m.pool + m.unit_size * m.unit_count)
address_apart m f g h lt k =
    let a = offset_lem m f h (omega arith) in
    let b = offset_lem m g h k in
    (rw (a, b) (grind (arith, h.sized)), rw b (grind (arith, h.sized)))

-- Where the pool does not fit, the unit that begins 2 ^ 32 bytes in has the address of the first.
pub address_wraps :
    (m : MemPoolManager) (f : ℕ) → m.unit_size * f ≡ 2 ^ 32 → address m f ≡ address m 0
address_wraps m f h = rw h (omega arith)
