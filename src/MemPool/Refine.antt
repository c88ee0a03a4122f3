-- ===== src/MemPool/Refine.antt =====
-- A pool against the queue of its free units: `alloc` takes the unit that has been free longest, and
-- `free` puts one behind all others.
use ros2_perception.Prelude.{
  ℕ, ◌<◌, ◌≤◌, ◌≡◌, refl, sym, ◌∙◌, subst, List, [], ◌∷◌, Bool, true, false, Option, none, some,
  arith, ◌⊎◌, inl, inr, get_or, set, length, length-set, get_or-set_self, get_or-set_ne, add64,
  ◌==◌, if◌then◌else◌, ℕ_discrete, dec_lt,
}
use ros2_perception.MemPool.{
  refused, called, Index, MemPoolManager, address, is_index, take_unit, alloc,
}
use ros2_perception.MemPool.FreeList.{
  Chain, last_of, Absent, AllFree, unused, unused-set-true, Chain-set, Absent-last_of, AllFree-set,
}

abbrev pub in_use_at : MemPoolManager → ℕ → Bool
in_use_at m i = get_or m.in_use i false

-- `fs` is the free list of the pool, the next unit to be handed out first.
pub record IsValid (m : MemPoolManager) (fs : List ℕ) : Type 0 where
  pub use_size : length m.in_use ≡ m.unit_count
  pub link_size : length m.next_free ≡ m.unit_count
  pub chain : Chain m.next_free m.first_free fs
  pub ends : m.last_free ≡ last_of fs
  pub all_free : AllFree m.unit_count m.in_use fs
  pub listed : m.free_count ≡ length fs
  pub counted : m.free_count ≡ unused m.in_use
  pub stops : (i : ℕ) → in_use_at m i ≡ true → get_or m.next_free i none ≡ none

pub last_of-some : (g : ℕ) (fs : List ℕ) → (l : ℕ) × (last_of (g ∷ fs) ≡ some l)
last_of-some g [] = (g, refl)
last_of-some g (h ∷ fs) = last_of-some h fs

last-take :
    (f : ℕ) (fs : List ℕ) (last : Index)
    → last ≡ last_of (f ∷ fs)
    → Absent f fs
    → (if is_index last f then none else last) ≡ last_of fs
last-take f [] last e a = rw e (ground arith)
last-take f (g ∷ fs) last e a =
    let (l, k) = last_of-some g fs in
    let other : (l == f) ≡ false = ground (arith, Absent-last_of f (g ∷ fs) l a k) in
    rw (e, k, other)

stops-take :
    (m : MemPoolManager) (f i : ℕ)
    → f < length m.next_free
    → (in_use_at m i ≡ true → get_or m.next_free i none ≡ none)
    → get_or (set m.in_use f true) i false ≡ true
    → get_or (set m.next_free f none) i none ≡ none
stops-take m f i h old used = elim (ℕ_discrete f i) [
  | yes same ↦
      subst (λ j. get_or (set m.next_free f none) j none ≡ none) same
        (get_or-set_self m.next_free f none none h)
  | no other ↦
      get_or-set_ne m.next_free f i none none other
      ∙ old (sym (get_or-set_ne m.in_use f i true false other) ∙ used)
]

take_unit-IsValid :
    (m : MemPoolManager) (f : ℕ) (fs : List ℕ) → IsValid m (f ∷ fs) → IsValid (take_unit m f) fs
unfolding take_unit
take_unit-IsValid m f fs v = record {
  use_size = length-set m.in_use f true ∙ v.use_size;
  link_size = length-set m.next_free f none ∙ v.link_size;
  chain = Chain-set m.next_free _ fs f none v.all_free.2 v.chain.1;
  ends = last-take f fs m.last_free v.ends v.all_free.2;
  all_free = AllFree-set m.unit_count m.in_use fs f true v.all_free.2 v.all_free.3;
  listed = omega (arith, v.listed);
  counted = omega (
    arith,
    v.counted,
    unused-set-true m.in_use f (omega (arith, v.all_free.0, v.use_size)) v.all_free.1,
  );
  stops = λ i. stops-take m f i (omega (arith, v.all_free.0, v.link_size)) (v.stops i);
}

-- The state after a call that the pool refuses differs in the call counters only.
pub record SamePool (m r : MemPoolManager) : Type 0 where
  pub marks : r.in_use ≡ m.in_use
  pub links : r.next_free ≡ m.next_free
  pub first : r.first_free ≡ m.first_free
  pub last : r.last_free ≡ m.last_free
  pub free : r.free_count ≡ m.free_count
  pub units : r.unit_count ≡ m.unit_count
  pub size : r.unit_size ≡ m.unit_size
  pub start : r.pool ≡ m.pool

-- What `alloc` gives where the free list is `fs`.
abbrev pub Allocates : MemPoolManager → List ℕ → Option (Option ℕ × MemPoolManager) → Type 0
Allocates m [] o = (r : MemPoolManager) × (o ≡ some (none, r)) × SamePool m r
Allocates m (f ∷ fs) o =
    (r : MemPoolManager) × (o ≡ some (some (address m f), r))
    × IsValid r fs
    × (in_use_at m f ≡ false)
    × (r.in_use ≡ set m.in_use f true)

called-IsValid : (m : MemPoolManager) (fs : List ℕ) → IsValid m fs → IsValid (called m) fs
called-IsValid m fs v = record {
  use_size = v.use_size;
  link_size = v.link_size;
  chain = v.chain;
  ends = v.ends;
  all_free = v.all_free;
  listed = v.listed;
  counted = v.counted;
  stops = v.stops;
}

SamePool-refused :
    (m : MemPoolManager) (k : ℕ) → SamePool m (refused (called (record m { request_too_big = k })))
SamePool-refused m k = record {
  marks = refl;
  links = refl;
  first = refl;
  last = refl;
  free = refl;
  units = refl;
  size = refl;
  start = refl;
}

alloc-Allocates :
    (m : MemPoolManager) (fs : List ℕ) (size : ℕ)
    → IsValid m fs
    → size ≤ m.unit_size
    → Allocates m fs (alloc m size)
alloc-Allocates m [] size v h =
    (refused (called m), unfold alloc in ground arith, SamePool-refused m m.request_too_big)
alloc-Allocates m (f ∷ fs) size v h = (
  take_unit (called m) f,
  unfold alloc in ground arith,
  take_unit-IsValid (called m) f fs (called-IsValid m (f ∷ fs) v),
  v.all_free.1,
  unfold take_unit in refl,
)

-- On a valid pool `alloc` does not abort. A request above the size of a unit, or with no free unit,
-- gets `NULL` and changes only the call counters; any other gets the unit that has been free
-- longest, which was not in use, and marks that one unit as in use.
pub alloc_lem :
    (m : MemPoolManager) (fs : List ℕ) (size : ℕ)
    → IsValid m fs
    → ((m.unit_size < size)
        × ((r : MemPoolManager) × (alloc m size ≡ some (none, r)) × SamePool m r))
      ⊎ ((size ≤ m.unit_size) × Allocates m fs (alloc m size))
alloc_lem m fs size v = elim (dec_lt m.unit_size size) [
  | yes big ↦
      let k = add64 m.request_too_big 1 in
      inl (
        big,
        (
          refused (called (record m { request_too_big = k })),
          unfold alloc in ground arith,
          SamePool-refused m k,
        ),
      )
  | no fits ↦ inr (omega arith, alloc-Allocates m fs size v (omega arith))
]
