-- ===== src/MemAlloc.antt =====
-- `MemMapMemAllocator` of utils/mem_allocator.h and utils/mem_allocator.cpp: the allocator of pages in
-- a mapped region of memory. Addresses are numbers. The zeroing of what is allocated, the mapping
-- itself and the cache are left out.
pub mod Region
pub mod Calloc
pub mod Free
pub mod Restore
mod Tests
use ros2_perception.Prelude.{
  ℕ, ◌+◌, ◌-◌, ◌*◌, ◌%◌, ◌^◌, Bool, true, false, not, ◌&&◌, Option, none, some, List, [], ◌∷◌, ◌++◌,
  ◌==◌, ltb, leb, if◌then◌else◌,
}

-- `end` is the address of the last byte.
pub record MemRange : Type 0 where
  pub offset : ℕ
  pub end : ℕ
  pub size : ℕ
  pub is_dirty : Bool

abbrev pub new_range : ℕ → ℕ → MemRange
new_range offset size = record {
  offset = offset;
  end = offset + size - 1;
  size = size;
  is_dirty = false;
}

-- The region of a new allocator: one free range.
abbrev pub new_region : ℕ → ℕ → List MemRange
new_region base size = new_range base size ∷ []

-- The bytes that `calloc` takes for a request, in a `size_t`: whole pages, and at least one. A page
-- has a power of two of bytes, so that `& ~(page_size_ - 1)` takes the remainder off.
unfoldable pub size_needed : ℕ → ℕ → ℕ → ℕ
size_needed page nmemb size =
    let up = ((nmemb * size) % 2 ^ 64 + (page - 1)) % 2 ^ 64 in
    let need = up - up % page in if ltb need page then page else need

-- The ranges that stand for a free range when `need` of its bytes are taken: it is taken whole if
-- less than a page would be left, and split in front otherwise.
unfoldable pub alloc_in_free_range : ℕ → ℕ → MemRange → List MemRange
alloc_in_free_range page need r =
    if ltb (r.size - need) page
    then (record r { is_dirty = true }) ∷ []
    else (record (new_range r.offset need) { is_dirty = true })
      ∷ (record r { offset = r.offset + need - 1 + 1; size = r.size - need })
      ∷ []

abbrev pub is_applicable : ℕ → MemRange → Bool
is_applicable need r = not r.is_dirty && leb need r.size

-- The search for the first applicable range with the allocation in it: the address and the ranges,
-- or `none` for a null pointer.
unfoldable pub alloc_first : ℕ → ℕ → List MemRange → Option (ℕ × List MemRange)
alloc_first page need [] = none
alloc_first page need (r ∷ rs) =
    let later = alloc_first page need rs in
    if is_applicable need r
    then some (r.offset, alloc_in_free_range page need r ++ rs)
    else elim later [ none ↦ none | some found ↦ some (found.0, r ∷ found.1) ]

unfoldable pub calloc : ℕ → ℕ → ℕ → List MemRange → Option (ℕ × List MemRange)
calloc page nmemb size rs = alloc_first page (size_needed page nmemb size) rs

-- `none` from here on is an abort by `inno_log_verify`.
unfoldable pub merge_contiguous_range : MemRange → MemRange → Option MemRange
merge_contiguous_range a b =
    if not a.is_dirty && (not b.is_dirty && (a.end + 1 == b.offset))
    then some (record a { size = a.size + b.size; end = b.end })
    else none

-- A free range with the ranges behind it.
unfoldable pub merge_next : MemRange → List MemRange → Option (List MemRange)
merge_next r [] = some (r ∷ [])
merge_next r (n ∷ ns) =
    if not n.is_dirty
    then elim (merge_contiguous_range r n) [ none ↦ none | some whole ↦ some (whole ∷ ns) ]
    else some (r ∷ n ∷ ns)

-- A range in front of the range that was freed.
unfoldable pub merge_pre : MemRange → List MemRange → Option (List MemRange)
merge_pre p [] = some (p ∷ [])
merge_pre p (r ∷ rs) =
    if not p.is_dirty
    then elim (merge_contiguous_range p r) [ none ↦ none | some whole ↦ some (whole ∷ rs) ]
    else some (p ∷ r ∷ rs)

abbrev pub is_target : ℕ → List MemRange → Bool
is_target buffer [] = false
is_target buffer (r ∷ rs) = r.offset == buffer

unfoldable pub free : ℕ → List MemRange → Option (List MemRange)
free buffer [] = none
free buffer (r ∷ rs) =
    let later = free buffer rs in
    if r.offset == buffer then merge_next (record r { is_dirty = false }) rs else elim later [
      | none ↦ none
      | some freed ↦ if is_target buffer rs then merge_pre r freed else some (r ∷ freed)
    ]
