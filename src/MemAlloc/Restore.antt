-- ===== src/MemAlloc/Restore.antt =====
-- `free` after `calloc` in utils/mem_allocator.cpp.
use ros2_perception.MemAlloc.{
  MemRange, new_range, size_needed, alloc_in_free_range, is_applicable, alloc_first, calloc,
  merge_next, merge_pre, is_target, free,
}
use ros2_perception.MemAlloc.Calloc.{size_needed_lem}
use ros2_perception.MemAlloc.Free.{is_free_first, merge_contiguous_range-done}
use ros2_perception.MemAlloc.Region.{IsRange, IsTiled, AreMerged}
use ros2_perception.Prelude.{
  ℕ, ◌+◌, ◌-◌, ◌*◌, ◌^◌, ◌≤◌, ◌<◌, ◌≡◌, refl, sym, ap, Bool, true, false, not, Option, none, some,
  List, [], ◌∷◌, ◌++◌, ◌==◌, ltb, if_elim, subst, Bool-cases, inl, inr, arith,
}

-- An allocation whose address, when it is freed, gives the ranges back as they were.
data Restores (lo : ℕ) (rs : List MemRange) (o : Option (ℕ × List MemRange)) : Type 0 where
  refused : o ≡ none → Restores lo rs o
  granted :
      (a : ℕ) (rest : List MemRange)
      → o ≡ some (a, rest)
      → lo ≤ a
      → free a rest ≡ some rs
      → (is_target a rest ≡ true → is_free_first rs ≡ true)
      → Restores lo rs o

set_clean : (r : MemRange) → r.is_dirty ≡ false → record r { is_dirty = false } ≡ r
set_clean r e = ap (λ d. record r { is_dirty = d }) (sym e)

merge_next-clean :
    (r : MemRange) (rs : List MemRange)
    → r.is_dirty ≡ false
    → AreMerged true rs
    → merge_next (record r { is_dirty = false }) rs ≡ some (r ∷ rs)
unfolding merge_next AreMerged
merge_next-clean r [] e m = ap (λ q. some (q ∷ [])) (set_clean r e)
merge_next-clean r (q ∷ qs) e m = rw m.0 (ap (λ c. some (c ∷ q ∷ qs)) (set_clean r e))

-- The two parts of a range are merged again.
merge_next-split :
    (front back r : MemRange) (rs : List MemRange)
    → front.is_dirty ≡ false
    → back.is_dirty ≡ false
    → front.end + 1 ≡ back.offset
    → record front { size = front.size + back.size; end = back.end } ≡ r
    → merge_next front (back ∷ rs) ≡ some (r ∷ rs)
unfolding merge_next
merge_next-split front back r rs e e' behind whole =
    let joined = merge_contiguous_range-done front back e e' behind in
    rw joined (rw e' (ap (λ c. some (c ∷ rs)) whole))

restore_here :
    (page need : ℕ) (r : MemRange) (rs : List MemRange)
    → 0 < need
    → is_applicable need r ≡ true
    → IsRange r
    → AreMerged true rs
    → free r.offset (alloc_in_free_range page need r ++ rs) ≡ some (r ∷ rs)
unfolding alloc_in_free_range free
restore_here page need r rs pos ok w m =
    let clean : r.is_dirty ≡ false = ground arith in
    let at : (r.offset == r.offset) ≡ true = ground arith in
    elim (Bool-cases (ltb (r.size - need) page)) [
      | inl e ↦ rw e (rw at (merge_next-clean r rs clean m))
      | inr e ↦
          let back : MemRange = record r {
            offset = r.offset + need - 1 + 1;
            size = r.size - need;
          } in
          let sum : need + (r.size - need) ≡ r.size = ground arith in
          rw e (
            rw at (
              merge_next-split (new_range r.offset need) back r rs refl clean refl
                (rw sum (set_clean r clean))))
    ]

-- A range in front of a range that is free again is not merged with it: they were not neighbours
-- that are free.
merge_pre-kept :
    (p : MemRange) (rs : List MemRange)
    → AreMerged (not p.is_dirty) rs
    → is_free_first rs ≡ true
    → merge_pre p rs ≡ some (p ∷ rs)
unfolding merge_pre AreMerged
merge_pre-kept p [] m f = refl
merge_pre-kept p (q ∷ qs) m f = ground (arith, m.0)

restore_later :
    (lo a : ℕ) (r : MemRange) (rs rest : List MemRange)
    → r.offset ≡ lo
    → IsRange r
    → lo + r.size ≤ a
    → AreMerged (not r.is_dirty) rs
    → free a rest ≡ some rs
    → (is_target a rest ≡ true → is_free_first rs ≡ true)
    → free a (r ∷ rest) ≡ some (r ∷ rs)
unfolding free
restore_later lo a r rs rest at w above m back first =
    let other : (r.offset == a) ≡ false = ground (arith, w.filled) in
    rw other (
      rw back (
        if_elim (λ (o : Option (List MemRange)). o ≡ some (r ∷ rs)) (is_target a rest)
          (λ e. merge_pre-kept r rs m (first e)) (λ e. refl)))

alloc_first-Restores :
    (rs : List MemRange) (lo hi page need : ℕ) (before : Bool)
    → 0 < need
    → IsTiled lo hi rs
    → AreMerged before rs
    → Restores lo rs (alloc_first page need rs)
unfolding alloc_first IsTiled AreMerged
alloc_first-Restores [] lo hi page need before pos t m = refused refl
alloc_first-Restores (r ∷ rs) lo hi page need before pos (o, w, t) m =
    if_elim (Restores lo (r ∷ rs)) (is_applicable need r)
      (λ e.
        let clean : r.is_dirty ≡ false = ground arith in
        granted r.offset (alloc_in_free_range page need r ++ rs) refl (omega arith)
          (restore_here page need r rs pos e w (subst (λ d. AreMerged (not d) rs) clean m.1))
          (λ e'. rw clean refl))
      (λ e. elim (alloc_first-Restores rs (lo + r.size) hi page need (not r.is_dirty) pos t m.1) [
        | refused none_there ↦ refused (rw none_there refl)
        | granted a rest found above back first ↦
            granted a (r ∷ rest) (rw found refl) (omega arith)
              (restore_later lo a r rs rest o w above m.1 back first)
              (λ e'. absurd (ground (arith, w.filled)))
      ])

-- In a tiled and merged region, what `calloc` takes and `free` gives back leaves the ranges as they
-- were.
pub free-calloc :
    (rs rest : List MemRange) (lo hi page nmemb size a : ℕ)
    → 0 < page
    → nmemb * size + page ≤ 2 ^ 64
    → IsTiled lo hi rs
    → AreMerged false rs
    → calloc page nmemb size rs ≡ some (a, rest)
    → free a rest ≡ some rs
unfolding calloc
free-calloc rs rest lo hi page nmemb size a pos small t m h =
    let (enough, whole, some_page) = size_needed_lem page nmemb size pos small in
    elim (alloc_first-Restores rs lo hi page (size_needed page nmemb size) false some_page t m) [
      | refused none_there ↦ cc
      | granted a' rest' found above back first ↦ cc
    ]
