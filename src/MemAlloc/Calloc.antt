-- ===== src/MemAlloc/Calloc.antt =====
-- What `calloc` of utils/mem_allocator.cpp takes from the region.
use ros2_perception.MemAlloc.{
  MemRange, new_range, size_needed, alloc_in_free_range, is_applicable, alloc_first, calloc,
}
use ros2_perception.MemAlloc.Region.{IsRange, IsTiled, AreMerged, is_inside, is_taken}
use native.Mathlib.Nat.{mod-lt, mod_self, mod-eq_of_lt, mul-mod_right, div-add-mod}
use ros2_perception.Prelude.{
  ◌/◌, ℕ, ◌+◌, ◌-◌, ◌*◌, ◌%◌, ◌^◌, ◌≤◌, ◌<◌, ◌≡◌, refl, sym, Bool, true, false, not, ◌&&◌, ◌||◌,
  Option, none, some, List, [], ◌∷◌, ◌++◌, ltb, if_elim, subst, Bool-cases, inl, inr, arith,
}

-- No range is free and large enough.
unfoldable pub HasNoRoom : ℕ → List MemRange → Type 0
HasNoRoom need [] = Unit
HasNoRoom need (r ∷ rs) = (is_applicable need r ≡ false) × HasNoRoom need rs

-- The answer of an allocation of `need` bytes. If it is granted, the address is that of bytes that were
-- free; they are taken now, and nothing else changes; less than a page is taken over the need.
pub data Allocates (before : Bool) (lo hi page need : ℕ) (rs : List MemRange)
    (o : Option (ℕ × List MemRange)) : Type 0 where
  refused : o ≡ none → HasNoRoom need rs → Allocates before lo hi page need rs o
  granted :
      (a got : ℕ) (rest : List MemRange)
      → o ≡ some (a, rest)
      → need ≤ got
      → got < need + page
      → lo ≤ a
      → IsTiled lo hi rest
      → AreMerged before rest
      → ((x : ℕ) → (is_inside a (a + got) x && is_taken rs x) ≡ false)
      → ((x : ℕ) → is_taken rest x ≡ (is_inside a (a + got) x || is_taken rs x))
      → Allocates before lo hi page need rs o

pub is_taken-below :
    (rs : List MemRange) (lo hi x : ℕ) → IsTiled lo hi rs → x < lo → is_taken rs x ≡ false
unfolding IsTiled is_taken
is_taken-below [] lo hi x t h = refl
is_taken-below (r ∷ rs) lo hi x (o, w, t) h = ground (arith, is_taken-below rs (lo + r.size) hi x t)

AreMerged-false : (rs : List MemRange) (before : Bool) → AreMerged before rs → AreMerged false rs
unfolding AreMerged
AreMerged-false [] before m = tt
AreMerged-false (r ∷ rs) before m = (refl, m.1)

-- A free range is taken, whole or in front.
alloc_here :
    (before : Bool) (page need hi : ℕ) (r : MemRange) (rs : List MemRange)
    → 0 < need
    → 0 < page
    → is_applicable need r ≡ true
    → IsRange r
    → IsTiled (r.offset + r.size) hi rs
    → AreMerged before (r ∷ rs)
    → Allocates before r.offset hi page need
        (r ∷ rs)
        (some (r.offset, alloc_in_free_range page need r ++ rs))
unfolding alloc_in_free_range IsTiled AreMerged is_taken
alloc_here before page need hi r rs pos pos' ok w t m =
    elim (Bool-cases (ltb (r.size - need) page)) [
      | inl e ↦ rw e (
          granted r.offset r.size ((record r { is_dirty = true }) ∷ rs) refl (ground arith)
            (ground arith) (omega arith) (refl, record { ended = w.ended; filled = w.filled }, t)
            (ground arith, AreMerged-false rs (not r.is_dirty) m.1)
            (λ x. ground (arith, is_taken-below rs (r.offset + r.size) hi x t)) (λ x. ground arith))
      | inr e ↦
          let left : r.offset + need + (r.size - need) ≡ r.offset + r.size = ground arith in
          rw e (
            granted r.offset need
              ((record (new_range r.offset need) { is_dirty = true })
                ∷ (record r { offset = r.offset + need - 1 + 1; size = r.size - need })
                ∷ rs)
              refl (ground arith) (ground arith) (omega arith)
              (
                refl,
                record { ended = omega arith; filled = pos },
                (
                  omega arith,
                  record { ended = ground (arith, w.ended); filled = ground arith },
                  subst (λ l. IsTiled l hi rs) (sym left) t,
                ),
              )
              (ground arith, (refl, m.1))
              (λ x. ground (arith, is_taken-below rs (r.offset + r.size) hi x t))
              (λ x. ground arith))
    ]

alloc_later :
    (before : Bool) (page need lo hi : ℕ) (r : MemRange) (rs : List MemRange)
    (o : Option (ℕ × List MemRange))
    → is_applicable need r ≡ false
    → (before && not r.is_dirty) ≡ false
    → r.offset ≡ lo
    → IsRange r
    → Allocates (not r.is_dirty) (lo + r.size) hi page need rs o
    → Allocates before lo hi page need
        (r ∷ rs)
        (elim o [ none ↦ none | some found ↦ some (found.0, r ∷ found.1) ])
unfolding IsTiled HasNoRoom AreMerged is_taken
alloc_later before page need lo hi r rs o ok b at w (refused e none_fits) =
    rw e (refused refl (ok, none_fits))
alloc_later before page need lo hi r rs o ok b at w
      (granted a got rest e enough slack above tiled merged fresh taken) =
    rw e (
      granted a got (r ∷ rest) refl enough slack (omega arith) (at, w, tiled) (b, merged)
        (λ x. ground (arith, fresh x)) (λ x. ground (arith, taken x)))

-- The first range that is free and large enough is found.
pub alloc_first-Allocates :
    (rs : List MemRange) (before : Bool) (lo hi page need : ℕ)
    → 0 < need
    → 0 < page
    → IsTiled lo hi rs
    → AreMerged before rs
    → Allocates before lo hi page need rs (alloc_first page need rs)
unfolding alloc_first IsTiled HasNoRoom AreMerged
alloc_first-Allocates [] before lo hi page need pos pos' t m = refused refl tt
alloc_first-Allocates (r ∷ rs) before lo hi page need pos pos' (o, w, t) m =
    if_elim (Allocates before lo hi page need (r ∷ rs)) (is_applicable need r)
      (λ e.
        subst
          (λ l.
            Allocates before l hi page need (r ∷ rs)
              (some (r.offset, alloc_in_free_range page need r ++ rs)))
          o
          (alloc_here before page need hi r rs pos pos' e w
            (subst (λ l. IsTiled (l + r.size) hi rs) (sym o) t) m))
      (λ e.
        alloc_later before page need lo hi r rs (alloc_first page need rs) e m.0 o w
          (alloc_first-Allocates rs (not r.is_dirty) (lo + r.size) hi page need pos pos' t m.1))

whole_pages : (u page : ℕ) → (u - u % page) % page ≡ 0
whole_pages u page =
    let e : u - u % page ≡ page * (u / page) = omega (arith, div-add-mod u page) in
    rw e (mul-mod_right page (u / page))

-- Without an overflow of the request `n`: whole pages, at least one, for what is asked for.
pub size_needed_lem :
    (page nmemb size : ℕ)
    → 0 < page
    → nmemb * size + page ≤ 2 ^ 64
    → (nmemb * size ≤ size_needed page nmemb size)
      × (size_needed page nmemb size % page ≡ 0)
      × (0 < size_needed page nmemb size)
unfolding size_needed
size_needed_lem page nmemb size pos small =
    let n : ℕ = nmemb * size in
    let u : ℕ = n + (page - 1) in
    let e : n % 2 ^ 64 ≡ n = mod-eq_of_lt (omega arith) in
    let e' : u % 2 ^ 64 ≡ u = mod-eq_of_lt (omega arith) in
    let below = mod-lt u pos in
    rw (e, e')
      (if_elim (λ (k : ℕ). (n ≤ k) × (k % page ≡ 0) × (0 < k)) (ltb (u - u % page) page)
        (λ h. (ground arith, mod_self page, pos))
        (λ h. (ground arith, whole_pages u page, ground arith)))

-- `calloc` in a tiled and merged region, for a request that does not overflow: it takes whole pages
-- that were free, enough for the request, and the region stays tiled and merged; or no free range has
-- as many.
pub calloc-Allocates :
    (rs : List MemRange) (lo hi page nmemb size : ℕ)
    → 0 < page
    → nmemb * size + page ≤ 2 ^ 64
    → IsTiled lo hi rs
    → AreMerged false rs
    → (nmemb * size ≤ size_needed page nmemb size)
      × (size_needed page nmemb size % page ≡ 0)
      × Allocates false lo hi page (size_needed page nmemb size) rs (calloc page nmemb size rs)
unfolding calloc
calloc-Allocates rs lo hi page nmemb size pos small t m =
    let (enough, whole, some_page) = size_needed_lem page nmemb size pos small in
    (
      enough,
      whole,
      alloc_first-Allocates rs false lo hi page (size_needed page nmemb size) some_page pos t m,
    )
