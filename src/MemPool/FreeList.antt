-- ===== src/MemPool/FreeList.antt =====
-- The free units of a pool as a list, in the order in which they are handed out.
use ros2_perception.Prelude.{
  ℕ, zero, suc, ◌<◌, ◌≤◌, ◌≡◌, ◌≢◌, refl, sym, ap, ◌∙◌, subst, List, [], ◌∷◌, ◌++◌, Bool, true,
  false, none, some, arith, get_or, set, length, get_or-set_self, get_or-set_ne,
}
use ros2_perception.MemPool.{Index}

-- Following `next` from `i` visits `fs` and ends at -1.
abbrev pub Chain : List Index → Index → List ℕ → Type 0
Chain next i [] = i ≡ none
Chain next i (f ∷ fs) = (i ≡ some f) × Chain next (get_or next f none) fs

-- The last of a free list, -1 if it has none.
abbrev pub last_of : List ℕ → Index
last_of [] = none
last_of (f ∷ []) = some f
last_of (f ∷ g ∷ fs) = last_of (g ∷ fs)

-- No entry of the list is the unit.
abbrev pub Absent : ℕ → List ℕ → Type 0
Absent i [] = Unit
Absent i (f ∷ fs) = (f ≢ i) × Absent i fs

-- The units of the list lie in the pool, are not in use, and stand in the list once.
abbrev pub AllFree : ℕ → List Bool → List ℕ → Type 0
AllFree n in_use [] = Unit
AllFree n in_use (f ∷ fs) =
    (f < n) × (get_or in_use f false ≡ false) × Absent f fs × AllFree n in_use fs

-- How many units are not in use.
abbrev pub unused : List Bool → ℕ
unused [] = 0
unused (true ∷ bs) = unused bs
unused (false ∷ bs) = suc (unused bs)

pub unused-set-true :
    (bs : List Bool) (i : ℕ)
    → i < length bs
    → get_or bs i false ≡ false
    → unused bs ≡ suc (unused (set bs i true))
unused-set-true [] i h e = absurd (omega arith)
unused-set-true (true ∷ bs) zero h e = cc
unused-set-true (false ∷ bs) zero h e = refl
unused-set-true (true ∷ bs) (suc i) h e = unused-set-true bs i (omega arith) e
unused-set-true (false ∷ bs) (suc i) h e = ap suc (unused-set-true bs i (omega arith) e)

pub unused-le : (bs : List Bool) → unused bs ≤ length bs
unused-le [] = omega arith
unused-le (true ∷ bs) = omega (arith, unused-le bs)
unused-le (false ∷ bs) = omega (arith, unused-le bs)

pub unused-set-false :
    (bs : List Bool) (i : ℕ)
    → get_or bs i false ≡ true
    → (unused (set bs i false) ≡ suc (unused bs)) × (unused bs < length bs)
unused-set-false [] i e = cc
unused-set-false (true ∷ bs) zero e = (refl, omega (arith, unused-le bs))
unused-set-false (false ∷ bs) zero e = cc
unused-set-false (true ∷ bs) (suc i) e = omega (arith, unused-set-false bs i e)
unused-set-false (false ∷ bs) (suc i) e = omega (arith, unused-set-false bs i e)

-- A write to a unit that the chain does not visit leaves the chain.
pub Chain-set :
    (next : List Index) (i : Index) (fs : List ℕ) (f : ℕ) (v : Index)
    → Absent f fs
    → Chain next i fs
    → Chain (set next f v) i fs
Chain-set next i [] f v a c = c
Chain-set next i (g ∷ fs) f v a c = (
  c.0,
  subst (λ j. Chain (set next f v) j fs) (sym (get_or-set_ne next f g v none (λ e. a.0 (sym e))))
      (Chain-set next _ fs f v a.1 c.1),
)

pub Absent-last_of : (f : ℕ) (fs : List ℕ) (l : ℕ) → Absent f fs → last_of fs ≡ some l → l ≢ f
Absent-last_of f [] l a e = cc
Absent-last_of f (g ∷ []) l a e = λ k. a.0 (cc)
Absent-last_of f (g ∷ h ∷ fs) l a e = Absent-last_of f (h ∷ fs) l a.1 e

-- Linking a new unit behind the last extends the chain by it.
pub Chain-append :
    (n : ℕ) (in_use : List Bool) (next : List Index) (i : Index) (f : ℕ) (fs : List ℕ) (l new : ℕ)
    → Absent new (f ∷ fs)
    → AllFree n in_use (f ∷ fs)
    → last_of (f ∷ fs) ≡ some l
    → l < length next
    → get_or next new none ≡ none
    → Chain next i (f ∷ fs)
    → Chain (set next l (some new)) i ((f ∷ fs) ++ (new ∷ []))
Chain-append n in_use next i f [] l new a d e h stop c =
    let same : f ≡ l = cc in
    (
      c.0,
      (
        rw same (get_or-set_self next l (some new) none h),
        get_or-set_ne next l new (some new) none (rw (← same) a.0) ∙ stop,
      ),
    )
Chain-append n in_use next i f (g ∷ fs) l new a d e h stop c =
    let miss : l ≢ f = Absent-last_of f (g ∷ fs) l d.2 e in
    (
      c.0,
      subst (λ j. Chain (set next l (some new)) j ((g ∷ fs) ++ (new ∷ [])))
          (sym (get_or-set_ne next l f (some new) none miss))
          (Chain-append n in_use next _ g fs l new a.1 d.3 e h stop c.1),
    )

pub last_of-append : (fs : List ℕ) (new : ℕ) → last_of (fs ++ (new ∷ [])) ≡ some new
last_of-append [] new = refl
last_of-append (f ∷ []) new = refl
last_of-append (f ∷ g ∷ fs) new = last_of-append (g ∷ fs) new

pub Absent-append :
    (f : ℕ) (fs : List ℕ) (new : ℕ) → Absent f fs → new ≢ f → Absent f (fs ++ (new ∷ []))
Absent-append f [] new a h = (h, tt)
Absent-append f (g ∷ fs) new a h = (a.0, Absent-append f fs new a.1 h)

-- A unit in use is on no list of free ones.
pub AllFree-Absent :
    (n : ℕ) (in_use : List Bool) (fs : List ℕ) (i : ℕ)
    → AllFree n in_use fs
    → get_or in_use i false ≡ true
    → Absent i fs
AllFree-Absent n in_use [] i d e = tt
AllFree-Absent n in_use (f ∷ fs) i d e =
    ((λ same. cc (d.1, ap (λ k. get_or in_use k false) same)), AllFree-Absent n in_use fs i d.3 e)

pub AllFree-set :
    (n : ℕ) (in_use : List Bool) (fs : List ℕ) (i : ℕ) (b : Bool)
    → Absent i fs
    → AllFree n in_use fs
    → AllFree n (set in_use i b) fs
AllFree-set n in_use [] i b a d = tt
AllFree-set n in_use (f ∷ fs) i b a d = (
  d.0,
  get_or-set_ne in_use i f b false (λ e. a.0 (sym e)) ∙ d.1,
  d.2,
  AllFree-set n in_use fs i b a.1 d.3,
)

pub AllFree-append :
    (n : ℕ) (in_use : List Bool) (fs : List ℕ) (new : ℕ)
    → AllFree n in_use fs
    → new < n
    → get_or in_use new false ≡ false
    → Absent new fs
    → AllFree n in_use (fs ++ (new ∷ []))
AllFree-append n in_use [] new d h e a = (h, e, tt, tt)
AllFree-append n in_use (f ∷ fs) new d h e a = (
  d.0,
  d.1,
  Absent-append f fs new d.2 (λ k. a.0 (sym k)),
  AllFree-append n in_use fs new d.3 h e a.1,
)

-- The last of a free list is a free unit of the pool.
pub AllFree-last_of :
    (n : ℕ) (in_use : List Bool) (fs : List ℕ) (l : ℕ)
    → AllFree n in_use fs
    → last_of fs ≡ some l
    → (l < n) × (get_or in_use l false ≡ false)
AllFree-last_of n in_use [] l d e = cc
AllFree-last_of n in_use (f ∷ []) l d e = let same : f ≡ l = cc in rw (← same) (d.0, d.1)
AllFree-last_of n in_use (f ∷ g ∷ fs) l d e = AllFree-last_of n in_use (g ∷ fs) l d.3 e
