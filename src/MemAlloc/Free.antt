-- ===== src/MemAlloc/Free.antt =====
-- What `free` of utils/mem_allocator.cpp gives back to the region.
use ros2_perception.MemAlloc.{
  MemRange, merge_contiguous_range, merge_next, merge_pre, is_target, free,
}
use ros2_perception.MemAlloc.Region.{IsRange, IsTiled, AreMerged, is_inside, is_taken}
use ros2_perception.MemAlloc.Calloc.{is_taken-below}
use ros2_perception.Prelude.{
  ℕ, ◌+◌, ◌≤◌, ◌<◌, ◌≡◌, refl, sym, ◌∙◌, Bool, true, false, not, ◌&&◌, ◌||◌, Option, none, some,
  List, [], ◌∷◌, ◌==◌, if◌then◌else◌, if_elim, subst, Bool-cases, inl, inr, arith,
}

-- Whether `n` bytes are allocated at `a`.
unfoldable pub is_allocated : ℕ → ℕ → List MemRange → Bool
is_allocated a n [] = false
is_allocated a n (r ∷ rs) = (r.offset == a && (r.size == n && r.is_dirty)) || is_allocated a n rs

abbrev pub is_free_first : List MemRange → Bool
is_free_first [] = true
is_free_first (r ∷ rs) = not r.is_dirty

-- The answer of a call that frees `n` bytes at `a`: these are free then, nothing else changes, and
-- neighbours that are free have been merged, but for the range in front.
record Frees (before : Bool) (a n lo hi : ℕ) (rs : List MemRange) (o : Option (List MemRange))
    : Type 0 where
  rest : List MemRange
  answer : o ≡ some rest
  tiled : IsTiled lo hi rest
  merged : AreMerged (if is_target a rs then false else before) rest
  first : is_target a rs ≡ true → is_free_first rest ≡ true
  taken : (x : ℕ) → is_taken rest x ≡ (is_taken rs x && not (is_inside a (a + n) x))

is_allocated-below :
    (rs : List MemRange) (a n lo hi : ℕ) → IsTiled lo hi rs → a < lo → is_allocated a n rs ≡ false
unfolding IsTiled is_allocated
is_allocated-below [] a n lo hi t h = refl
is_allocated-below (r ∷ rs) a n lo hi (o, w, t) h =
    ground (arith, is_allocated-below rs a n (lo + r.size) hi t)

pub merge_contiguous_range-done :
    (r n : MemRange)
    → r.is_dirty ≡ false
    → n.is_dirty ≡ false
    → r.end + 1 ≡ n.offset
    → merge_contiguous_range r n ≡ some (record r { size = r.size + n.size; end = n.end })
unfolding merge_contiguous_range
merge_contiguous_range-done r n h h' e = ground arith

-- The range that is freed is the first: what it is merged with is the range behind it.
free_first :
    (before : Bool) (a n lo hi : ℕ) (r : MemRange) (rs : List MemRange)
    → r.offset ≡ a
    → r.size ≡ n
    → r.is_dirty ≡ true
    → r.offset ≡ lo
    → IsRange r
    → IsTiled (lo + r.size) hi rs
    → AreMerged false rs
    → Frees before a n lo hi (r ∷ rs) (merge_next (record r { is_dirty = false }) rs)
unfolding merge_next IsTiled AreMerged is_taken
free_first before a n lo hi r [] at sized dirty o w t m =
    let target : (r.offset == a) ≡ true = ground arith in
    record {
      rest = (record r { is_dirty = false }) ∷ [];
      answer = refl;
      tiled = (o, record { ended = w.ended; filled = w.filled }, t);
      merged = rw target (refl, tt);
      first = λ e. refl;
      taken = λ x. ground arith;
    }
free_first before a n lo hi r (q ∷ qs) at sized dirty o w (o', w', t) m =
    let target : (r.offset == a) ≡ true = ground arith in
    let above = λ (x : ℕ). is_taken-below qs (lo + r.size + q.size) hi x t in
    elim (Bool-cases q.is_dirty) [
      | inl e ↦ record {
        rest = (record r { is_dirty = false }) ∷ q ∷ qs;
        answer = rw e refl;
        tiled = (o, record { ended = w.ended; filled = w.filled }, (o', w', t));
        merged = rw target (refl, (rw e refl, m.1));
        first = λ e'. refl;
        taken = λ x. ground (arith, above x);
      }
      | inr e ↦
          let freed : MemRange = record r { is_dirty = false } in
          let sum : lo + (r.size + q.size) ≡ lo + r.size + q.size = omega arith in
          let joined = merge_contiguous_range-done freed q refl e (omega (arith, w.ended)) in
          record {
            rest = (record freed { size = r.size + q.size; end = q.end }) ∷ qs;
            answer = rw joined (rw e refl);
            tiled = (
              o,
              record { ended = omega (arith, w'.ended); filled = omega (arith, w.filled) },
              rw sum t,
            );
            merged = rw target (refl, subst (λ d. AreMerged (not d) qs) e m.1);
            first = λ e'. refl;
            taken = λ x. ground (arith, above x);
          }
    ]

-- A range `p` in front of a free range: they are merged if `p` is free.
merge_pre_lem :
    (before : Bool) (lo hi : ℕ) (p : MemRange) (rest : List MemRange)
    → p.offset ≡ lo
    → IsRange p
    → (before && not p.is_dirty) ≡ false
    → IsTiled (lo + p.size) hi rest
    → AreMerged false rest
    → is_free_first rest ≡ true
    → (final : List MemRange) × (merge_pre p rest ≡ some final)
      × IsTiled lo hi final
      × AreMerged before final
      × ((x : ℕ) → is_taken final x ≡ is_taken (p ∷ rest) x)
unfolding IsTiled AreMerged is_taken merge_pre
merge_pre_lem before lo hi p [] at w b t m f = (p ∷ [], refl, (at, w, t), (b, tt), λ x. refl)
merge_pre_lem before lo hi p (q ∷ qs) at w b (o, w', t) m f =
    let clean : q.is_dirty ≡ false = ground arith in
    elim (Bool-cases p.is_dirty) [
      | inl e ↦ (p ∷ q ∷ qs, rw e refl, (at, w, (o, w', t)), (b, (ground arith, m.1)), λ x. refl)
      | inr e ↦
          let sum : lo + (p.size + q.size) ≡ lo + p.size + q.size = omega arith in
          let joined = merge_contiguous_range-done p q e clean (omega (arith, w.ended)) in
          (
            (record p { size = p.size + q.size; end = q.end }) ∷ qs,
            rw joined (ground arith),
            (
              at,
              record { ended = omega (arith, w'.ended); filled = omega (arith, w.filled) },
              rw sum t,
            ),
            (b, subst (λ d. AreMerged (not d) qs) (clean ∙ sym e) m.1),
            λ x. ground arith,
          )
    ]

-- A range `p` in front of what has been freed.
free_behind :
    (before : Bool) (a n lo hi : ℕ) (p : MemRange) (rs : List MemRange) (o : Option (List MemRange))
    → p.offset ≡ lo
    → IsRange p
    → (before && not p.is_dirty) ≡ false
    → lo + p.size ≤ a
    → Frees (not p.is_dirty) a n (lo + p.size) hi rs o
    → Frees before a n lo hi (p ∷ rs) (elim o [
      | none ↦ none
      | some freed ↦ if is_target a rs then merge_pre p freed else some (p ∷ freed)
    ])
unfolding IsTiled AreMerged is_taken
free_behind before a n lo hi p rs o at w b above f =
    let other : (p.offset == a) ≡ false = ground (arith, w.filled) in
    let m = f.merged in
    elim (Bool-cases (is_target a rs)) [
      | inl e ↦
          let (final, answer, tiled, merged, taken) =
            merge_pre_lem before lo hi p f.rest at w b f.tiled
              (subst (λ t. AreMerged (if t then false else not p.is_dirty) f.rest) e f.merged)
              (f.first e) in
          record {
            rest = final;
            answer = rw f.answer (rw e answer);
            tiled = tiled;
            merged = rw other merged;
            first = λ e'. absurd (ground arith);
            taken = λ x. ground (arith, taken x, f.taken x);
          }
      | inr e ↦ record {
        rest = p ∷ f.rest;
        answer = rw f.answer (rw e refl);
        tiled = (at, w, f.tiled);
        merged =
            rw other
              (b, subst (λ t. AreMerged (if t then false else not p.is_dirty) f.rest) e f.merged);
        first = λ e'. absurd (ground arith);
        taken = λ x. ground (arith, f.taken x);
      }
    ]

-- `free` of what is allocated at `a`, in a region that is tiled and merged.
free-Frees :
    (rs : List MemRange) (before : Bool) (a n lo hi : ℕ)
    → IsTiled lo hi rs
    → AreMerged before rs
    → is_allocated a n rs ≡ true
    → Frees before a n lo hi rs (free a rs)
unfolding free IsTiled AreMerged is_allocated
free-Frees [] before a n lo hi t m h = cc
free-Frees (r ∷ rs) before a n lo hi (o, w, t) m h = elim (Bool-cases (r.offset == a)) [
  | inl e ↦
      let none_behind = is_allocated-below rs a n (lo + r.size) hi t (ground (arith, w.filled)) in
      let dirty : r.is_dirty ≡ true = ground arith in
      rw e (
        free_first before a n lo hi r rs (ground arith) (ground arith) dirty o w t
          (subst (λ d. AreMerged (not d) rs) dirty m.1))
  | inr e ↦
      let there : is_allocated a n rs ≡ true = ground arith in
      let above : lo + r.size ≤ a = ground (arith, is_allocated-below rs a n (lo + r.size) hi t) in
      rw e (
        free_behind before a n lo hi r rs (free a rs) o w m.0 above
          (free-Frees rs (not r.is_dirty) a n (lo + r.size) hi t m.1 there))
]

-- In a tiled and merged region, `free` of what is allocated at an address frees exactly those bytes,
-- and the region stays tiled and merged.
pub free_exact :
    (rs : List MemRange) (a n lo hi : ℕ)
    → IsTiled lo hi rs
    → AreMerged false rs
    → is_allocated a n rs ≡ true
    → (rest : List MemRange) × (free a rs ≡ some rest)
      × IsTiled lo hi rest
      × AreMerged false rest
      × ((x : ℕ) → is_taken rest x ≡ (is_taken rs x && not (is_inside a (a + n) x)))
free_exact rs a n lo hi t m h =
    let f = free-Frees rs false a n lo hi t m h in
    (
      f.rest,
      f.answer,
      f.tiled,
      if_elim (λ b. AreMerged b f.rest → AreMerged false f.rest) (is_target a rs) (λ e m. m)
          (λ e m. m) f.merged,
      f.taken,
    )
