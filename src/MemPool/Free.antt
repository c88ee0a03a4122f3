-- ===== src/MemPool/Free.antt =====
-- A unit that comes back goes behind all the free ones.
use ros2_perception.Prelude.{
  ℕ, zero, suc, ◌+◌, ◌<◌, ◌≡◌, ◌≢◌, refl, sym, ap, ◌∙◌, List, [], ◌∷◌, ◌++◌, Bool, true, false,
  none, some, arith, get_or, set, length, length-set, length-append, get_or-set_self, get_or-set_ne,
  ℕ_discrete,
}
use ros2_perception.MemPool.{Index, MemPoolManager, append_unit, free_unit, free}
use ros2_perception.MemPool.FreeList.{
  Absent, unused-set-false, Chain-append, last_of-append, AllFree-last_of, AllFree-Absent,
  AllFree-set, AllFree-append,
}
use ros2_perception.MemPool.Refine.{in_use_at, IsValid, last_of-some}

pub get_or-in : (bs : List Bool) (i : ℕ) → get_or bs i false ≡ true → i < length bs
get_or-in [] i e = cc
get_or-in (b ∷ bs) zero e = omega arith
get_or-in (b ∷ bs) (suc i) e = omega (arith, get_or-in bs i e)

used-ne-unused :
    (bs : List Bool) (i j : ℕ) → get_or bs i false ≡ true → get_or bs j false ≡ false → i ≢ j
used-ne-unused bs i j u v e = cc (u, v, ap (λ k. get_or bs k false) e)

used-before :
    (m : MemPoolManager) (idx i : ℕ)
    → idx < length m.in_use
    → get_or (set m.in_use idx false) i false ≡ true
    → in_use_at m i ≡ true
used-before m idx i inside u = elim (ℕ_discrete idx i) [
  | yes same ↦ cc (
    u,
    ap (λ k. get_or (set m.in_use idx false) k false) same,
    get_or-set_self m.in_use idx false false inside,
  )
  | no other ↦ sym (get_or-set_ne m.in_use idx i false false other) ∙ u
]

stops-link :
    (m : MemPoolManager) (l idx i : ℕ) (v : Index)
    → in_use_at m l ≡ false
    → idx < length m.in_use
    → (in_use_at m i ≡ true → get_or m.next_free i none ≡ none)
    → get_or (set m.in_use idx false) i false ≡ true
    → get_or (set m.next_free l v) i none ≡ none
stops-link m l idx i v free inside old u =
    let before = used-before m idx i inside u in
    get_or-set_ne m.next_free l i v none (λ e. used-ne-unused m.in_use i l before free (sym e))
    ∙ old before

-- The unit after the others, where some are free already.
linked : MemPoolManager → ℕ → ℕ → MemPoolManager
linked m l idx = record m {
  in_use = set m.in_use idx false;
  next_free = set m.next_free l (some idx);
  last_free = some idx;
  free_count = m.free_count + 1;
}

linked-IsValid :
    (m : MemPoolManager) (f : ℕ) (fs : List ℕ) (l idx : ℕ)
    → IsValid m (f ∷ fs)
    → m.last_free ≡ some l
    → in_use_at m idx ≡ true
    → IsValid (linked m l idx) ((f ∷ fs) ++ (idx ∷ []))
unfolding linked
linked-IsValid m f fs l idx v e used =
    let absent : Absent idx (f ∷ fs) =
      AllFree-Absent m.unit_count m.in_use (f ∷ fs) idx v.all_free used in
    let inside : idx < length m.in_use = get_or-in m.in_use idx used in
    let (below, free) =
      AllFree-last_of m.unit_count m.in_use (f ∷ fs) l v.all_free (sym v.ends ∙ e) in
    record {
      use_size = length-set m.in_use idx false ∙ v.use_size;
      link_size = length-set m.next_free l (some idx) ∙ v.link_size;
      chain =
          Chain-append m.unit_count m.in_use m.next_free m.first_free f fs l idx absent v.all_free
            (sym v.ends ∙ e) (omega (arith, v.link_size)) (v.stops idx used) v.chain;
      ends = sym (last_of-append (f ∷ fs) idx);
      all_free =
          AllFree-append m.unit_count (set m.in_use idx false) (f ∷ fs) idx
            (AllFree-set m.unit_count m.in_use (f ∷ fs) idx false absent v.all_free)
            (omega (arith, v.use_size)) (get_or-set_self m.in_use idx false false inside) absent;
      listed = omega (arith, v.listed, length-append (f ∷ fs) (idx ∷ []));
      counted = omega (arith, v.counted, unused-set-false m.in_use idx used);
      stops = λ i. stops-link m l idx i (some idx) free inside (v.stops i);
    }

-- The first free unit of a pool that had none.
alone : MemPoolManager → ℕ → MemPoolManager
alone m idx = record m {
  in_use = set m.in_use idx false;
  last_free = some idx;
  first_free = some idx;
  free_count = m.free_count + 1;
}

alone-IsValid :
    (m : MemPoolManager) (idx : ℕ)
    → IsValid m []
    → in_use_at m idx ≡ true
    → IsValid (alone m idx) (idx ∷ [])
unfolding alone
alone-IsValid m idx v used =
    let inside : idx < length m.in_use = get_or-in m.in_use idx used in
    record {
      use_size = length-set m.in_use idx false ∙ v.use_size;
      link_size = v.link_size;
      chain = (refl, v.stops idx used);
      ends = refl;
      all_free =
          (omega (arith, v.use_size), get_or-set_self m.in_use idx false false inside, tt, tt);
      listed = omega (arith, v.listed);
      counted = omega (arith, v.counted, unused-set-false m.in_use idx used);
      stops = λ i u. v.stops i (used-before m idx i inside u);
    }

-- What `free` of a unit in use gives.
pub record Freed (m : MemPoolManager) (fs : List ℕ) (idx : ℕ) (r : MemPoolManager) : Type 0 where
  pub valid : IsValid r (fs ++ (idx ∷ []))
  pub marks : r.in_use ≡ set m.in_use idx false

room :
    (m : MemPoolManager) (fs : List ℕ) (idx : ℕ)
    → IsValid m fs
    → in_use_at m idx ≡ true
    → m.free_count < m.unit_count
room m fs idx v used = omega (arith, v.counted, v.use_size, unused-set-false m.in_use idx used)

pub free_unit-Freed :
    (m : MemPoolManager) (fs : List ℕ) (idx : ℕ)
    → IsValid m fs
    → in_use_at m idx ≡ true
    → (r : MemPoolManager) × (free_unit m idx ≡ some r) × Freed m fs idx r
free_unit-Freed m [] idx v used = (
  alone m idx,
  unfold free_unit append_unit alone in ground (arith, room m [] idx v used, v.chain, v.ends),
  record { valid = alone-IsValid m idx v used; marks = unfold alone in refl },
)
free_unit-Freed m (f ∷ fs) idx v used =
    let (l, e) = last_of-some f fs in
    (
      linked m l idx,
      unfold free_unit append_unit linked in
          ground (
            arith,
            room m (f ∷ fs) idx v used,
            v.chain,
            v.ends,
            e,
            AllFree-last_of m.unit_count m.in_use (f ∷ fs) l v.all_free,
          ),
      record {
        valid = linked-IsValid m f fs l idx v (v.ends ∙ e) used;
        marks = unfold linked in refl;
      },
    )
