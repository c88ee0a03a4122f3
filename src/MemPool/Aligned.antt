-- ===== src/MemPool/Aligned.antt =====
-- A new pool: its free list, and that its units lie aligned inside the memory obtained.
use Prim.Native.Nat.{bit_and}
use ros2_perception.Prelude.{
  guarded, ℕ, zero, suc, ◌+◌, ◌-◌, ◌*◌, ◌/◌, ◌%◌, ◌^◌, ◌<◌, ◌≤◌, ◌≡◌, ◌≢◌, refl, sym, ap, ◌∙◌,
  subst, List, [], ◌∷◌, false, none, some, arith, get_or, set, length, length-set, length-replicate,
  get_or-set_self, get_or-set_ne, replicate, ◌==◌, ℕ_discrete, ltb, ◌&&◌,
}
use native.Mathlib.Nat.{mod-eq_of_lt, mul-mod_left, lt-div-mul-add, div-mul-le_self}
use ros2_perception.MemPool.{Index, MemPool, new_manager, links, new_pool, round_up, align}
use ros2_perception.MemPool.FreeList.{Chain, last_of, Absent, AllFree, unused}
use ros2_perception.MemPool.Refine.{IsValid}

-- The units from `i` on.
abbrev pub from : ℕ → ℕ → List ℕ
from i zero = []
from i (suc n) = i ∷ from (suc i) n

length-links : (i n : ℕ) → length (links i n) ≡ n
length-links i zero = refl
length-links i (suc n) = ap suc (length-links (suc i) n)

get_or-links : (i n k : ℕ) → k < n → get_or (links i n) k none ≡ some (suc (i + k))
get_or-links i zero k h = absurd (omega arith)
get_or-links i (suc n) zero h = ap (λ x. some (suc x)) (omega arith)
get_or-links i (suc n) (suc k) h =
    get_or-links (suc i) n k (omega arith) ∙ ap (λ x. some (suc x)) (omega arith)

Chain-from :
    (next : List Index) (i n e : ℕ)
    → i + n ≡ e
    → ((k : ℕ) → k < e → get_or next k none ≡ some (suc k))
    → get_or next e none ≡ none
    → Chain next (some i) (from i (suc n))
Chain-from next i zero e h go stop = (refl, ap (λ k. get_or next k none) (omega arith) ∙ stop)
Chain-from next i (suc n) e h go stop = (
  refl,
  subst (λ j. Chain next j (from (suc i) (suc n))) (sym (go i (omega arith)))
      (Chain-from next (suc i) n e (omega arith) go stop),
)

last_of-from : (i n : ℕ) → last_of (from i (suc n)) ≡ some (i + n)
last_of-from i zero = ap some (omega arith)
last_of-from i (suc n) = last_of-from (suc i) n ∙ ap some (omega arith)

Absent-from : (f i n : ℕ) → f < i → Absent f (from i n)
Absent-from f i zero h = tt
Absent-from f i (suc n) h = (λ e. absurd (omega arith), Absent-from f (suc i) n (omega arith))

get_or-replicate : (n i : ℕ) → get_or (replicate n false) i false ≡ false
get_or-replicate zero i = refl
get_or-replicate (suc n) zero = refl
get_or-replicate (suc n) (suc i) = get_or-replicate n i

AllFree-from : (c i n : ℕ) → i + n ≤ c → AllFree c (replicate c false) (from i n)
AllFree-from c i zero h = tt
AllFree-from c i (suc n) h = (
  omega arith,
  get_or-replicate c i,
  Absent-from i (suc i) n (omega arith),
  AllFree-from c (suc i) n (omega arith),
)

unused-replicate : (n : ℕ) → unused (replicate n false) ≡ n
unused-replicate zero = refl
unused-replicate (suc n) = ap suc (unused-replicate n)

length-from : (i n : ℕ) → length (from i n) ≡ n
length-from i zero = refl
length-from i (suc n) = ap suc (length-from (suc i) n)

-- A new pool of at least one unit is valid, and all its units are free, in the order of their
-- addresses.
pub new_manager-IsValid :
    (buffer unit_size n : ℕ) → IsValid (new_manager buffer unit_size (suc n)) (from 0 (suc n))
unfolding new_manager
new_manager-IsValid buffer unit_size n = record {
  use_size = length-replicate (suc n) false;
  link_size = length-set (links 0 (suc n)) (suc n - 1) none ∙ length-links 0 (suc n);
  chain =
      Chain-from (set (links 0 (suc n)) (suc n - 1) none) 0 n n (omega arith)
        (λ k h.
          get_or-set_ne (links 0 (suc n)) (suc n - 1) k none none (omega arith)
          ∙ get_or-links 0 (suc n) k (omega arith)
          ∙ ap (λ x. some (suc x)) (omega arith))
        (subst (λ j. get_or (set (links 0 (suc n)) (suc n - 1) none) j none ≡ none) (omega arith)
          (get_or-set_self (links 0 (suc n)) (suc n - 1) none none
            (omega (arith, length-links 0 (suc n)))));
  ends = sym (last_of-from 0 n ∙ ap some (omega arith));
  all_free = AllFree-from (suc n) 0 (suc n) (omega arith);
  listed = sym (length-from 0 (suc n));
  counted = sym (unused-replicate (suc n));
  stops = λ i u. absurd (cc (u, get_or-replicate (suc n) i));
}

-- What the constructor of `MemPool` promises of the units that it will hand out.
pub record IsPlaced (p : MemPool) (unit_sz unit_nm alignment : ℕ) : Type 0 where
  pub roomy : unit_sz ≤ p.manager.unit_size
  pub multiple : p.manager.unit_size % alignment ≡ 0
  pub aligned : p.aligned_pool % alignment ≡ 0
  pub above : p.memory ≤ p.aligned_pool
  pub within :
      p.aligned_pool + p.manager.unit_size * unit_nm
      ≤ p.memory + p.manager.unit_size * (unit_nm + 1)
  pub start : p.manager.pool ≡ p.aligned_pool

round_up_lem :
    (s a : ℕ)
    → 0 < s
    → 0 < a
    → s + a ≤ 2 ^ 32
    → (s ≤ round_up s a) × (round_up s a % a ≡ 0) × (a ≤ round_up s a)
round_up_lem s a hs ha small =
    let exact : round_up s a ≡ ((s - 1) / a + 1) * a = omega (arith, div-mul-le_self (s - 1) a) in
    (
      rw exact (omega (arith, lt-div-mul-add {a = s - 1} ha)),
      rw exact (mul-mod_left ((s - 1) / a + 1) a),
      rw exact (omega arith),
    )

align_lem :
    (memory a : ℕ)
    → 0 < a
    → memory + a ≤ 2 ^ 64
    → (align memory a % a ≡ 0) × (memory ≤ align memory a) × (align memory a < memory + a)
align_lem memory a ha small = elim (ℕ_discrete (memory % a) 0) [
  | yes e ↦ rw (exact-align e) (e, omega arith, omega arith)
  | no e ↦
      let x = memory + a - 1 in
      let up : align memory a ≡ x / a * a = moved e (mod-eq_of_lt (omega arith)) in
      rw up (
        mul-mod_left (x / a) a,
        omega (arith, lt-div-mul-add {a = x} ha),
        omega (arith, div-mul-le_self x a),
      )
]
  where
    exact-align : memory % a ≡ 0 → align memory a ≡ memory
    exact-align e = ground arith

    moved :
        memory % a ≢ 0
        → (memory + a - 1) % 2 ^ 64 ≡ memory + a - 1
        → align memory a ≡ (memory + a - 1) / a * a
    moved e k = let off : (memory % a == 0) ≡ false = ground arith in rw (off, k)

placed_lem :
    (memory s n a : ℕ)
    → 0 < s
    → 0 < a
    → s + a ≤ 2 ^ 32
    → memory + a ≤ 2 ^ 64
    → IsPlaced
        (record {
          memory = memory;
          aligned_pool = align memory a;
          manager = new_manager (align memory a) (round_up s a) n;
        })
        s
        n
        a
unfolding new_manager
placed_lem memory s n a hs ha small high =
    let (big, whole, one) = round_up_lem s a hs ha small in
    let (on_a, above, near) = align_lem memory a ha high in
    record {
      roomy = big;
      multiple = whole;
      aligned = on_a;
      above = above;
      within = fits n (round_up s a) (align memory a) (omega arith);
      start = refl;
    }
  where
    fits : (n u x : ℕ) → x ≤ memory + u → x + u * n ≤ memory + u * (n + 1)
    fits n u x h = omega arith

-- Where no sum wraps, a `MemPool` that the constructor makes has a valid free list of all its
-- units, in the order of their addresses; they hold what was asked for, start at a multiple of
-- the alignment, which their size is too, and lie inside the memory that the allocator returned.
new_pool_lem :
    (calloc : ℕ → ℕ → ℕ) (unit_sz n alignment : ℕ) (p : MemPool)
    → unit_sz + alignment ≤ 2 ^ 32
    → calloc (suc n + 1) (round_up unit_sz alignment) + alignment ≤ 2 ^ 64
    → new_pool calloc unit_sz (suc n) alignment ≡ some p
    → IsPlaced p unit_sz (suc n) alignment × IsValid p.manager (from 0 (suc n))
unfolding new_pool
new_pool_lem calloc s n a p small high e =
    let (checks, same) =
      guarded
        (ltb 0 s
          && ltb 0 (suc n)
          && ltb 0 a
          && (bit_and a (a - 1) == 0)
          && ltb 0 (calloc (suc n + 1) (round_up s a)))
        e in
    subst (λ (x : MemPool). IsPlaced x s (suc n) a × IsValid x.manager (from 0 (suc n))) same
      (placed_lem _ s (suc n) a (ground arith) (ground arith) small high, new_manager-IsValid _ _ n)
