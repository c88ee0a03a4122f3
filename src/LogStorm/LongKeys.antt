-- ===== src/LogStorm/LongKeys.antt =====
-- Keys of 256 characters or more: the map holds them cut to 255, so `check` never finds them again
-- and takes a node from the pool each time.
use ros2_perception.Prelude.{
  Key, is_same, find, assign, is_same_refl, ℕ, zero, suc, ◌<◌, ◌≤◌, ◌≡◌, refl, ◌∙◌, ap, inl, inr,
  Bool-cases, true, false, leb, if_elim, ◌⊎◌, Option, none, some, List, [], ◌∷◌, ◌++◌, set, length,
  take, arith,
}
use ros2_perception.LogStorm.{
  Node, new_node, Lru, numbers, new_lru, stored, evict, place, push, check,
}

-- The same line again and again, at the given times.
unfoldable pub check_all : Lru → Key → List ℕ → Option Lru
check_all s key [] = some s
check_all s key (t ∷ ts) = elim (check s key t) [ none ↦ none | some r ↦ check_all r.1.1 key ts ]

is_same-length : (a b : Key) → is_same a b ≡ true → length a ≡ length b
is_same-length [] [] e = refl
is_same-length [] (b ∷ bs) e = cc
is_same-length (a ∷ xs) [] e = cc
is_same-length (a ∷ xs) (b ∷ bs) e = ap suc (is_same-length xs bs (ground (arith, e)))

length-take : (n : ℕ) (xs : Key) → length (take n xs) ≤ n
length-take zero xs = omega arith
length-take (suc n) [] = omega arith
length-take (suc n) (x ∷ xs) = omega (arith, length-take n xs)

stored-length : (key : Key) → 256 ≤ length key → length (stored key) ≤ 255
stored-length key long =
    if_elim (λ (k : Key). length k ≤ 255) (leb 256 (length key)) (λ _. length-take 255 key)
      (λ e. ground (arith, e, long))

stored_other : (key : Key) → 256 ≤ length key → is_same (stored key) key ≡ false
stored_other key long = elim (Bool-cases (is_same (stored key) key)) [
  | inl same ↦
      let e = is_same-length (stored key) key same in
      absurd (omega (arith, e, long, stored-length key long))
  | inr other ↦ other
]

-- The map has at most the one line, by its cut key, and there is room for two.
pub record IsAlone (s : Lru) (key : Key) : Type 0 where
  pub only : (s.key2node ≡ []) ⊎ ((n : ℕ) × (s.key2node ≡ (stored key, n) ∷ []))
  pub room : 2 ≤ s.capacity

find-none : (s : Lru) (key : Key) → 256 ≤ length key → IsAlone s key → find s.key2node key ≡ none
find-none s key long v = elim v.only [
  | inl e ↦ rw e refl
  | inr (n, e) ↦ rw (e, stored_other key long) refl
]

length-entries : (s : Lru) (key : Key) → IsAlone s key → length s.key2node < s.capacity
length-entries s key v = elim v.only [
  | inl e ↦ rw e (omega (arith, v.room))
  | inr (n, e) ↦ rw e (omega (arith, v.room))
]

assign-alone :
    (s : Lru) (key : Key) (p : ℕ)
    → IsAlone s key
    → assign s.key2node (stored key) p ≡ (stored key, p) ∷ []
assign-alone s key p v = elim v.only [
  | inl e ↦ rw e refl
  | inr (n, e) ↦ rw (e, is_same_refl (stored key)) refl
]

evict_none :
    (limit : ℕ) (nodes : List Node) (list : List ℕ) (entries : List (Key × ℕ)) (pool : List ℕ)
    → length entries < limit
    → evict limit nodes list entries pool ≡ some (list, (entries, pool))
unfolding evict
evict_none limit nodes [] entries pool room = ground (arith, room)
evict_none limit nodes (n ∷ list) entries pool room = ground (arith, room)

push-place : (s : Lru) (key : Key) (t : ℕ) → IsAlone s key → push s key t ≡ place s key t
unfolding push
push-place s key t v =
    rw (evict_none s.capacity s.nodes s.list s.key2node s.pool (length-entries s key v), push) refl

-- The call of the line misses the map.
check-push :
    (s : Lru) (key : Key) (t : ℕ) (r : Lru)
    → find s.key2node key ≡ none
    → push s key t ≡ some r
    → check s key t ≡ some (true, (0, r))
unfolding check
check-push s key t r missed pushed = rw (missed, pushed, check) refl

check-next :
    (s : Lru) (key : Key) (t p : ℕ) (rest : List ℕ)
    → 256 ≤ length key
    → IsAlone s key
    → s.pool ≡ p ∷ rest
    → (r : Lru) × (check s key t ≡ some (true, (0, r))) × IsAlone r key × (r.pool ≡ rest)
unfolding place
check-next s key t p rest long v e =
    let r : Lru = record s {
      nodes = set s.nodes p (record (new_node t) { key = stored key; count = 1 });
      key2node = assign s.key2node (stored key) p;
      list = s.list ++ (p ∷ []);
      pool = rest;
    } in
    let placed : place s key t ≡ some r = simp (e, place) refl in
    (
      r,
      check-push s key t r (find-none s key long v) (push-place s key t v ∙ placed),
      record { only = inr (p, assign-alone s key p v); room = v.room },
      refl,
    )

check-last :
    (s : Lru) (key : Key) (t : ℕ)
    → 256 ≤ length key
    → IsAlone s key
    → s.pool ≡ []
    → check s key t ≡ none
unfolding check place
check-last s key t long v e =
    let placed : place s key t ≡ none = simp (e, place) refl in
    rw (find-none s key long v, push-place s key t v, placed, check) refl

drained :
    (pool times : List ℕ) (s : Lru) (key : Key)
    → 256 ≤ length key
    → IsAlone s key
    → s.pool ≡ pool
    → length pool < length times
    → check_all s key times ≡ none
unfolding check_all
drained pool [] s key long v e less = absurd (omega (arith, less))
drained [] (t ∷ times) s key long v e less = rw (check-last s key t long v e, check_all) refl
drained (p ∷ rest) (t ∷ times) s key long v e less =
    let (r, step, w, left) = check-next s key t p rest long v e in
    rw (step, check_all) (drained rest times r key long w left (omega (arith, less)))

length-numbers : (i n : ℕ) → length (numbers i n) ≡ n
length-numbers i zero = refl
length-numbers i (suc n) = ap suc (length-numbers (suc i) n)

-- A controller for two lines or more aborts when it is called more often than its capacity, each
-- time with the same line, of 256 characters or more.
pub check_all-long :
    (capacity : ℕ) (key : Key) (times : List ℕ)
    → 2 ≤ capacity
    → 256 ≤ length key
    → capacity < length times
    → check_all (new_lru capacity) key times ≡ none
unfolding new_lru
check_all-long capacity key times room long more =
    drained (numbers 0 capacity) times (new_lru capacity) key long
      (record { only = inl refl; room = room }) refl
      (omega (arith, more, length-numbers 0 capacity))
