-- ===== src/LogStorm/Rate.antt =====
-- How a line that repeats is thinned out.
use ros2_perception.Prelude.{
  ℕ, suc, ◌+◌, ◌*◌, ◌%◌, ◌^◌, ◌<◌, ◌≤◌, ◌≡◌, refl, sym, dec_lt, ◌⊎◌, inl, inr, Bool, false, ◌==◌,
  if◌then◌else◌, Bool-cases, Key, find, some, ◌∷◌, [], ◌++◌, length, get_or, set, get_or-set_self,
  ap, ◌∙◌, subst, if_elim, arith,
}
use native.Mathlib.Nat.{pow-suc, mul-mod_right}
use ros2_perception.LogStorm.{
  Node, Lru, new_node, reset, is_stale, count_call, refresh, remove, check,
}

-- After `k` steps of thinning: one line in 10 ^ k is printed, until the count reaches 10 ^ (k + 1).
pub record IsThinned (n : Node) (k : ℕ) : Type 0 where
  pub every : n.interval ≡ 10 ^ k
  pub until : n.target ≡ 10 ^ k * 10
  pub below : n.count < n.target
  pub from : (k ≡ 0) ⊎ (10 ^ k ≤ n.count)

-- A count that does not reach the target keeps the rate; one that reaches it divides it by ten.
abbrev pub GoesOn : ℕ → ℕ → Node → Type 0
GoesOn c k r = ((c < 10 ^ k * 10) × IsThinned r k) ⊎ ((c ≡ 10 ^ k * 10) × IsThinned r (suc k))

from_suc : (c k : ℕ) → (k ≡ 0) ⊎ (10 ^ k ≤ c) → (k ≡ 0) ⊎ (10 ^ k ≤ c + 1)
from_suc c k (inl e) = inl e
from_suc c k (inr h) = inr (omega (arith, h))

-- The target is a multiple of the interval.
before_target :
    (n : Node) (k : ℕ)
    → IsThinned n k
    → ((n.count + 1) % n.interval == 0) ≡ false
    → n.count + 1 < n.target
before_target n k v g = elim (dec_lt (n.count + 1) n.target) [
  | yes lt ↦ lt
  | no ge ↦
      let e : n.count + 1 ≡ 10 ^ k * 10 = omega (arith, ge, v.below, v.until) in
      cc (rw (e, v.every, mul-mod_right (10 ^ k) 10) at g)
]

count_call_lem :
    (n : Node) (k now_ms : ℕ)
    → IsThinned n k
    → ((count_call n now_ms).0 ≡ ((n.count + 1) % 10 ^ k == 0))
      × GoesOn (n.count + 1) k (count_call n now_ms).1
unfolding count_call
count_call_lem n k now_ms v =
    if_elim
      (λ (r : Bool × Node). (r.0 ≡ ((n.count + 1) % 10 ^ k == 0)) × GoesOn (n.count + 1) k r.1)
      ((n.count + 1) % n.interval == 0)
      (λ g. (
        sym (rw v.every at g),
        elim (dec_lt (n.count + 1) n.target) [
          | yes lt ↦ inl (
            omega (arith, lt, v.until),
            record {
              every = ground (arith, v.every, lt);
              until = ground (arith, v.until, lt);
              below = ground (arith, lt);
              from = from_suc n.count k v.from;
            },
          )
          | no ge ↦ inr (
            omega (arith, ge, v.until, v.below),
            record {
              every = ground (arith, v.every, ge, pow-suc 10 k);
              until = ground (arith, v.until, ge, pow-suc 10 k);
              below = ground (arith, ge, v.below, v.until, pow-suc 10 k);
              from = inr (omega (arith, ge, v.until, pow-suc 10 k));
            },
          )
        ],
      ))
      (λ g.
        let short = before_target n k v g in
        (
          sym (rw v.every at g),
          inl (
            omega (arith, short, v.until),
            record {
              every = v.every;
              until = v.until;
              below = short;
              from = from_suc n.count k v.from;
            },
          ),
        ))

-- The node of a line when its call is counted: a stale line starts anew, with the count 0 and the
-- rate of one in one.
abbrev pub start_count : Node → ℕ → ℕ
start_count n now_ms = if is_stale n now_ms then 0 else n.count

abbrev pub start_rate : Node → ℕ → ℕ → ℕ
start_rate n k now_ms = if is_stale n now_ms then 0 else k

refresh-starts :
    (n : Node) (k now_ms : ℕ)
    → IsThinned n k
    → IsThinned (refresh n now_ms) (start_rate n k now_ms)
      × ((refresh n now_ms).count ≡ start_count n now_ms)
unfolding refresh reset
refresh-starts n k now_ms v = elim (Bool-cases (is_stale n now_ms)) [
  | inl e ↦ rw e (record { every = refl; until = refl; below = omega arith; from = inl refl }, refl)
  | inr e ↦ rw e (v, refl)
]

-- The node after the call, whose count is now `c`, at the rate before it of one in 10 ^ k.
pub Follows : ℕ → ℕ → Node → Type 0
Follows c k r = (r.count ≡ c) × GoesOn c k r

counted : (n : Node) (now_ms : ℕ) → (count_call n now_ms).1.count ≡ n.count + 1
unfolding count_call
counted n now_ms = ground arith

-- A call of a line whose node is there, stale or not: the line is printed exactly if its new count is a
-- multiple of 10 ^ k, where one line in 10 ^ k was printed before it, and the count goes up by 1. It is
-- thinned out further exactly when the count gets to 10 ^ (k + 1). A stale line starts anew: its count
-- goes from 0 and k is 0.
pub check_lem :
    (s : Lru) (key : Key) (i k now_ms : ℕ)
    → find s.key2node key ≡ some i
    → i < length s.nodes
    → IsThinned (get_or s.nodes i (new_node 0)) k
    → let n = get_or s.nodes i (new_node 0) in
      let c = start_count n now_ms + 1 in
      let rate = start_rate n k now_ms in
      (z : Lru) × (check s key now_ms ≡ some (c % 10 ^ rate == 0, (c, z)))
      × Follows c rate (get_or z.nodes i (new_node 0))
unfolding check Follows
check_lem s key i k now_ms found inside v =
    let n = get_or s.nodes i (new_node 0) in
    let m = refresh n now_ms in
    let (w, at_start) = refresh-starts n k now_ms v in
    let (printed, next) = count_call_lem m (start_rate n k now_ms) now_ms w in
    let called = count_call m now_ms in
    let c : called.1.count ≡ start_count n now_ms + 1 =
      counted m now_ms ∙ ap (λ x. x + 1) at_start in
    let z : Lru = record s { nodes = set s.nodes i called.1; list = remove s.list i ++ (i ∷ []) } in
    let print = printed ∙ ap (λ x. (x + 1) % 10 ^ start_rate n k now_ms == 0) at_start in
    let run : check s key now_ms ≡ some (called.0, (called.1.count, z)) = rw (found, check) refl in
    let here = get_or-set_self s.nodes i called.1 (new_node 0) inside in
    (
      z,
      run ∙ (λ j. some (print j, (c j, z))),
      subst (Follows (start_count n now_ms + 1) (start_rate n k now_ms)) (sym here)
          (c, subst (λ x. GoesOn (x + 1) (start_rate n k now_ms) called.1) at_start next),
    )
