-- ===== src/Read/Counters/Counted.antt =====
-- The answers and counts that streams of running numbers should get from the tests of
-- sdk_client/stage_client_read.cpp.
use ros2_perception.Read.Counters.{count_if, verify_counter_process}
use ros2_perception.Read.Counters.Ring.{ring_distance, verify_counter_process_lem}
use ros2_perception.Prelude.{
  ℕ, ◌+◌, ◌^◌, ◌<◌, ◌≡◌, refl, ap, Bool, true, false, not, List, [], ◌∷◌, ◌==◌, ltb, if◌then◌else◌,
  if_elim, subst, arith,
}

-- What the answers and counts should be, for numbers of 16 bits after `last`.
unfoldable pub are_new : ℕ → List ℕ → List Bool
are_new last [] = []
are_new last (i ∷ is) = not (i == last) ∷ are_new i is

unfoldable pub repeats : ℕ → List ℕ → ℕ
repeats last [] = 0
repeats last (i ∷ is) = (if i == last then 1 else 0) + repeats i is

unfoldable pub jumps : ℕ → List ℕ → ℕ
jumps last [] = 0
jumps last (i ∷ is) = (if ltb 3 (ring_distance i last) then 1 else 0) + jumps i is

-- The answers and counts of a run that started with the counts `r` and `j`.
unfoldable pub IsCounted : ℕ → ℕ → ℕ → List ℕ → List Bool → ℕ → ℕ → Type 0
IsCounted last r j is answers r' j' =
    (answers ≡ are_new last is) × (r' ≡ r + repeats last is) × (j' ≡ j + jumps last is)

pub IsCounted-none : (last r j : ℕ) → IsCounted last r j [] [] r j
unfolding IsCounted are_new repeats jumps
IsCounted-none last r j = (refl, omega arith, omega arith)

IsCounted-self :
    (last r r1 j : ℕ) (is : List ℕ) (answers : List Bool) (r' j' : ℕ)
    → r1 ≡ r + 1
    → IsCounted last r1 j is answers r' j'
    → IsCounted last r j (last ∷ is) (false ∷ answers) r' j'
unfolding IsCounted are_new repeats jumps
IsCounted-self last r r1 j is answers r' j' e (a, b, c) =
    let self : (last == last) ≡ true = ground arith in
    (rw self (ap (λ bs. false ∷ bs) a), rw self (omega (arith, b, e)), ground (arith, c))

pub IsCounted-same :
    (last i r r1 j : ℕ) (is : List ℕ) (answers : List Bool) (r' j' : ℕ)
    → (i == last) ≡ true
    → r1 ≡ r + 1
    → IsCounted last r1 j is answers r' j'
    → IsCounted last r j (i ∷ is) (false ∷ answers) r' j'
IsCounted-same last i r r1 j is answers r' j' e e' h =
    let same : last ≡ i = ground arith in
    subst (λ k. IsCounted last r j (k ∷ is) (false ∷ answers) r' j') same
      (IsCounted-self last r r1 j is answers r' j' e' h)

pub IsCounted-new :
    (last i r j j1 : ℕ) (is : List ℕ) (answers : List Bool) (r' j' : ℕ)
    → (i == last) ≡ false
    → j1 ≡ (if ltb 3 (ring_distance i last) then j + 1 else j)
    → IsCounted i r j1 is answers r' j'
    → IsCounted last r j (i ∷ is) (true ∷ answers) r' j'
unfolding IsCounted are_new repeats jumps
IsCounted-new last i r j j1 is answers r' j' e e' (a, b, c) =
    (rw e (ap (λ bs. true ∷ bs) a), rw e (omega (arith, b)), ground (arith, c, e'))

pub count_if-jump :
    (i last n : ℕ)
    → i < 2 ^ 16
    → last < 2 ^ 16
    → n + 1 < 2 ^ 64
    → count_if (verify_counter_process i last) n
      ≡ (if ltb 3 (ring_distance i last) then n + 1 else n)
count_if-jump i last n h h' small = rw (verify_counter_process_lem i last h h') (
    if_elim (λ (k : ℕ). count_if (ltb 3 (ring_distance i last)) n ≡ k)
      (ltb 3 (ring_distance i last)) (λ e. rw e (ground arith)) (λ e. rw e refl))
