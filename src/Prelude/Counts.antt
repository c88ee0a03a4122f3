-- ===== src/Prelude/Counts.antt =====
-- How often an address stands in a list, and what holds of a result that may be missing.
use Prim.Native.Nat.{ℕ, ◌+◌}
use mathlib.Core.Path.{◌≡◌}
use mathlib.Core.List.{List, [], ◌∷◌, ◌++◌}
use mathlib.Core.Option.{Option, none, some}
use native.Mathlib.Omega.{arith}
use ros2_perception.Prelude.Tests.{◌==◌, if◌then◌else◌}

abbrev pub one : ℕ → ℕ → ℕ
one b a = if a == b then 1 else 0

-- How often an address stands in a list.
unfoldable pub count : ℕ → List ℕ → ℕ
count b [] = 0
count b (a ∷ as') = one b a + count b as'

pub count-append : (b : ℕ) (xs ys : List ℕ) → count b (xs ++ ys) ≡ count b xs + count b ys
unfolding count
count-append b [] ys = omega arith
count-append b (x ∷ xs) ys = omega (arith, count-append b xs ys)

pub count-last : (b a : ℕ) (xs : List ℕ) → count b (xs ++ (a ∷ [])) ≡ count b xs + one b a
unfolding count
count-last b a xs = omega (arith, count-append b xs (a ∷ []))

-- What holds of a result, if there is one.
abbrev pub Ensures : {A : Type 0} → (A → Type 0) → Option A → Type 0
Ensures P none = Unit {0}
Ensures P (some a) = P a

pub Ensures-bind :
    {A B : Type 0} (P : A → Type 0) (Q : B → Type 0) (o : Option A) (f : A → Option B)
    → Ensures P o
    → ((a : A) → P a → Ensures Q (f a))
    → Ensures Q (elim o as (λ _. Option B) [ none ↦ none | some a ↦ f a ])
Ensures-bind P Q none f h k = tt
Ensures-bind P Q (some a) f h k = k a h
