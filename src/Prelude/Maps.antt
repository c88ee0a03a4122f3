-- ===== src/Prelude/Maps.antt =====
-- Maps from strings as lists of pairs; a string is a list of characters, none of them 0.
use Prim.Native.Nat.{ℕ}
use mathlib.Core.Path.{◌≡◌, refl, sym, ◌∙◌, subst}
use mathlib.Core.Bool.{Bool, true, false, ◌&&◌}
use mathlib.Core.Option.{Option, none, some}
use mathlib.Core.List.{List, [], ◌∷◌}
use mathlib.Core.Logic.{inl, inr}
use native.Mathlib.Omega.{arith}
use ros2_perception.Prelude.Tests.{◌==◌, if◌then◌else◌, Bool-cases}

abbrev pub Key : Type 0
Key = List ℕ

abbrev pub is_same : Key → Key → Bool
is_same [] [] = true
is_same [] (b ∷ bs) = false
is_same (a ∷ xs) [] = false
is_same (a ∷ xs) (b ∷ bs) = (a == b) && is_same xs bs

module _ {A : Type 0} where
  abbrev pub find : List (Key × A) → Key → Option A
  find [] key = none
  find (e ∷ es) key = if is_same e.0 key then some e.1 else find es key

  abbrev pub assign : List (Key × A) → Key → A → List (Key × A)
  assign [] key a = (key, a) ∷ []
  assign (e ∷ es) key a = if is_same e.0 key then (key, a) ∷ es else e ∷ assign es key a

pub is_same_refl : (k : Key) → is_same k k ≡ true
is_same_refl [] = refl
is_same_refl (a ∷ xs) = rw (is_same_refl xs) (ground arith)

pub is_same→≡ : (a b : Key) → is_same a b ≡ true → a ≡ b
is_same→≡ [] [] e = refl
is_same→≡ [] (b ∷ bs) e = cc
is_same→≡ (a ∷ xs) [] e = cc
is_same→≡ (a ∷ xs) (b ∷ bs) e =
    let rest = is_same→≡ xs bs (ground (arith, e)) in
    let first : a ≡ b = ground (arith, e) in λ i. first i ∷ rest i

pub is_same_apart : (a b c : Key) → is_same a b ≡ false → is_same a c ≡ true → is_same b c ≡ false
is_same_apart a b c other same = elim (Bool-cases (is_same b c)) [
  | inr q ↦ q
  | inl q ↦
      let e = is_same→≡ a c same ∙ sym (is_same→≡ b c q) in
      let t : is_same a b ≡ true = subst (λ x. is_same a x ≡ true) e (is_same_refl a) in cc
]

module _ {A : Type 0} where
  pub find-assign :
      (es : List (Key × A)) (k : Key) (a : A) (j : Key)
      → find (assign es k a) j ≡ (if is_same k j then some a else find es j)
  find-assign [] k a j = refl
  find-assign (e ∷ es) k a j = elim (Bool-cases (is_same e.0 k)) [
    | inl same ↦
        let eq = is_same→≡ e.0 k same in
        rw (same, eq) (elim (Bool-cases (is_same k j)) [ inl q ↦ rw q refl | inr q ↦ rw q refl ])
    | inr other ↦ rw other (elim (Bool-cases (is_same e.0 j)) [
      | inl q ↦ let new = is_same_apart e.0 k j other q in rw (q, new) refl
      | inr q ↦ rw q (find-assign es k a j)
    ])
  ]
