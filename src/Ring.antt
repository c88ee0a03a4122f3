-- ===== src/Ring.antt =====
-- The index arithmetic that the two ring buffers of the driver share, and the items of a ring.
use ros2_perception.Prelude.{
  ℕ, zero, suc, ◌+◌, ◌-◌, ◌%◌, ◌<◌, ◌≤◌, ◌≡◌, ◌≢◌, refl, sym, ap, ◌∙◌, subst, List, [], ◌∷◌, ◌++◌,
  arith, ltb, if◌then◌else◌, ◌==◌, length,
}
use mathlib.Core.Path.{ap₂}

-- The index after `i` in a ring of `len` slots.
abbrev pub next : ℕ → ℕ → ℕ
next len i = if i + 1 == len then 0 else i + 1

-- An index below `2 * len`, brought back into the ring.
abbrev pub wrap : ℕ → ℕ → ℕ
wrap len i = if ltb i len then i else i - len

-- The `n` items from index `h` on.
module _ {ℓ} {A : Type ℓ} where
  abbrev pub window : (ℕ → A) → ℕ → ℕ → ℕ → List A
  window slot len h zero = []
  window slot len h (suc n) = slot h ∷ window slot len (next len h) n

  pub length-window : (slot : ℕ → A) (len h n : ℕ) → length (window slot len h n) ≡ n
  length-window slot len h zero = refl
  length-window slot len h (suc n) = ap suc (length-window slot len (next len h) n)

  -- `window` matches on the count; the code tests it.
  pub window_of_pos :
      (slot : ℕ → A) (len h n : ℕ)
      → 0 < n
      → window slot len h n ≡ slot h ∷ window slot len (next len h) (n - 1)
  window_of_pos slot len h zero p = absurd (omega arith)
  window_of_pos slot len h (suc n) p =
      ap (λ k. slot h ∷ window slot len (next len h) k) (omega arith)

pub next-lt : (len i : ℕ) → i < len → next len i < len
next-lt len i h = ground arith

pub next-eq-mod : (len i : ℕ) → i < len → (i + 1) % len ≡ next len i
next-eq-mod len i h = grind arith

pub wrap-next : (len h n : ℕ) → h < len → n < len → wrap len (next len h + n) ≡ wrap len (h + suc n)
wrap-next len h n hh hn = ground arith

pub next-wrap :
    (len h n : ℕ) → h < len → n < len → next len (wrap len (h + n)) ≡ wrap len (h + suc n)
next-wrap len h n hh hn = ground arith

pub wrap-lt : (len h n : ℕ) → h < len → n ≤ len → wrap len (h + n) < len
wrap-lt len h n hh hn = ground arith

wrap-ne : (len h n : ℕ) → h < len → suc n < len → h ≢ wrap len (h + suc n)
wrap-ne len h n hh hn = ground arith

-- A write just past a window extends it by the item written.
module _ {ℓ} {A : Type ℓ} (slot written : ℕ → A) (v : A) (len : ℕ) where
  pub window-write :
      (h n : ℕ)
      → h < len
      → n < len
      → written (wrap len (h + n)) ≡ v
      → ((j : ℕ) → wrap len (h + n) ≢ j → written j ≡ slot j)
      → window written len h (suc n) ≡ window slot len h n ++ (v ∷ [])
  window-write h zero hh hn at_end others =
      ap (λ x. x ∷ []) (subst (λ j. written j ≡ v) (ground arith) at_end)
  window-write h (suc n) hh hn at_end others =
      ap₂ ◌∷◌ (others h (λ e. wrap-ne len h n hh hn (sym e))) (
        window-write (next len h) n (next-lt len h hh) (omega arith)
          (subst (λ j. written j ≡ v) (sym (wrap-next len h n hh (omega arith))) at_end)
          (λ j ne. others j (λ e. ne (wrap-next len h n hh (omega arith) ∙ e))))
