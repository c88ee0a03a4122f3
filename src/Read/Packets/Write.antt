-- ===== src/Read/Packets/Write.antt =====
-- `memcpy` into the buffers of sdk_client/stage_client_read.cpp.
use ros2_perception.Read.Packets.{write}
use ros2_perception.Prelude.{
  ℕ, ◌+◌, ◌-◌, ◌<◌, ◌≤◌, ◌≡◌, refl, sym, ap, ◌∙◌, List, ◌++◌, length, take, drop, get_or,
  length-append, take-append_self, drop-append_self, drop-plus, length-take, length-drop,
  drop-append, take-append_left, take-take, get_or-take, get_or-drop, get_or-append_left,
  get_or-append_right, arith,
}

-- Bytes written right behind `a`.
pub write-append : (a q t : List ℕ) → write (length a) q (a ++ t) ≡ a ++ q ++ drop (length q) t
write-append a q t =
    rw (take-append_self a t, sym (drop-plus (length a) (length q) (a ++ t)), drop-append_self a t)
      refl

-- The bytes at the front of a buffer to which `a` and then `q` were written.
pub take-write :
    (a q buf : List ℕ) (n : ℕ)
    → length (a ++ q) ≡ n
    → take n (write (length a) q (write 0 a buf)) ≡ a ++ q
take-write a q buf n e =
    let t = drop (0 + length a) buf in
    rw (sym e, write-append a q t) (take-append_self (a ++ q) (drop (length q) t))

pub length-write :
    (i : ℕ) (bs buf : List ℕ) → i + length bs ≤ length buf → length (write i bs buf) ≡ length buf
length-write i bs buf h = omega (
  arith,
  length-append (take i buf ++ bs) (drop (i + length bs) buf),
  length-append (take i buf) bs,
  length-take i buf (omega arith),
  length-drop (i + length bs) buf,
)

-- What a read finds after the write, in front of, behind and inside the bytes written.
module _ (i : ℕ) (bs buf : List ℕ) (room : i + length bs ≤ length buf) where
  pub get_or-write_before : (j : ℕ) → j < i → get_or (write i bs buf) j 0 ≡ get_or buf j 0
  get_or-write_before j h =
      get_or-append_left (take i buf ++ bs) (drop (i + length bs) buf) j 0
        (omega (arith, length-append (take i buf) bs, length-take i buf (omega arith)))
      ∙ get_or-append_left (take i buf) bs j 0 (omega (arith, length-take i buf (omega arith)))
      ∙ get_or-take i j buf 0 h

  pub get_or-write_self :
      (k : ℕ) → k < length bs → get_or (write i bs buf) (i + k) 0 ≡ get_or bs k 0
  get_or-write_self k h =
      get_or-append_left (take i buf ++ bs) (drop (i + length bs) buf) (i + k) 0
        (omega (arith, length-append (take i buf) bs, length-take i buf (omega arith)))
      ∙ ap (λ n. get_or (take i buf ++ bs) (n + k) 0) (sym (length-take i buf (omega arith)))
      ∙ get_or-append_right (take i buf) bs k 0

  pub drop-write : (j : ℕ) → i + length bs ≤ j → drop j (write i bs buf) ≡ drop j buf
  drop-write j h =
      let front : length (take i buf ++ bs) ≡ i + length bs =
        omega (arith, length-append (take i buf) bs, length-take i buf (omega arith)) in
      let shift : i + length bs + (j - length (take i buf ++ bs)) ≡ j = omega (arith, front) in
      drop-append (take i buf ++ bs) (drop (i + length bs) buf) j (omega (arith, front))
      ∙ drop-plus (i + length bs) (j - length (take i buf ++ bs)) buf
      ∙ ap (λ n. drop n buf) shift

  pub take-write_before : (j : ℕ) → j ≤ i → take j (write i bs buf) ≡ take j buf
  take-write_before j h =
      take-append_left (take i buf ++ bs) (drop (i + length bs) buf) j
        (omega (arith, length-append (take i buf) bs, length-take i buf (omega arith)))
      ∙ take-append_left (take i buf) bs j (omega (arith, length-take i buf (omega arith)))
      ∙ sym (take-take j i buf h)

  pub get_or-write_after :
      (j : ℕ) → i + length bs ≤ j → get_or (write i bs buf) j 0 ≡ get_or buf j 0
  get_or-write_after j h =
      let e : j + 0 ≡ j = omega arith in
      ap (λ n. get_or (write i bs buf) n 0) (sym e)
      ∙ sym (get_or-drop j 0 (write i bs buf) 0)
      ∙ ap (λ xs. get_or xs 0 0) (drop-write j h)
      ∙ get_or-drop j 0 buf 0
      ∙ ap (λ n. get_or buf n 0) e
