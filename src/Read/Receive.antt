-- ===== src/Read/Receive.antt =====
-- `NetManager::recv_full_buffer` of utils/net_manager.cpp, by which the inputs of
-- sdk_client/stage_client_read read. A connection is the list of what its next calls of `read` find:
-- bytes, an interruption (EINTR) or another error; its end is the end of the file. A call of `read`
-- takes what fits and leaves the rest.
use ros2_perception.Prelude.{
  ℕ, zero, suc, ◌-◌, ◌<◌, ◌≤◌, ◌≡◌, refl, ◌∙◌, ap, Bool, true, false, List, [], ◌∷◌, ◌++◌, ◌==◌,
  leb, if◌then◌else◌, if_elim, length, length-append, length-drop, take, drop, take-append,
  drop-append, take-append_left, drop-append_left, sym, arith,
}

pub data Event : Type 0 where
  bytes : List ℕ → Event
  interrupted : Event
  failed : Event

-- `complete` if the call returns the length asked for; otherwise it returns -1.
pub record Received : Type 0 where
  pub complete : Bool
  pub buffer : List ℕ
  pub rest : List Event

abbrev pub finish : Bool → List Event → Received
finish complete rest = record { complete = complete; buffer = []; rest = rest }

unfoldable pub recv_full_buffer : ℕ → List Event → Received
recv_full_buffer n [] = finish (n == 0) []
recv_full_buffer n (interrupted ∷ es) =
    let again = recv_full_buffer n es in if n == 0 then finish true (interrupted ∷ es) else again
recv_full_buffer n (failed ∷ es) = if n == 0 then finish true (failed ∷ es) else finish false es
recv_full_buffer n (bytes c ∷ es) =
    let more = recv_full_buffer (n - length c) es in
    if n == 0
    then finish true (bytes c ∷ es)
    else if length c == 0
    then finish false es
    else if leb (length c) n
    then (record more { buffer = c ++ more.buffer })
    else (record { complete = true; buffer = take n c; rest = bytes (drop n c) ∷ es })

-- The bytes that come before an error or the end.
unfoldable pub contents : List Event → List ℕ
contents [] = []
contents (interrupted ∷ es) = contents es
contents (failed ∷ es) = []
contents (bytes c ∷ es) = if length c == 0 then [] else c ++ contents es

-- A read of the bytes `bs`: all of the first `n`, or all there are if there are fewer.
pub data Reads (n : ℕ) (bs : List ℕ) (r : Received) : Type 0 where
  whole :
      n ≤ length bs
      → r.complete ≡ true
      → r.buffer ≡ take n bs
      → contents r.rest ≡ drop n bs
      → Reads n bs r
  cut : length bs < n → r.complete ≡ false → r.buffer ≡ bs → Reads n bs r

Reads-nothing : (es : List Event) → Reads 0 (contents es) (finish true es)
Reads-nothing es = whole (omega arith) refl refl refl

-- A call of `read` that takes `c` comes before the rest of the read.
Reads-more :
    (c : List ℕ) (n : ℕ) (bs : List ℕ) (r : Received)
    → length c ≤ n
    → Reads (n - length c) bs r
    → Reads n (c ++ bs) (record r { buffer = c ++ r.buffer })
Reads-more c n bs r h (whole a b d e) =
    whole (omega (arith, length-append c bs)) b (ap (λ xs. c ++ xs) d ∙ sym (take-append c bs n h))
      (e ∙ sym (drop-append c bs n h))
Reads-more c n bs r h (cut a b d) = cut (omega (arith, length-append c bs)) b (ap (λ xs. c ++ xs) d)

-- A call of `read` that has more than is wanted leaves the rest.
Reads-part :
    (c : List ℕ) (n : ℕ) (es : List Event)
    → n < length c
    → Reads n
        (c ++ contents es)
        (record { complete = true; buffer = take n c; rest = bytes (drop n c) ∷ es })
unfolding contents
Reads-part c n es h =
    whole (omega (arith, length-append c (contents es))) refl
      (sym (take-append_left c (contents es) n (omega arith)))
      (ground (arith, length-drop n c, drop-append_left c (contents es) n (omega arith)))

suc-is_zero : (n : ℕ) → (suc n == 0) ≡ false
suc-is_zero n = ground arith

-- However the bytes come in, the call reads the first `n` of them, and the next call goes on behind
-- them; if there are fewer it reads them all and fails.
pub recv_full_buffer_lem : (es : List Event) (n : ℕ) → Reads n (contents es) (recv_full_buffer n es)
unfolding recv_full_buffer contents
recv_full_buffer_lem [] zero = whole (omega arith) refl refl refl
recv_full_buffer_lem [] (suc n) = cut (omega arith) (suc-is_zero n) refl
recv_full_buffer_lem (interrupted ∷ es) zero = Reads-nothing (interrupted ∷ es)
recv_full_buffer_lem (interrupted ∷ es) (suc n) =
    rw (suc-is_zero n) (recv_full_buffer_lem es (suc n))
recv_full_buffer_lem (failed ∷ es) zero = Reads-nothing (failed ∷ es)
recv_full_buffer_lem (failed ∷ es) (suc n) = rw (suc-is_zero n) (cut (omega arith) refl refl)
recv_full_buffer_lem (bytes c ∷ es) zero = Reads-nothing (bytes c ∷ es)
recv_full_buffer_lem (bytes [] ∷ es) (suc n) = rw (suc-is_zero n) (cut (omega arith) refl refl)
recv_full_buffer_lem (bytes (x ∷ c) ∷ es) (suc n) =
    rw (suc-is_zero n, suc-is_zero (length c))
      (if_elim (λ (r : Received). Reads (suc n) (x ∷ c ++ contents es) r)
        (leb (length (x ∷ c)) (suc n))
        (λ e.
          Reads-more (x ∷ c) (suc n) (contents es) (recv_full_buffer (suc n - length (x ∷ c)) es)
            (ground arith) (recv_full_buffer_lem es (suc n - length (x ∷ c))))
        (λ e. Reads-part (x ∷ c) (suc n) es (ground arith)))
