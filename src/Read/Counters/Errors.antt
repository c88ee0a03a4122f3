-- ===== src/Read/Counters/Errors.antt =====
-- The answers and the error counts over streams of packets that come by UDP, in
-- sdk_client/stage_client_read.cpp.
use ros2_perception.Read.Counters.{
  Counters, new_counters, count_if, is_unnumbered, verify_counter_process,
  verify_inno_data_packet_counter, verify_inno_status_packet_counter,
}
use ros2_perception.Read.Counters.Counted.{
  are_new, repeats, jumps, IsCounted, IsCounted-none, IsCounted-same, IsCounted-new, count_if-jump,
}
use ros2_perception.Packet.Items.{InnoItemType}
use ros2_perception.Prelude.{
  ℕ, ◌+◌, ◌%◌, ◌^◌, ◌≤◌, ◌<◌, ◌≡◌, refl, ap, Bool, true, false, List, [], ◌∷◌, ◌==◌, ltb, leb,
  length, map, Bool-cases, inl, inr, add64, arith,
}

unfoldable pub Are16 : List ℕ → Type 0
Are16 [] = Unit
Are16 (i ∷ is) = (i < 2 ^ 16) × Are16 is

pub record Result : Type 0 where
  pub answers : List Bool
  pub counters : Counters

unfoldable pub status_all : Counters → List ℕ → Result
status_all c [] = record { answers = []; counters = c }
status_all c (i ∷ is) =
    let v = verify_inno_status_packet_counter c i in
    let rest = status_all v.counters is in
    record { answers = v.accepted ∷ rest.answers; counters = rest.counters }

status_all-IsCounted :
    (is : List ℕ) (c : Counters)
    → c.status_first_step ≡ false
    → c.status_last_idx < 2 ^ 16
    → c.status_repeat_error_counter + length is < 2 ^ 64
    → c.status_diff3_error_counter + length is < 2 ^ 64
    → IsCounted c.status_last_idx c.status_repeat_error_counter c.status_diff3_error_counter
        (map (λ i. i % 2 ^ 16) is)
        (status_all c is).answers
        (status_all c is).counters.status_repeat_error_counter
        (status_all c is).counters.status_diff3_error_counter
unfolding status_all verify_inno_status_packet_counter
status_all-IsCounted [] c f l r j = IsCounted-none _ _ _
status_all-IsCounted (i ∷ is) c f l r j =
    let last = c.status_last_idx in
    let k : ℕ = i % 2 ^ 16 in
    let next : Counters = record c {
      status_first_step = false;
      status_repeat_error_counter = add64 c.status_repeat_error_counter 1;
    } in
    let jumped : Counters = record c {
      status_first_step = false;
      status_diff3_error_counter =
          count_if (verify_counter_process k last) c.status_diff3_error_counter;
      status_last_idx = k;
    } in
    let counted = count_if-jump k last c.status_diff3_error_counter (omega arith) l (omega arith) in
    elim (Bool-cases (k == last)) [
      | inl e ↦ rw f (
          rw e (
            IsCounted-same last k _ _ _ _ _ _ _ e (omega arith)
              (status_all-IsCounted is next refl l (omega arith) (omega arith))))
      | inr e ↦ rw f (
          rw e (
            IsCounted-new last k _ _ _ _ _ _ _ e counted (
              status_all-IsCounted is jumped refl (omega arith) (omega arith)
                (ground (arith, counted)))))
    ]

-- The first status packet is taken. From then on a packet is refused exactly if its index is, in its
-- lower 16 bits, that of the last packet; the refused ones are counted, and so are the taken ones that
-- are more than 3 from the last on the ring of 16 bits.
pub status_all_lem :
    (i : ℕ) (is : List ℕ)
    → length is < 2 ^ 64
    → ((status_all new_counters (i ∷ is)).answers
        ≡ true ∷ are_new (i % 2 ^ 16) (map (λ k. k % 2 ^ 16) is))
      × ((status_all new_counters (i ∷ is)).counters.status_repeat_error_counter
          ≡ repeats (i % 2 ^ 16) (map (λ k. k % 2 ^ 16) is))
      × ((status_all new_counters (i ∷ is)).counters.status_diff3_error_counter
          ≡ jumps (i % 2 ^ 16) (map (λ k. k % 2 ^ 16) is))
unfolding status_all verify_inno_status_packet_counter new_counters IsCounted
status_all_lem i is h =
    let (a, b, c) =
      status_all-IsCounted is
        (record new_counters { status_first_step = false; status_last_idx = i % 2 ^ 16 }) refl
        (omega arith) (omega arith) (omega arith) in
    (ap (λ bs. true ∷ bs) a, omega (arith, b), omega (arith, c))

unfoldable pub data_all : Counters → InnoItemType → List ℕ → Result
data_all c item_type [] = record { answers = []; counters = c }
data_all c item_type (i ∷ is) =
    let v = verify_inno_data_packet_counter c item_type i in
    let rest = data_all v.counters item_type is in
    record { answers = v.accepted ∷ rest.answers; counters = rest.counters }

-- After the first five data packets, not all of which had the number 0: a packet is refused exactly if
-- it has the number of the last one, and the counts are those of the refused packets and of the jumps
-- by more than 3 on the ring of 16 bits.
pub data_all_lem :
    (is : List ℕ) (c : Counters) (item_type : InnoItemType)
    → is_unnumbered item_type ≡ false
    → 5 ≤ c.data_first_step
    → c.sub_seq_zero_counter < 5
    → c.data_last_sub_seq < 2 ^ 16
    → Are16 is
    → c.data_repeat_error_counter + length is < 2 ^ 64
    → c.data_diff3_error_counter + length is < 2 ^ 64
    → IsCounted c.data_last_sub_seq c.data_repeat_error_counter c.data_diff3_error_counter is
        (data_all c item_type is).answers
        (data_all c item_type is).counters.data_repeat_error_counter
        (data_all c item_type is).counters.data_diff3_error_counter
unfolding data_all verify_inno_data_packet_counter Are16
data_all_lem [] c t n f z l w r j = IsCounted-none _ _ _
data_all_lem (k ∷ is) c t n f z l (w, ws) r j =
    let last = c.data_last_sub_seq in
    let next : Counters = record c {
      data_repeat_error_counter = add64 c.data_repeat_error_counter 1;
    } in
    let jumped : Counters = record c {
      data_diff3_error_counter =
          count_if (verify_counter_process k last) c.data_diff3_error_counter;
      data_last_sub_seq = k;
    } in
    let counted = count_if-jump k last c.data_diff3_error_counter w l (omega arith) in
    let started : ltb c.data_first_step 5 ≡ false = ground arith in
    let new_firmware : leb 5 c.sub_seq_zero_counter ≡ false = ground arith in
    elim (Bool-cases (k == last)) [
      | inl e ↦ rw n (
          rw started (
            rw new_firmware (
              rw e (
                IsCounted-same last k _ _ _ _ _ _ _ e (omega arith)
                  (data_all_lem is next t n f z l ws (omega arith) (omega arith))))))
      | inr e ↦ rw n (
          rw started (
            rw new_firmware (
              rw e (
                IsCounted-new last k _ _ _ _ _ _ _ e counted
                  (data_all_lem is jumped t n f z w ws (omega arith) (ground (arith, counted)))))))
    ]
