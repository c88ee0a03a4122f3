-- ===== src/Read/Misorder/Bound.antt =====
-- The queue of packets that wait never holds more than ten between two packets.
use ros2_perception.Prelude.{
  suc, false, ◌≤◌, ◌≡◌, refl, ap, List, [], ◌∷◌, ◌&&◌, ◌||◌, ◌==◌, ltb, if_elim, length, arith,
}
use ros2_perception.Read.Misorder.{
  InnoDataPacket, Misorder, Corrected, comes_after, push, is_full, is_expected, next_expected,
  drain, deliver, is_far, reset, hold, relieve, add_deliver_packet_after_correct, correct_all,
}

length-push : (q : List InnoDataPacket) (p : InnoDataPacket) → length (push q p) ≡ suc (length q)
length-push [] p = refl
length-push (q ∷ qs) p =
    if_elim (λ (l : List InnoDataPacket). length l ≡ suc (suc (length qs))) (comes_after q p)
      (λ _. refl) (λ _. ap suc (length-push qs p))

length-drain : (ps : List InnoDataPacket) (s : Misorder) → length (drain s ps).1.queue ≤ length ps
unfolding drain
length-drain [] s = omega arith
length-drain (p ∷ ps) s =
    if_elim (λ (r : List InnoDataPacket × Misorder). length r.1.queue ≤ suc (length ps))
      (is_expected s p) (λ _. omega (arith, length-drain ps (next_expected s p))) (λ _. omega arith)

relieve-bounded :
    (s : Misorder) (q : List InnoDataPacket) → length q ≤ 11 → length (relieve s q).state.queue ≤ 10
unfolding relieve deliver
relieve-bounded s [] h = omega arith
relieve-bounded s (p ∷ ps) h =
    if_elim (λ (c : Corrected). length c.state.queue ≤ 10) (is_full (p ∷ ps))
      (λ _. omega (arith, length-drain ps (next_expected (record s { queue = ps }) p), h))
      (λ e. ground (arith, e))

length-reset : (s : Misorder) (p : InnoDataPacket) → length (reset s p).1.queue ≤ length s.queue
unfolding reset
length-reset s p =
    if_elim (λ (r : List InnoDataPacket × Misorder). length r.1.queue ≤ length s.queue)
      (s.first_step || is_far p.idx s.expected_idx) (λ _. omega arith) (λ _. omega arith)

length-hold : (s : Misorder) (p : InnoDataPacket) → length (hold s p).1.queue ≤ suc (length s.queue)
unfolding hold
length-hold s p =
    if_elim (λ (r : List InnoDataPacket × Misorder). length r.1.queue ≤ suc (length s.queue))
      (((p.idx == s.expected_idx) && ltb s.expected_sub_idx p.sub_idx) || ltb s.expected_idx p.idx)
      (λ _. omega (arith, length-push s.queue p)) (λ _. omega arith)

add_deliver-bounded :
    (s : Misorder) (p : InnoDataPacket)
    → length s.queue ≤ 10
    → length (add_deliver_packet_after_correct s p).state.queue ≤ 10
unfolding add_deliver_packet_after_correct deliver
add_deliver-bounded s p h =
    let r = (reset s p).1 in
    let held = (hold r p).1 in
    if_elim (λ (c : Corrected). length c.state.queue ≤ 10) (r.first_step || is_expected r p)
      (λ _. omega (
        arith,
        h,
        length-reset s p,
        length-drain r.queue (next_expected (record r { first_step = false }) p),
      ))
      (λ _. relieve-bounded held held.queue (omega (arith, h, length-reset s p, length-hold r p)))

-- At most ten packets wait after any stream of packets, if at most ten did before.
pub correct_all-bounded :
    (ps : List InnoDataPacket) (s : Misorder)
    → length s.queue ≤ 10
    → length (correct_all s ps).state.queue ≤ 10
unfolding correct_all
correct_all-bounded [] s h = h
correct_all-bounded (p ∷ ps) s h = correct_all-bounded ps _ (add_deliver-bounded s p h)
