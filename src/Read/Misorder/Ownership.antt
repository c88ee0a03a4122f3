-- ===== src/Read/Misorder/Ownership.antt =====
-- Every packet that comes in is delivered, freed or waiting in the queue, and only one of these.
use ros2_perception.Prelude.{
  ℕ, ◌+◌, ◌≡◌, refl, List, [], ◌∷◌, ◌++◌, false, ◌&&◌, ◌||◌, ◌==◌, ltb, if◌then◌else◌, if_elim,
  arith,
}
use ros2_perception.Read.Misorder.{
  InnoDataPacket, Misorder, Corrected, comes_after, push, is_full, is_expected, next_expected,
  drain, deliver, is_far, reset, hold, relieve, add_deliver_packet_after_correct, correct_all,
}

-- How many packets of a list stand at an address.
unfoldable pub copies : ℕ → List InnoDataPacket → ℕ
copies b [] = 0
copies b (p ∷ ps) = (if p.buffer == b then 1 else 0) + copies b ps

copies-append :
    (b : ℕ) (ps qs : List InnoDataPacket) → copies b (ps ++ qs) ≡ copies b ps + copies b qs
unfolding copies
copies-append b [] qs = omega arith
copies-append b (p ∷ ps) qs = omega (arith, copies-append b ps qs)

copies-push :
    (b : ℕ) (q : List InnoDataPacket) (p : InnoDataPacket)
    → copies b (push q p) ≡ copies b (p ∷ []) + copies b q
unfolding copies
copies-push b [] p = omega arith
copies-push b (q ∷ qs) p =
    if_elim (λ (l : List InnoDataPacket). copies b l ≡ copies b (p ∷ []) + copies b (q ∷ qs))
      (comes_after q p) (λ _. omega arith) (λ _. omega (arith, copies-push b qs p))

queue-next_expected : (s : Misorder) (p : InnoDataPacket) → (next_expected s p).queue ≡ s.queue
unfolding next_expected
queue-next_expected s p =
    if_elim (λ (r : Misorder). r.queue ≡ s.queue) p.is_last_sub_frame (λ _. refl) (λ _. refl)

copies-drain :
    (b : ℕ) (ps : List InnoDataPacket) (s : Misorder)
    → copies b (drain s ps).0 + copies b (drain s ps).1.queue ≡ copies b ps
unfolding drain copies
copies-drain b [] s = refl
copies-drain b (p ∷ ps) s =
    if_elim
      (λ (r : List InnoDataPacket × Misorder).
        copies b r.0 + copies b r.1.queue ≡ copies b (p ∷ ps))
      (is_expected s p) (λ _. omega (arith, copies-drain b ps (next_expected s p)))
      (λ _. omega arith)

-- The packets that a call had and those that it leaves.
unfoldable pub Conserves : ℕ → List InnoDataPacket → Corrected → Type 0
Conserves b held r =
    copies b r.delivered + (copies b r.freed + copies b r.state.queue) ≡ copies b held

deliver-Conserves :
    (b : ℕ) (s : Misorder) (p : InnoDataPacket) → Conserves b (p ∷ s.queue) (deliver s p)
unfolding Conserves deliver copies
deliver-Conserves b s p = omega (arith, copies-drain b s.queue (next_expected s p))

relieve-Conserves : (b : ℕ) (s : Misorder) (q : List InnoDataPacket) → Conserves b q (relieve s q)
unfolding Conserves relieve copies
relieve-Conserves b s [] = refl
relieve-Conserves b s (p ∷ ps) =
    if_elim (λ (r : Corrected). Conserves b (p ∷ ps) r) (is_full (p ∷ ps))
      (λ _. deliver-Conserves b (record s { queue = ps }) p) (λ _. omega arith)

relieve-frees_none :
    (b : ℕ) (s : Misorder) (q : List InnoDataPacket) → copies b (relieve s q).freed ≡ 0
unfolding relieve copies deliver
relieve-frees_none b s [] = refl
relieve-frees_none b s (p ∷ ps) =
    if_elim (λ (r : Corrected). copies b r.freed ≡ 0) (is_full (p ∷ ps)) (λ _. refl) (λ _. refl)

copies-reset :
    (b : ℕ) (s : Misorder) (p : InnoDataPacket)
    → copies b (reset s p).0 + copies b (reset s p).1.queue ≡ copies b s.queue
unfolding reset copies
copies-reset b s p =
    if_elim
      (λ (r : List InnoDataPacket × Misorder). copies b r.0 + copies b r.1.queue ≡ copies b s.queue)
      (s.first_step || is_far p.idx s.expected_idx) (λ _. omega arith) (λ _. omega arith)

copies-hold :
    (b : ℕ) (s : Misorder) (p : InnoDataPacket)
    → copies b (hold s p).0 + copies b (hold s p).1.queue ≡ copies b (p ∷ s.queue)
unfolding hold copies
copies-hold b s p =
    if_elim
      (λ (r : List InnoDataPacket × Misorder).
        copies b r.0 + copies b r.1.queue ≡ copies b (p ∷ s.queue))
      (((p.idx == s.expected_idx) && ltb s.expected_sub_idx p.sub_idx) || ltb s.expected_idx p.idx)
      (λ _. omega (arith, copies-push b s.queue p)) (λ _. omega arith)

-- A call hands every packet on: the one that came and those that waited are delivered, freed or
-- waiting, each once.
pub add_deliver-Conserves :
    (b : ℕ) (s : Misorder) (p : InnoDataPacket)
    → Conserves b (p ∷ s.queue) (add_deliver_packet_after_correct s p)
unfolding Conserves add_deliver_packet_after_correct copies deliver
add_deliver-Conserves b s p =
    let r = reset s p in
    let held = hold r.1 p in
    let direct = deliver (record r.1 { first_step = false }) p in
    let relieved = relieve held.1 held.1.queue in
    if_elim (λ (c : Corrected). Conserves b (p ∷ s.queue) c) (r.1.first_step || is_expected r.1 p)
      (λ _.
        omega
          (arith, copies-reset b s p, deliver-Conserves b (record r.1 { first_step = false }) p))
      (λ _. omega (
        arith,
        copies-reset b s p,
        copies-hold b r.1 p,
        relieve-Conserves b held.1 held.1.queue,
        relieve-frees_none b held.1 held.1.queue,
        copies-append b r.0 held.0,
      ))

-- After a stream of packets, each packet that came or waited before has been delivered once, freed
-- once or is waiting.
pub correct_all-Conserves :
    (b : ℕ) (ps : List InnoDataPacket) (s : Misorder)
    → Conserves b (ps ++ s.queue) (correct_all s ps)
unfolding Conserves correct_all copies
correct_all-Conserves b [] s = omega arith
correct_all-Conserves b (p ∷ ps) s =
    let first = add_deliver_packet_after_correct s p in
    let rest = correct_all first.state ps in
    omega (
      arith,
      add_deliver-Conserves b s p,
      correct_all-Conserves b ps first.state,
      copies-append b ps s.queue,
      copies-append b ps first.state.queue,
      copies-append b first.delivered rest.delivered,
      copies-append b first.freed rest.freed,
    )
