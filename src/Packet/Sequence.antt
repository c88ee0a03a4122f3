-- ===== src/Packet/Sequence.antt =====
-- The statistics of `inno_data_packet_receive_stats` recover the full sequence numbers of the packets
-- from the 16 bits of `sub_seq`. The numbers are those of the sender, counted so that the first packet
-- has one between 2 ^ 16 and 2 ^ 17.
use ros2_perception.Prelude.{
  ℕ, ◌+◌, ◌-◌, ◌^◌, ◌<◌, ◌≤◌, ◌≡◌, refl, List, [], ◌∷◌, true, ltb, if◌then◌else◌, if_elim, add64,
  arith,
}
use ros2_perception.Packet.Summary.{
  InnoDataPacket, InnoSummaryPackage, new_summary, is_newer_packet, init_seq_num, newer_seq_num,
  older_seq_num, count_packet, print_loss_rate, is_print_due, receive_stats,
  get_expect_receive_inno_packet, low_bits,
}

-- A packet as it arrives at `time`, with the sender's number of it.
pub record Arrival : Type 0 where
  pub packet : InnoDataPacket
  pub number : ℕ
  pub time : ℕ

-- Only the low 16 bits of the number are sent.
abbrev pub sent : Arrival → InnoDataPacket
sent a = record a.packet { sub_seq = low_bits a.number }

unfoldable pub receive_all : InnoSummaryPackage → List Arrival → InnoSummaryPackage
receive_all s [] = s
receive_all s (a ∷ rest) = receive_all (receive_stats s (sent a) a.time) rest

abbrev pub larger : ℕ → ℕ → ℕ
larger a b = if ltb a b then b else a

abbrev pub smaller : ℕ → ℕ → ℕ
smaller a b = if ltb b a then b else a

unfoldable pub highest : ℕ → List Arrival → ℕ
highest hi [] = hi
highest hi (a ∷ rest) = highest (larger hi a.number) rest

unfoldable pub lowest : ℕ → List Arrival → ℕ
lowest lo [] = lo
lowest lo (a ∷ rest) = lowest (smaller lo a.number) rest

unfoldable pub count : ℕ → List Arrival → ℕ
count n [] = n
count n (a ∷ rest) = count (add64 n 1) rest

-- Less than half a cycle above the highest number so far, or at most half a cycle below it.
pub record IsNear (hi t : ℕ) : Type 0 where
  pub above : hi ≤ t + 0x8000
  pub below : t < hi + 0x8000
  pub small : t < 2 ^ 63

unfoldable pub AllNear : ℕ → List Arrival → Type 0
AllNear hi [] = Unit
AllNear hi (a ∷ rest) = IsNear hi a.number × AllNear (larger hi a.number) rest

-- The statistics after packets with the numbers from `lo` to `hi`, `n` of them.
pub record HasSeen (s : InnoSummaryPackage) (hi lo n : ℕ) : Type 0 where
  pub top : s.highest_seq_num_received ≡ hi
  pub base : s.base_seq_num_received ≡ lo
  pub total : s.total_receive_packet ≡ n
  pub ready : s.is_init_seq_num ≡ true
  pub cycled : 0x10000 ≤ hi
  pub ordered : lo ≤ hi
  pub bounded : hi < 2 ^ 63

module _ (h t : ℕ) (cycled : 0x10000 ≤ h) (bounded : h < 2 ^ 63) (near : IsNear h t) where
  is_newer_packet_lem : is_newer_packet (low_bits h) (low_bits t) ≡ ltb h t
  unfolding is_newer_packet
  is_newer_packet_lem = ground (arith, near.above, near.below, near.small)

  newer_seq_num_lem : h < t → newer_seq_num h (low_bits t) ≡ t
  unfolding newer_seq_num
  newer_seq_num_lem lt = ground (arith, near.above, near.below, near.small)

  older_seq_num_lem : t ≤ h → older_seq_num h (low_bits t) ≡ t
  unfolding older_seq_num
  older_seq_num_lem le = ground (arith, near.above, near.below, near.small)

HasSeen-print_loss_rate :
    (s : InnoSummaryPackage) (hi lo n now : ℕ)
    → HasSeen s hi lo n
    → HasSeen (print_loss_rate s now) hi lo n
unfolding print_loss_rate
HasSeen-print_loss_rate s hi lo n now v =
    if_elim (λ r. HasSeen r hi lo n) (is_print_due s now)
      (λ _. record {
        top = v.top;
        base = v.base;
        total = v.total;
        ready = v.ready;
        cycled = v.cycled;
        ordered = v.ordered;
        bounded = v.bounded;
      })
      (λ _. v)

HasSeen-count_packet :
    (s : InnoSummaryPackage) (hi lo n t : ℕ)
    → HasSeen s hi lo n
    → IsNear hi t
    → HasSeen (count_packet s (low_bits t)) (larger hi t) (smaller lo t) (add64 n 1)
unfolding count_packet
HasSeen-count_packet s hi lo n t v near =
    let newer = is_newer_packet_lem hi t v.cycled v.bounded near in
    let up = newer_seq_num_lem hi t v.cycled v.bounded near in
    let down = older_seq_num_lem hi t v.cycled v.bounded near in
    rw (v.top, newer)
      (if_elim (λ r. HasSeen r (larger hi t) (smaller lo t) (add64 n 1)) (ltb hi t)
        (λ e. record {
          top = rw (up (ground arith)) refl;
          base = ground (arith, v.base, v.ordered);
          total = rw v.total refl;
          ready = v.ready;
          cycled = ground (arith, v.cycled);
          ordered = ground (arith, v.ordered);
          bounded = ground (arith, v.bounded, near.small);
        })
        (λ e. record {
          top = ground arith;
          base = rw (down (ground arith), v.base) refl;
          total = rw v.total refl;
          ready = v.ready;
          cycled = ground (arith, v.cycled);
          ordered = ground (arith, v.ordered);
          bounded = ground (arith, v.bounded, near.small);
        }))

-- A packet whose number is near the highest so far is counted under its full number: the highest
-- and the lowest number seen and the count are those with it, whenever the rates are printed.
pub receive_stats_lem :
    (s : InnoSummaryPackage) (hi lo n : ℕ) (a : Arrival)
    → HasSeen s hi lo n
    → IsNear hi a.number
    → HasSeen
        (receive_stats s (sent a) a.time)
        (larger hi a.number)
        (smaller lo a.number)
        (add64 n 1)
unfolding receive_stats
receive_stats_lem s hi lo n a v near =
    if_elim
      (λ r.
        HasSeen (print_loss_rate (count_packet r (low_bits a.number)) a.time) (larger hi a.number)
          (smaller lo a.number) (add64 n 1))
      s.is_init_seq_num
      (λ e. HasSeen-print_loss_rate _ _ _ _ a.time (HasSeen-count_packet s hi lo n a.number v near))
      (λ e. cc (e, v.ready))

HasSeen-receive_all :
    (arrivals : List Arrival) (s : InnoSummaryPackage) (hi lo n : ℕ)
    → HasSeen s hi lo n
    → AllNear hi arrivals
    → HasSeen (receive_all s arrivals) (highest hi arrivals) (lowest lo arrivals) (count n arrivals)
unfolding receive_all highest lowest count AllNear
HasSeen-receive_all [] s hi lo n v near = v
HasSeen-receive_all (a ∷ rest) s hi lo n v (near, later) =
    HasSeen-receive_all rest _ _ _ _ (receive_stats_lem s hi lo n a v near) later

HasSeen-first :
    (start : ℕ) (a : Arrival)
    → 0x10000 ≤ a.number
    → a.number < 0x20000
    → HasSeen (receive_stats (new_summary start) (sent a) a.time) a.number a.number 1
unfolding receive_stats new_summary init_seq_num
HasSeen-first start a l h =
    let t = a.number in
    let s = record (init_seq_num (new_summary start) (low_bits t)) { is_init_seq_num = true } in
    let e : 0x10000 + low_bits t ≡ t = ground arith in
    let v : HasSeen s t t 0 = record {
      top = e;
      base = e;
      total = refl;
      ready = refl;
      cycled = l;
      ordered = omega arith;
      bounded = omega (arith, h);
    } in
    let near : IsNear t t = record {
      above = omega arith;
      below = omega arith;
      small = omega (arith, h);
    } in
    let same : larger t t ≡ t = ground arith in
    let r : HasSeen _ (larger t t) (smaller t t) (add64 0 1) =
      HasSeen-count_packet s t t 0 t v near in
    HasSeen-print_loss_rate _ _ _ _ a.time (rw same at r)

-- After a stream of packets with near numbers, the highest and the lowest number are those of the
-- stream, every packet is counted modulo 2 ^ 64, and the expected number of packets is that from the
-- lowest number to the highest.
pub receive_all_lem :
    (start : ℕ) (a : Arrival) (rest : List Arrival)
    → 0x10000 ≤ a.number
    → a.number < 0x20000
    → AllNear a.number rest
    → HasSeen
        (receive_all (new_summary start) (a ∷ rest))
        (highest a.number rest)
        (lowest a.number rest)
        (count 1 rest)
      × (get_expect_receive_inno_packet (receive_all (new_summary start) (a ∷ rest))
          ≡ highest a.number rest - lowest a.number rest + 1)
unfolding receive_all
receive_all_lem start a rest l h near =
    let v = HasSeen-receive_all rest _ _ _ _ (HasSeen-first start a l h) near in
    (v, rw (v.top, v.base) (omega (arith, v.ordered, v.bounded)))
