-- ===== src/Read/Misorder/Queue.antt =====
-- Positions of packets in the stream of a sensor, and the queue of packets that wait, which is in the
-- order of their positions. Frame `f` has the sub-frames 0 to `last f`.
use ros2_perception.Prelude.{
  ℕ, ◌+◌, ◌*◌, ◌^◌, ◌<◌, ◌≤◌, ◌≡◌, ◌≢◌, ap, sym, ℕ_discrete, List, [], ◌∷◌, ◌==◌, ltb, if_elim,
  arith,
}
use ros2_perception.Read.Misorder.{InnoDataPacket, Misorder, comes_after, push, next_expected}

-- The positions in order: sub-frames take less than 2 ^ 17.
abbrev pub position : ℕ → ℕ → ℕ
position idx sub_idx = idx * 2 ^ 17 + sub_idx

abbrev pub rank : InnoDataPacket → ℕ
rank p = position p.idx p.sub_idx

abbrev pub expected : Misorder → ℕ
expected s = position s.expected_idx s.expected_sub_idx

-- A packet of the sensor.
pub record IsSent (last : ℕ → ℕ) (p : InnoDataPacket) : Type 0 where
  pub inside : p.sub_idx ≤ last p.idx
  pub ends : p.is_last_sub_frame ≡ (p.sub_idx == last p.idx)
  pub narrow : last p.idx < 2 ^ 16
  pub small : p.idx < 2 ^ 62

-- The positions rise from `lo` on.
unfoldable pub Rising : (ℕ → ℕ) → ℕ → List InnoDataPacket → Type 0
Rising last lo [] = Unit
Rising last lo (p ∷ ps) = (lo ≤ rank p) × (IsSent last p × Rising last (rank p + 1) ps)

-- No packet of the list has the position of `p`.
unfoldable pub IsFresh : InnoDataPacket → List InnoDataPacket → Type 0
IsFresh p [] = Unit
IsFresh p (q ∷ qs) = (rank p ≢ rank q) × IsFresh p qs

-- Between two numbers: the positions rise from the first on and end below the second.
unfoldable pub Rises : ℕ → List InnoDataPacket → ℕ → Type 0
Rises lo [] hi = lo ≤ hi
Rises lo (p ∷ ps) hi = (lo ≤ rank p) × Rises (rank p + 1) ps hi

module _ (last : ℕ → ℕ) where
  pub Rising-mono :
      (lo lower : ℕ) (q : List InnoDataPacket) → lower ≤ lo → Rising last lo q → Rising last lower q
  unfolding Rising
  Rising-mono lo lower [] h r = tt
  Rising-mono lo lower (p ∷ ps) h (a, (b, c)) = (omega (arith, h, a), (b, c))

  comes_after_lem :
      (q p : InnoDataPacket)
      → IsSent last q
      → IsSent last p
      → comes_after q p ≡ ltb (rank p) (rank q)
  comes_after_lem q p v w = ground (arith, v.inside, v.narrow, w.inside, w.narrow)

  -- A packet with a position of its own is put where it belongs.
  pub Rising-push :
      (lo : ℕ) (q : List InnoDataPacket) (p : InnoDataPacket)
      → Rising last lo q
      → IsFresh p q
      → lo ≤ rank p
      → IsSent last p
      → Rising last lo (push q p)
  unfolding Rising IsFresh
  Rising-push lo [] p r f h w = (h, (w, tt))
  Rising-push lo (q ∷ qs) p (a, (v, c)) (other, f) h w =
      if_elim (λ (l : List InnoDataPacket). Rising last lo l) (comes_after q p)
        (λ e. (h, (w, (ground (arith, comes_after_lem q p v w, e), (v, c)))))
        (λ e. (
          a,
          (
            v,
            Rising-push (rank q + 1) qs p c f (ground (arith, comes_after_lem q p v w, e, other)) w,
          ),
        ))

  -- What is expected after a packet is the position that comes next in the stream of the sensor.
  module _ (s : Misorder) (p : InnoDataPacket) (w : IsSent last p) where
    pub rank-lt-expected : rank p < expected (next_expected s p)
    unfolding next_expected
    rank-lt-expected = ground (arith, w.small, w.inside, w.narrow)

    pub expected-le-rank :
        (q : InnoDataPacket)
        → IsSent last q
        → rank p < rank q
        → expected (next_expected s p) ≤ rank q
    unfolding next_expected
    expected-le-rank q v h = elim (ℕ_discrete p.idx q.idx) [
      | yes same ↦
          let limit : last q.idx ≡ last p.idx = ap last (sym same) in
          ground (arith, h, same, limit, v.inside, v.narrow, w.ends, w.inside, w.small)
      | no other ↦ ground (arith, h, other, v.inside, v.narrow, w.inside, w.narrow, w.small)
    ]

    pub expected_narrow : (next_expected s p).expected_sub_idx < 2 ^ 17
    unfolding next_expected
    expected_narrow = ground (arith, w.inside, w.narrow)
