-- ===== src/Read/Misorder/Steps.antt =====
-- What a call of `add_deliver_packet_after_correct_` of sdk_client/stage_client_read.cpp does to the
-- order of the packets.
use ros2_perception.Prelude.{
  ℕ, ◌+◌, ◌^◌, ◌<◌, ◌≤◌, ◌≡◌, refl, List, [], ◌∷◌, ◌++◌, false, ◌&&◌, ◌||◌, ◌==◌, ltb, if_elim,
  arith,
}
use ros2_perception.Read.Misorder.{
  InnoDataPacket, Misorder, Corrected, is_full, is_expected, next_expected, drain, deliver, is_far,
  reset, hold, relieve, add_deliver_packet_after_correct,
}
use ros2_perception.Read.Misorder.Queue.{
  rank, expected, IsSent, Rising, IsFresh, Rises, Rising-mono, Rising-push, rank-lt-expected,
  expected-le-rank, expected_narrow,
}

-- The state between two packets: those that wait come after the expected one, in order.
pub record IsReady (last : ℕ → ℕ) (s : Misorder) : Type 0 where
  pub waits : Rising last (expected s + 1) s.queue
  pub narrow : s.expected_sub_idx < 2 ^ 17
  pub running : s.first_step ≡ false

-- A step delivers packets that rise from `lo` on and below the expected one, and leaves a ready state.
pub record Keeps (last : ℕ → ℕ) (lo : ℕ) (delivered : List InnoDataPacket) (s : Misorder)
    : Type 0 where
  pub rises : Rises lo delivered (expected s)
  pub ready : IsReady last s

Rises-mono :
    (lo lower : ℕ) (ps : List InnoDataPacket) (hi : ℕ)
    → lower ≤ lo
    → Rises lo ps hi
    → Rises lower ps hi
unfolding Rises
Rises-mono lo lower [] hi h r = omega (arith, h, r)
Rises-mono lo lower (p ∷ ps) hi h (a, b) = (omega (arith, h, a), b)

pub Rises-append :
    (lo mid hi : ℕ) (ps qs : List InnoDataPacket)
    → Rises lo ps mid
    → Rises mid qs hi
    → Rises lo (ps ++ qs) hi
unfolding Rises
Rises-append lo mid hi [] qs a b = Rises-mono mid lo qs hi a b
Rises-append lo mid hi (p ∷ ps) qs (h, a) b = (h, Rises-append (rank p + 1) mid hi ps qs a b)

module _ (last : ℕ → ℕ) where
  -- What comes after a packet comes at or after what is expected next.
  Rising-next :
      (s : Misorder) (p : InnoDataPacket) (q : List InnoDataPacket)
      → IsSent last p
      → Rising last (rank p + 1) q
      → Rising last (expected (next_expected s p)) q
  unfolding Rising
  Rising-next s p [] w r = tt
  Rising-next s p (q ∷ qs) w (a, (v, r)) =
      (expected-le-rank last s p w q v (omega (arith, a)), (v, r))

  running-next :
      (s : Misorder) (p : InnoDataPacket)
      → s.first_step ≡ false
      → (next_expected s p).first_step ≡ false
  unfolding next_expected
  running-next s p f =
      if_elim (λ (r : Misorder). r.first_step ≡ false) p.is_last_sub_frame (λ _. f) (λ _. f)

  is_expected_lem :
      (s : Misorder) (p : InnoDataPacket)
      → IsSent last p
      → s.expected_sub_idx < 2 ^ 17
      → is_expected s p ≡ (rank p == expected s)
  is_expected_lem s p w n = ground (arith, w.inside, w.narrow, n)

  drain-Keeps :
      (ps : List InnoDataPacket) (s : Misorder)
      → Rising last (expected s) ps
      → s.expected_sub_idx < 2 ^ 17
      → s.first_step ≡ false
      → Keeps last (expected s) (drain s ps).0 (drain s ps).1
  unfolding Rising Rises drain
  drain-Keeps [] s r n f = record {
    rises = omega arith;
    ready = record { waits = tt; narrow = n; running = f };
  }
  drain-Keeps (p ∷ ps) s (a, (w, r)) n f =
      let ih =
        drain-Keeps ps (next_expected s p) (Rising-next s p ps w r) (expected_narrow last s p w)
          (running-next s p f) in
      if_elim (λ (d : List InnoDataPacket × Misorder). Keeps last (expected s) d.0 d.1)
        (is_expected s p)
        (λ e. record {
          rises = (a, Rises-mono _ _ _ _ (omega (arith, rank-lt-expected last s p w)) ih.rises);
          ready = ih.ready;
        })
        (λ e. record {
          rises = omega arith;
          ready = record {
            waits = (ground (arith, e, a, is_expected_lem s p w n), (w, r));
            narrow = n;
            running = f;
          };
        })

  -- A delivered packet, and those that waited for it.
  pub deliver-Keeps :
      (s : Misorder) (p : InnoDataPacket) (lo : ℕ)
      → IsSent last p
      → lo ≤ rank p
      → Rising last (rank p + 1) s.queue
      → s.first_step ≡ false
      → Keeps last lo (deliver s p).delivered (deliver s p).state
  unfolding deliver Rises
  deliver-Keeps s p lo w h r f =
      let k =
        drain-Keeps s.queue (next_expected s p) (Rising-next s p s.queue w r)
          (expected_narrow last s p w) (running-next s p f) in
      record {
        rises = (h, Rises-mono _ _ _ _ (omega (arith, rank-lt-expected last s p w)) k.rises);
        ready = k.ready;
      }

  relieve-Keeps :
      (s : Misorder) (q : List InnoDataPacket)
      → Rising last (expected s + 1) q
      → s.expected_sub_idx < 2 ^ 17
      → s.first_step ≡ false
      → Keeps last (expected s) (relieve s q).delivered (relieve s q).state
  unfolding relieve Rising Rises
  relieve-Keeps s [] r n f = record {
    rises = omega arith;
    ready = record { waits = tt; narrow = n; running = f };
  }
  relieve-Keeps s (p ∷ ps) (a, (w, r)) n f =
      if_elim (λ (c : Corrected). Keeps last (expected s) c.delivered c.state) (is_full (p ∷ ps))
        (λ _. deliver-Keeps (record s { queue = ps }) p (expected s) w (omega (arith, a)) r f)
        (λ _. record {
          rises = omega arith;
          ready = record { waits = (a, (w, r)); narrow = n; running = f };
        })

  -- A packet that is not the expected one.
  hold-IsReady :
      (s : Misorder) (p : InnoDataPacket)
      → IsReady last s
      → IsSent last p
      → IsFresh p s.queue
      → IsReady last (hold s p).1 × (expected (hold s p).1 ≡ expected s)
  unfolding hold
  hold-IsReady s p v w f =
      if_elim
        (λ (h : List InnoDataPacket × Misorder). IsReady last h.1 × (expected h.1 ≡ expected s))
        (((p.idx == s.expected_idx) && ltb s.expected_sub_idx p.sub_idx)
          || ltb s.expected_idx p.idx)
        (λ e. (
          record {
            waits =
                Rising-push last _ s.queue p v.waits f
                  (ground (arith, e, v.narrow, w.inside, w.narrow)) w;
            narrow = v.narrow;
            running = v.running;
          },
          refl,
        ))
        (λ e. (v, refl))

  -- One packet of the sensor that is neither repeated nor far from the expected one: what is
  -- delivered rises from the position expected before, below that expected after.
  pub add_deliver-Keeps :
      (s : Misorder) (p : InnoDataPacket)
      → IsReady last s
      → IsSent last p
      → IsFresh p s.queue
      → is_far p.idx s.expected_idx ≡ false
      → Keeps last
          (expected s)
          (add_deliver_packet_after_correct s p).delivered
          (add_deliver_packet_after_correct s p).state
  unfolding add_deliver_packet_after_correct reset
  add_deliver-Keeps s p v w f near =
      let s1 = record s { first_step = false } in
      let v1 : IsReady last s1 = record { waits = v.waits; narrow = v.narrow; running = refl } in
      let (h, same) = hold-IsReady s1 p v1 w f in
      rw (v.running, near)
        (if_elim (λ (c : Corrected). Keeps last (expected s) c.delivered c.state) (is_expected s p)
          (λ e.
            let on_time : rank p ≡ expected s = ground (arith, e, is_expected_lem s p w v.narrow) in
            deliver-Keeps s1 p (expected s) w (omega (arith, on_time))
              (Rising-mono last _ _ s.queue (omega (arith, on_time)) v.waits) refl)
          (λ e.
            rw same at
              (relieve-Keeps (hold s1 p).1 (hold s1 p).1.queue h.waits h.narrow h.running)))
