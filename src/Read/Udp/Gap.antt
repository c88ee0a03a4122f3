-- ===== src/Read/Udp/Gap.antt =====
-- A packet of a later version behind the gap that packets of version 1 asked for: `read_udp_` of
-- sdk_client/stage_client_read.cpp hands over a pointer into the middle of its buffer.
use ros2_perception.Read.Udp.{
  Receiver, Judged, number_checked, judge_present, judge, hand_over, take_datagram,
}
use ros2_perception.Read.Counters.{Counters, Verified}
use ros2_perception.Read.Packets.{magic_number, major_version}
use ros2_perception.MemPool.{MemPoolManager, address, free}
use ros2_perception.MemPool.Address.{Fits, free-inside}
use ros2_perception.Prelude.{
  Ensures, ℕ, ◌+◌, ◌<◌, ◌≤◌, ◌≡◌, refl, ap, ◌∙◌, subst, Bool, true, false, Option, none, some, List,
  [], ◌∷◌, ◌++◌, ◌==◌, ltb, if_elim, drop, arith,
}

-- A packet of a later version is not moved.
abbrev InPlace : ℕ → Judged → Type 0
InPlace gap j = j.adapted.start ≡ gap

module _ (crc32 : List ℕ → ℕ) (n gap : ℕ) (buf : List ℕ) (c : Counters) where
  number_checked-InPlace :
      (o : Option Bool) (v : Verified) → Ensures (InPlace gap) (number_checked o v gap buf c)
  number_checked-InPlace none v = tt
  number_checked-InPlace (some false) v = refl
  number_checked-InPlace (some true) v = refl

  judge_present-InPlace : Ensures (InPlace gap) (judge_present crc32 n gap buf c)
  unfolding judge_present
  judge_present-InPlace =
      let p = drop gap buf in
      if_elim (Ensures (InPlace gap)) (magic_number p == 0x176A) (λ _. number_checked-InPlace _ _)
        (λ _.
          if_elim (Ensures (InPlace gap)) (magic_number p == 0x186B)
            (λ _. number_checked-InPlace _ _) (λ _. refl))

  judge-InPlace : 1 < major_version (drop gap buf) → Ensures (InPlace gap) (judge crc32 n gap buf c)
  unfolding judge
  judge-InPlace later =
      let version = major_version (drop gap buf) in
      if_elim (Ensures (InPlace gap)) (version == 1)
        (λ first. absurd (ground (arith, first, later)))
        (λ _.
          if_elim (Ensures (InPlace gap)) (ltb 1 version) (λ _. judge_present-InPlace) (λ _. refl))

-- Once packets of version 1 have asked for a gap, a packet of a later version that is taken (by its
-- check and its running number) is handed over, with the misorder queue off, by a pointer into the
-- unit of the pool, which the pool does not take back: freeing it ends the program.
pub take_datagram-behind_gap :
    (crc32 : List ℕ → ℕ) (m : MemPoolManager) (unit n : ℕ) (buf : List ℕ) (st : Receiver)
    (j : Judged)
    → Fits m
    → unit < m.unit_count
    → 16 < m.unit_size
    → st.gap ≡ 16
    → 26 ≤ n
    → 1 < major_version (drop 16 buf)
    → judge crc32 n 16 buf st.counters ≡ some j
    → j.adapted.accepted ≡ true
    → (z : Receiver) × (take_datagram crc32 false n (address m unit) buf st ≡ some z)
      × (hd : ℕ) × (z.delivered ≡ st.delivered ++ (hd ∷ []))
      × (free m hd ≡ none)
unfolding take_datagram
take_datagram-behind_gap crc32 m unit n buf st j fits low wide gap long later e taken =
    let next : Receiver = record st {
      held = some (record { address = address m unit; bytes = j.adapted.buffer });
      gap = j.adapted.gap;
      counters = j.counters;
    } in
    let hd = address m unit + j.adapted.start in
    let start : j.adapted.start ≡ 16 =
      subst (Ensures (InPlace 16)) e (judge-InPlace crc32 n 16 buf st.counters later) in
    (
      hand_over false hd (drop j.adapted.start j.adapted.buffer) next,
      rw (gap, e, taken) (ground arith),
      hd,
      (unfold hand_over in refl),
      ap (λ k. free m (address m unit + k)) start
          ∙ free-inside m unit 16 fits low (omega arith) wide,
    )
