-- ===== src/Read/Udp/Judge.antt =====
-- What the checks of sdk_client/stage_client_read.cpp leave of the buffer and the gap, where all
-- packets are of version 1 or all of later ones.
use ros2_perception.Read.Udp.{
  Judged, with_counters, in_place, judge_v1, number_checked, judge_present, judge,
}
use ros2_perception.Packet.Decode.{item_type_of, sub_seq}
use ros2_perception.Read.Adapt.{
  Adapted, convert, convert_valid, extend_header, extend_status,
  check_data_packet_v1_and_convert_packet, check_status_packet_v1_and_convert_packet,
}
use ros2_perception.Read.Counters.{Counters, Verified, verify_inno_data_packet_counter}
use ros2_perception.Read.Packets.{magic_number, major_version, item_type}
use ros2_perception.Prelude.{
  Ensures, ℕ, ◌≡◌, ◌⊎◌, inl, inr, refl, Bool, true, false, not, Option, none, some, List, ◌==◌, ltb,
  if_elim, drop, arith,
}

-- Whether a major version is one of a port's packets, `true` for version 1.
abbrev pub is_of : Bool → ℕ → Bool
is_of true version = not (ltb 1 version)
is_of false version = not (version == 1)

abbrev pub Ready : Bool → ℕ → Type 0
Ready true gap = (gap ≡ 0) ⊎ (gap ≡ 16)
Ready false gap = gap ≡ 0

-- Either the packet is refused, and the buffer stays as it was, or it stands at the front.
abbrev pub IsSound : Bool → List ℕ → Adapted → Type 0
IsSound v buf a =
    Ready v a.gap
    × (((a.accepted ≡ false) × (a.buffer ≡ buf)) ⊎ ((a.accepted ≡ true) × (a.start ≡ 0)))

convert_valid-IsSound :
    (crc32 : List ℕ → ℕ) (extend : List ℕ → List ℕ) (gap : ℕ) (buf : List ℕ) (v : Option Bool)
    → Ready true gap
    → Ensures (IsSound true buf) (convert_valid crc32 extend gap buf v)
unfolding convert
convert_valid-IsSound crc32 extend gap buf none h = tt
convert_valid-IsSound crc32 extend gap buf (some false) h = (h, inl (refl, refl))
convert_valid-IsSound crc32 extend gap buf (some true) (inl h) = rw h (inr refl, inl (refl, refl))
convert_valid-IsSound crc32 extend gap buf (some true) (inr h) = rw h (inr refl, inr (refl, refl))

with_counters-IsSound :
    (v : Bool) (buf : List ℕ) (c : Counters) (o : Option Adapted)
    → Ensures (IsSound v buf) o
    → Ensures (λ (j : Judged). IsSound v buf j.adapted) (with_counters c o)
with_counters-IsSound v buf c none h = tt
with_counters-IsSound v buf c (some a) h = h

module _ (crc32 : List ℕ → ℕ) (n gap : ℕ) (buf : List ℕ) (c : Counters) where
  judge_v1-IsSound :
      Ready true gap
      → Ensures (λ (j : Judged). IsSound true buf j.adapted) (judge_v1 crc32 n gap buf c)
  unfolding judge_v1 check_data_packet_v1_and_convert_packet
      check_status_packet_v1_and_convert_packet
  judge_v1-IsSound h =
      let p = drop gap buf in
      let v : Verified =
        verify_inno_data_packet_counter c (item_type_of (item_type p)) (sub_seq p) in
      if_elim (λ (o : Option Judged). Ensures (λ (j : Judged). IsSound true buf j.adapted) o)
        (magic_number p == 0x176A)
        (λ _. with_counters-IsSound true buf v.counters _ (
          if_elim (Ensures (IsSound true buf)) v.accepted
            (λ _. convert_valid-IsSound crc32 extend_header gap buf _ h)
            (λ _. (h, inl (refl, refl)))))
        (λ _. with_counters-IsSound true buf c _ (
          if_elim (Ensures (IsSound true buf)) (magic_number p == 0x186B)
            (λ _. convert_valid-IsSound crc32 extend_status gap buf _ h)
            (λ _. (h, inl (refl, refl)))))

  -- A packet of a later version that is taken stands at the front where there is no gap.
  in_place-IsSound : (accepted : Bool) → gap ≡ 0 → IsSound false buf (in_place accepted gap buf)
  in_place-IsSound true h = (h, inr (refl, h))
  in_place-IsSound false h = (h, inl (refl, refl))

  number_checked-IsSound :
      (o : Option Bool) (v : Verified)
      → gap ≡ 0
      → Ensures (λ (j : Judged). IsSound false buf j.adapted) (number_checked o v gap buf c)
  number_checked-IsSound none v h = tt
  number_checked-IsSound (some false) v h = (h, inl (refl, refl))
  number_checked-IsSound (some true) v h = in_place-IsSound v.accepted h

  judge_present-IsSound :
      gap ≡ 0
      → Ensures (λ (j : Judged). IsSound false buf j.adapted) (judge_present crc32 n gap buf c)
  unfolding judge_present
  judge_present-IsSound h =
      let p = drop gap buf in
      if_elim (λ (o : Option Judged). Ensures (λ (j : Judged). IsSound false buf j.adapted) o)
        (magic_number p == 0x176A) (λ _. number_checked-IsSound _ _ h)
        (λ _.
          if_elim (λ (o : Option Judged). Ensures (λ (j : Judged). IsSound false buf j.adapted) o)
            (magic_number p == 0x186B) (λ _. number_checked-IsSound _ _ h)
            (λ _. (h, inl (refl, refl))))

  pub judge-IsSound :
      (v : Bool)
      → Ready v gap
      → is_of v (major_version (drop gap buf)) ≡ true
      → Ensures (λ (j : Judged). IsSound v buf j.adapted) (judge crc32 n gap buf c)
  unfolding judge
  judge-IsSound true h version =
      let m = major_version (drop gap buf) in
      if_elim (λ (o : Option Judged). Ensures (λ (j : Judged). IsSound true buf j.adapted) o)
        (m == 1) (λ _. judge_v1-IsSound h)
        (λ _.
          if_elim (λ (o : Option Judged). Ensures (λ (j : Judged). IsSound true buf j.adapted) o)
            (ltb 1 m) (λ above. absurd (ground (arith, above, version)))
            (λ _. (h, inl (refl, refl))))
  judge-IsSound false h version =
      let m = major_version (drop gap buf) in
      if_elim (λ (o : Option Judged). Ensures (λ (j : Judged). IsSound false buf j.adapted) o)
        (m == 1) (λ first. absurd (ground (arith, first, version)))
        (λ _.
          if_elim (λ (o : Option Judged). Ensures (λ (j : Judged). IsSound false buf j.adapted) o)
            (ltb 1 m) (λ _. judge_present-IsSound h) (λ _. (h, inl (refl, refl))))
