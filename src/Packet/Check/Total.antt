-- ===== src/Packet/Check/Total.antt =====
-- The check of a data packet comes to an answer, but for the points of Robin E.
use ros2_perception.Prelude.{
  ℕ, ◌+◌, ◌-◌, ◌^◌, ◌<◌, ◌≤◌, ◌≡◌, ◌≢◌, inl, inr, refl, Bool, true, false, not, ◌&&◌, Option, some,
  List, ◌++◌, ◌==◌, ltb, leb, if_elim, Option-cases, length, take, arith,
}
use ros2_perception.Packet.Items.{
  Layout, unit_size, checked_layout, get_data_packet_size, robine_xyz_pointcloud,
  size_of_data_packet, size_of_message,
}
use ros2_perception.Packet.Check.{
  InnoCommonHeader, InnoDataPacket, verify_packet_crc32, check_data, check_message, check_other,
  check_type, is_message, is_anglehv_table, has_bytes, check_fields, check_data_packet,
}
use ros2_perception.Packet.Check.Accepted.{
  calculate_packet_crc32_lem, sized-checked, get_data_packet_size_lem,
}

-- The code neither aborts nor reads behind the buffer.
pub Answers : Option Bool → Type 0
Answers r = (b : Bool) × (r ≡ some b)

-- The header says a size that the buffer has.
pub record IsInside (h : InnoCommonHeader) : Type 0 where
  pub low : 10 ≤ h.size
  pub high : h.size < 2 ^ 32
  pub inside : h.size ≤ 10 + length h.rest

-- The buffer has what the check reads of a packet besides: the struct, and of a message its size.
pub record IsReadable (pkt : InnoDataPacket) : Type 0 where
  pub struct : size_of_data_packet ≤ 10 + length pkt.common.rest
  pub message_head : is_message pkt.item_type ≡ true → 74 ≤ 10 + length pkt.common.rest

module _ (crc32 : List ℕ → ℕ) where
  verify-Answers : (h : InnoCommonHeader) → IsInside h → Answers (verify_packet_crc32 crc32 h)
  unfolding Answers verify_packet_crc32
  verify-Answers h w =
      let e = calculate_packet_crc32_lem crc32 h w.low w.high w.inside in
      (
        (h.checksum == crc32 (h.version ++ take (h.size - 10) h.rest)),
        rw (e, verify_packet_crc32) refl,
      )

  check_data-Answers :
      (pkt : InnoDataPacket) (s : ℕ)
      → IsInside pkt.common
      → get_data_packet_size pkt.item_type pkt.item_number pkt.multi_return_mode ≡ some s
      → Answers (check_data crc32 pkt)
  unfolding Answers check_data
  check_data-Answers pkt s w e =
      let (ok, v) = verify-Answers pkt.common w in
      rw (e, check_data, v)
        (if_elim Answers (pkt.common.size == s)
          (λ _. ((ok && leb pkt.common.major_version 4), refl)) (λ _. (false, refl)))

  check_message-Answers :
      (pkt : InnoDataPacket)
      → IsInside pkt.common
      → 74 ≤ 10 + length pkt.common.rest
      → Answers (check_message crc32 pkt)
  unfolding Answers check_message
  check_message-Answers pkt w head =
      if_elim Answers (not (pkt.item_number == 1)) (λ _. (false, refl))
        (λ _.
          if_elim Answers (not (has_bytes 74 pkt.common)) (λ e. absurd (ground (arith, e, head)))
            (λ _.
              if_elim Answers
                ((pkt.item_size == pkt.message_size)
                  && ltb size_of_message pkt.item_size
                  && (pkt.common.size == pkt.item_size + size_of_data_packet))
                (λ _. verify-Answers pkt.common w) (λ _. (false, refl))))

  check_other-Answers :
      (pkt : InnoDataPacket)
      → IsInside pkt.common
      → IsReadable pkt
      → Answers (check_other crc32 pkt)
  unfolding check_other
  check_other-Answers pkt w readable =
      if_elim Answers (is_message pkt.item_type)
        (λ e. check_message-Answers pkt w (readable.message_head e))
        (λ _.
          if_elim Answers (is_anglehv_table pkt.item_type) (λ _. verify-Answers pkt.common w)
            (λ _. unfold Answers in (false, refl)))

  check_layout-Answers :
      (pkt : InnoDataPacket) (l : Layout)
      → IsInside pkt.common
      → pkt.item_type ≢ robine_xyz_pointcloud
      → pkt.item_number < 2 ^ 24
      → pkt.item_size < 2 ^ 16
      → checked_layout pkt.item_type ≡ some l
      → Answers (check_type crc32 pkt)
  unfolding Answers check_type
  check_layout-Answers pkt l w other few small known =
      elim (Option-cases (unit_size l pkt.multi_return_mode)) [
        | inl bad ↦ (false, rw (known, bad, check_type) refl)
        | inr (u, is) ↦
            rw (known, is, check_type)
              (if_elim Answers (pkt.item_size == u)
                (λ e. elim (sized-checked pkt.item_type l known) [
                  | inl robine ↦ absurd (other robine)
                  | inr sized ↦ check_data-Answers pkt _ w (
                      get_data_packet_size_lem _ pkt.item_number _ l u sized is few
                        (ground (arith, e, small)))
                ])
                (λ e. (false, refl)))
      ]

  -- The check of a packet whose struct is in the buffer, as is the size of a message where it is one,
  -- and whose header says at least 10 bytes, all of them in the buffer, comes to an answer, unless it
  -- carries points of Robin E.
  pub check_data_packet-Answers :
      (pkt : InnoDataPacket) (size : ℕ)
      → IsInside pkt.common
      → IsReadable pkt
      → pkt.item_type ≢ robine_xyz_pointcloud
      → pkt.item_number < 2 ^ 24
      → pkt.item_size < 2 ^ 16
      → Answers (check_data_packet crc32 pkt size)
  unfolding check_data_packet check_fields check_type Answers
  check_data_packet-Answers pkt size w readable other few small =
      if_elim Answers
        ((pkt.common.magic_number == 0x176A) && not (ltb 0 size && ltb size pkt.common.size))
        (λ _.
          if_elim Answers (has_bytes size_of_data_packet pkt.common)
            (λ _. elim (Option-cases (checked_layout pkt.item_type)) [
              | inl unknown ↦
                  let (b, e) = check_other-Answers pkt w readable in (b, rw (unknown, check_type) e)
              | inr (l, known) ↦ check_layout-Answers pkt l w other few small known
            ])
            (λ e. absurd (ground (arith, e, readable.struct))))
        (λ _. (false, refl))
