-- ===== src/Read/Adapt/Accepted.antt =====
-- What `check_data_packet_v1_and_convert_packet` of sdk_client/inno_lidar_packet_v1_adapt.h accepts.
use ros2_perception.Packet.Items.{falcon_ring_id_table, size_of_data_packet}
use ros2_perception.Packet.Check.{
  InnoCommonHeader, InnoDataPacket, verify_packet_crc32, check_type, check_fields,
  check_data_packet,
}
use ros2_perception.Packet.Check.Accepted.{passed}
use ros2_perception.Packet.Decode.{common_header_of, data_packet_of}
use ros2_perception.Read.Adapt.{
  Adapted, data_packet_v1_of, check_type_v1, set_packet_crc32, extend_header, convert,
  convert_valid, is_packet, check_data_packet_v1_and_convert_packet,
}
use ros2_perception.Read.Adapt.Bytes.{length-extend_header, new_size}
use ros2_perception.Read.Adapt.Checksum.{length-set_crc, verify-set}
use ros2_perception.Read.Adapt.Data.{
  with_header, check_type-v1, check_type_v1-size, data_packet_of-bytes, le32-drop, IsExtended,
  new-IsExtended,
}
use ros2_perception.Read.Packets.{size}
use ros2_perception.Prelude.{
  length-drop, ◌-◌, ℕ, ◌+◌, ◌^◌, ◌<◌, ◌≤◌, ◌≡◌, ◌⊎◌, inl, inr, refl, sym, ap, subst, ◌∙◌, Bool,
  true, false, Option, none, some, List, if◌then◌else◌, length, drop, get_or, le16, le32, arith,
}

-- A packet that is accepted was valid, and was converted.
pub convert_valid-accepted :
    (crc32 : List ℕ → ℕ) (extend : List ℕ → List ℕ) (buf : List ℕ) (v : Option Bool) (r : Adapted)
    → convert_valid crc32 extend 16 buf v ≡ some r
    → r.accepted ≡ true
    → (v ≡ some true) × (r.start ≡ 0) × (r.buffer ≡ set_packet_crc32 crc32 (extend buf))
unfolding convert
convert_valid-accepted crc32 extend buf none r e a = cc
convert_valid-accepted crc32 extend buf (some false) r e a = ground arith
convert_valid-accepted crc32 extend buf (some true) r e a = ground arith

pub is_packet-bounds :
    (magic n : ℕ) (h : InnoCommonHeader)
    → is_packet magic n h ≡ true
    → 0 < n
    → (h.magic_number ≡ magic) × (h.size ≤ n)
unfolding is_packet
is_packet-bounds magic n h e low = ground arith

header-size : (p : List ℕ) → (data_packet_v1_of p).common.size ≡ le32 p 10
unfolding data_packet_v1_of data_packet_of common_header_of
header-size p = refl

header-magic : (p : List ℕ) → (data_packet_v1_of p).common.magic_number ≡ le16 p 0
unfolding data_packet_v1_of data_packet_of common_header_of
header-magic p = refl

header-of : (p : List ℕ) → (data_packet_v1_of p).common ≡ common_header_of p
unfolding data_packet_v1_of data_packet_of
header-of p = refl

size_lem : (p : List ℕ) → size p ≡ le32 p 10
unfolding size
size_lem p = refl

header_fields :
    (p : List ℕ)
    → ((common_header_of p).size ≡ le32 p 10)
      × ((common_header_of p).major_version ≡ get_or p 2 0)
      × ((common_header_of p).magic_number ≡ le16 p 0)
unfolding common_header_of
header_fields p = (refl, refl, refl)

common_header-rest : (p : List ℕ) → length (common_header_of p).rest ≡ length p - 10
unfolding common_header_of
common_header-rest p = length-drop 10 p

check_data_packet-known :
    (crc32 : List ℕ → ℕ) (pkt : InnoDataPacket) (n : ℕ)
    → pkt.common.magic_number ≡ 0x176A
    → pkt.common.size ≤ n
    → size_of_data_packet ≤ 10 + length pkt.common.rest
    → check_type crc32 pkt ≡ some true
    → check_data_packet crc32 pkt n ≡ some true
unfolding check_data_packet check_fields
check_data_packet-known crc32 pkt n magic fits struct e = ground arith

module _ (crc32 : List ℕ → ℕ) (bound : (bs : List ℕ) → crc32 bs < 2 ^ 32) (n : ℕ) (buf : List ℕ)
    (pos : 0 < n) (room : 16 + n ≤ length buf) (small : length buf < 2 ^ 32)
    (valid : check_type_v1 crc32 (data_packet_v1_of (drop 16 buf)) ≡ some true)
    (fits : le32 (drop 16 buf) 10 ≤ n) (magic : le16 (drop 16 buf) 0 ≡ 0x176A) where
  abbrev new : List ℕ
  new = set_packet_crc32 crc32 (extend_header buf)

  abbrev old : InnoDataPacket
  old = data_packet_v1_of (drop 16 buf)

  holds-header : 54 ≤ le32 (drop 16 buf) 10
  holds-header =
      subst (λ k. 54 ≤ k) (header-size (drop 16 buf))
        (check_type_v1-size crc32 old.common old.item_number old.item_size old.message_size
          old.item_type old.multi_return_mode valid)

  extended : IsExtended (drop 16 buf) new
  extended = new-IsExtended crc32 buf (omega (arith, holds-header)) (omega arith)

  length-new : length new ≡ length buf
  length-new =
      let l = length-extend_header buf (omega (arith, holds-header)) in
      length-set_crc crc32 (extend_header buf) (omega (arith, l, holds-header)) ∙ l

  verified-new : verify_packet_crc32 crc32 (common_header_of new) ≡ some true
  verified-new =
      let n' : le32 (extend_header buf) 10 ≡ le32 (drop 16 buf) 10 + 16 =
        new_size buf (omega (arith, holds-header)) (omega arith) in
      let l = length-extend_header buf (omega (arith, holds-header)) in
      let z = size_lem (extend_header buf) in
      verify-set crc32 (extend_header buf) bound (omega (arith, n', holds-header, z))
        (omega (arith, n', z)) (omega (arith, n', l, z))

  new-packet : data_packet_of new ≡ with_header old (common_header_of new)
  new-packet =
      data_packet_of-bytes (drop 16 buf) new extended.fields (
        sym (le32-drop 70 new) ∙ ap (λ bs. le32 bs 0) extended.payload ∙ le32-drop 54 (drop 16 buf))

  new-checked :
      (old.item_type ≡ falcon_ring_id_table)
      ⊎ (check_data_packet crc32 (data_packet_of new) (n + 16) ≡ some true)
  new-checked =
      let h = common_header_of new in
      let (at_size, at_version, at_magic) = header_fields new in
      let magic_bytes : le16 new 0 ≡ 0x176A =
        omega (arith, magic, extended.magic 0 (omega arith), extended.magic 1 (omega arith)) in
      let longer : h.size ≡ old.common.size + 16 =
        at_size ∙ extended.longer ∙ ap (λ k. k + 16) (sym (header-size (drop 16 buf))) in
      let known : h.major_version ≤ 4 = omega (arith, at_version, extended.version) in
      let low : h.size < 2 ^ 32 = omega (arith, at_size, extended.longer) in
      let rest : length h.rest ≡ length new - 10 = common_header-rest new in
      let inside : h.size ≤ 10 + length h.rest =
        omega (arith, at_size, extended.longer, length-new, rest, fits, room, pos) in
      elim (check_type-v1 crc32 old.common old.item_number old.item_size old.message_size h longer
        low known inside verified-new old.item_type old.multi_return_mode valid) [
          | inl table ↦ inl table
          | inr checked ↦ inr (
              ap (λ pkt. check_data_packet crc32 pkt (n + 16)) new-packet
              ∙ check_data_packet-known crc32 (with_header old h) (n + 16) (at_magic ∙ magic_bytes)
                  (omega (arith, at_size, extended.longer))
                  (omega (arith, inside, at_size, extended.longer, holds-header)) checked)
        ]

-- With a gap in front of it, and room in the buffer, a data packet of version 1 that is accepted is
-- made one of version 2 at the front of the gap: 16 bytes longer, with the same magic number, fields
-- and payload and with the reserved bytes cleared; and `check_data_packet` takes it, unless it is a
-- ring id table.
pub check_data_packet_v1_lem :
    (crc32 : List ℕ → ℕ) (n : ℕ) (buf : List ℕ) (r : Adapted)
    → ((bs : List ℕ) → crc32 bs < 2 ^ 32)
    → 0 < n
    → 16 + n ≤ length buf
    → length buf < 2 ^ 32
    → check_data_packet_v1_and_convert_packet crc32 n 16 buf ≡ some r
    → r.accepted ≡ true
    → (r.start ≡ 0)
      × (length r.buffer ≡ length buf)
      × IsExtended (drop 16 buf) r.buffer
      × (((data_packet_v1_of (drop 16 buf)).item_type ≡ falcon_ring_id_table)
          ⊎ (check_data_packet crc32 (data_packet_of r.buffer) (n + 16) ≡ some true))
unfolding check_data_packet_v1_and_convert_packet
check_data_packet_v1_lem crc32 n buf r bound pos room small e a =
    let pkt = data_packet_v1_of (drop 16 buf) in
    let test = is_packet 0x176A n pkt.common in
    let (valid, at_start, converted) =
      convert_valid-accepted crc32 extend_header buf
        (if test then check_type_v1 crc32 pkt else some false) r e a in
    let (guard, typed) = passed test valid in
    let (magic, fits) = is_packet-bounds 0x176A n pkt.common guard pos in
    let fits' : le32 (drop 16 buf) 10 ≤ n = subst (λ k. k ≤ n) (header-size (drop 16 buf)) fits in
    let magic' : le16 (drop 16 buf) 0 ≡ 0x176A = sym (header-magic (drop 16 buf)) ∙ magic in
    rw converted (
      at_start,
      length-new crc32 bound n buf pos room small typed fits' magic',
      extended crc32 bound n buf pos room small typed fits' magic',
      new-checked crc32 bound n buf pos room small typed fits' magic',
    )
