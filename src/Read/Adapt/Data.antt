-- ===== src/Read/Adapt/Data.antt =====
-- What the adaptation makes of a data packet of version 1
-- (sdk_client/inno_lidar_packet_v1_adapt.h).
use ros2_perception.Packet.Items.{
  InnoItemType, sphere_pointcloud, xyz_pointcloud, message, message_log, falcon_ring_id_table,
  InnoMultipleReturnMode, mode_none, mode_single, mode_2_strongest, mode_2_strongest_furthest,
  mode_above, get_data_packet_size,
}
use ros2_perception.Packet.Check.{
  InnoCommonHeader, InnoDataPacket, verify_packet_crc32, check_type, check_data, check_other,
  check_message,
}
use ros2_perception.Packet.Decode.{common_header_of, data_packet_of}
use ros2_perception.Read.Adapt.{
  data_packet_v1_of, get_data_packet_v1_size, check_points_v1, check_message_v1, check_table_v1,
  check_type_v1, set_packet_crc32, extend_header,
}
use ros2_perception.Read.Adapt.Bytes
use ros2_perception.Read.Adapt.Checksum.{get_or-set_crc, drop-set, le32-bytes}
use ros2_perception.Prelude.{
  ℕ, zero, suc, replicate, drop-plus, ◌+◌, ◌^◌, ◌<◌, ◌≤◌, ◌≡◌, ◌⊎◌, inl, inr, refl, sym, ap, ◌∙◌,
  true, some, List, length, drop, get_or, get_or-drop, le32, arith,
}

-- The packet that version 2 makes of the fields of one of version 1.
abbrev pub with_header : InnoDataPacket → InnoCommonHeader → InnoDataPacket
with_header pkt h = record pkt { common = h }

-- What passes the tests of version 1 passes those of the present one, 16 bytes longer.
module _ (crc32 : List ℕ → ℕ) (c : InnoCommonHeader) (n m k : ℕ) where
  abbrev packet : InnoItemType → InnoMultipleReturnMode → InnoCommonHeader → InnoDataPacket
  packet t mode h = record {
    common = h;
    item_type = t;
    item_number = n;
    item_size = m;
    multi_return_mode = mode;
    message_size = k;
  }

  pub check_type-v1 :
      (c' : InnoCommonHeader)
      → c'.size ≡ c.size + 16
      → c'.size < 2 ^ 32
      → c'.major_version ≤ 4
      → c'.size ≤ 10 + length c'.rest
      → verify_packet_crc32 crc32 c' ≡ some true
      → (t : InnoItemType) (mode : InnoMultipleReturnMode)
      → check_type_v1 crc32 (packet t mode c) ≡ some true
      → (t ≡ falcon_ring_id_table) ⊎ (check_type crc32 (packet t mode c') ≡ some true)
  unfolding check_type_v1 check_points_v1 check_message_v1 get_data_packet_v1_size check_type
      check_data check_other check_message get_data_packet_size
  check_type-v1 c' longer low known inside summed sphere_pointcloud mode_single h =
      inr (ground arith)
  check_type-v1 c' longer low known inside summed sphere_pointcloud mode_2_strongest h =
      inr (ground arith)
  check_type-v1 c' longer low known inside summed sphere_pointcloud mode_2_strongest_furthest h =
      inr (ground arith)
  check_type-v1 c' longer low known inside summed sphere_pointcloud mode_none h = cc
  check_type-v1 c' longer low known inside summed sphere_pointcloud mode_above h = cc
  check_type-v1 c' longer low known inside summed xyz_pointcloud mode h = inr (ground arith)
  check_type-v1 c' longer low known inside summed message mode h = inr (ground arith)
  check_type-v1 c' longer low known inside summed message_log mode h = inr (ground arith)
  check_type-v1 c' longer low known inside summed falcon_ring_id_table mode h = inl refl
  check_type-v1 c' longer low known inside summed _ mode h = cc

  -- A packet that passes holds its header.
  pub check_type_v1-size :
      (t : InnoItemType) (mode : InnoMultipleReturnMode)
      → check_type_v1 crc32 (packet t mode c) ≡ some true
      → 54 ≤ c.size
  unfolding check_type_v1 check_points_v1 check_message_v1 check_table_v1 get_data_packet_v1_size
  check_type_v1-size sphere_pointcloud mode_single h = ground arith
  check_type_v1-size sphere_pointcloud mode_2_strongest h = ground arith
  check_type_v1-size sphere_pointcloud mode_2_strongest_furthest h = ground arith
  check_type_v1-size sphere_pointcloud mode_none h = cc
  check_type_v1-size sphere_pointcloud mode_above h = cc
  check_type_v1-size xyz_pointcloud mode h = ground arith
  check_type_v1-size message mode h = ground arith
  check_type_v1-size message_log mode h = ground arith
  check_type_v1-size falcon_ring_id_table mode h = ground arith
  check_type_v1-size _ mode h = cc

-- A packet is read from some of its bytes only.
pub data_packet_of-bytes :
    (p q : List ℕ)
    → ((j : ℕ) → 14 ≤ j → j < 54 → get_or q j 0 ≡ get_or p j 0)
    → le32 q 70 ≡ le32 p 54
    → data_packet_of q ≡ with_header (data_packet_v1_of p) (common_header_of q)
unfolding data_packet_of data_packet_v1_of
data_packet_of-bytes p q same text =
    let at = λ (j : ℕ) (low : 14 ≤ j) (high : j < 54). same j low high in
    rw
      (
        at 38 (omega arith) (omega arith),
        at 39 (omega arith) (omega arith),
        at 40 (omega arith) (omega arith),
        at 41 (omega arith) (omega arith),
        at 42 (omega arith) (omega arith),
        at 43 (omega arith) (omega arith),
        at 48 (omega arith) (omega arith),
        text,
      )
      refl

pub le32-drop : (k : ℕ) (p : List ℕ) → le32 (drop k p) 0 ≡ le32 p k
le32-drop k p = omega (
  arith,
  ap (λ n. get_or p n 0) (let e : k + 0 ≡ k = omega arith in e),
  ap (λ n. get_or p n 0) (let e : k + 2 + 1 ≡ k + 3 = omega arith in e),
  get_or-drop k 0 p 0,
  get_or-drop k 1 p 0,
  get_or-drop k 2 p 0,
  get_or-drop k 3 p 0,
)

-- `new` is `old`, a packet of version 1, with the header of version 2.
pub record IsExtended (old new : List ℕ) : Type 0 where
  pub magic : (j : ℕ) → j < 2 → get_or new j 0 ≡ get_or old j 0
  pub version : get_or new 2 0 ≡ 2
  pub longer : le32 new 10 ≡ le32 old 10 + 16
  pub fields : (j : ℕ) → 14 ≤ j → j < 54 → get_or new j 0 ≡ get_or old j 0
  pub reserved : (k : ℕ) → k < 16 → get_or new (54 + k) 0 ≡ 0
  pub payload : drop 70 new ≡ drop 54 old

zeros : (k n : ℕ) → ◌≡◌ {A = ℕ} (get_or (replicate n 0) k 0) 0
zeros k zero = refl
zeros zero (suc n) = refl
zeros (suc k) (suc n) = zeros k n

module _ (crc32 : List ℕ → ℕ) (buf : List ℕ) (room : 70 ≤ length buf)
    (low : le32 (drop 16 buf) 10 + 16 < 2 ^ 32) where
  abbrev new : List ℕ
  new = set_packet_crc32 crc32 (extend_header buf)

  new-room : 14 ≤ length (extend_header buf)
  new-room = omega (arith, Bytes.length-extend_header buf room)

  kept : (j : ℕ) → (j < 6) ⊎ (10 ≤ j) → get_or new j 0 ≡ get_or (extend_header buf) j 0
  kept j h = get_or-set_crc crc32 (extend_header buf) new-room j h

  pub new-IsExtended : IsExtended (drop 16 buf) new
  new-IsExtended = record {
    magic = λ j h.
        kept j (inl (omega arith)) ∙ Bytes.kept_magic buf room j h ∙ sym (get_or-drop 16 j buf 0);
    version = kept 2 (inl (omega arith)) ∙ Bytes.new_version buf room;
    longer =
        le32-bytes new (extend_header buf) 10 (kept 10 (inr (omega arith)))
          (kept 11 (inr (omega arith))) (kept 12 (inr (omega arith))) (kept 13 (inr (omega arith)))
        ∙ Bytes.new_size buf room low;
    fields = λ j l h.
        kept j (inr (omega arith)) ∙ Bytes.kept_field buf room j l h ∙ sym (get_or-drop 16 j buf 0);
    reserved =
        λ k h. kept (54 + k) (inr (omega arith)) ∙ Bytes.reserved_byte buf room k h ∙ zeros k 16;
    payload =
        drop-set crc32 (extend_header buf) new-room 70 (omega arith)
        ∙ Bytes.drop-extend_header buf room 70 (omega arith)
        ∙ sym (drop-plus 16 54 buf);
  }
