-- ===== src/Packet/Check/Accepted.antt =====
-- What the checks of packets promise, and where they abort.
use ros2_perception.Prelude.{
  ℕ, ◌+◌, ◌-◌, ◌*◌, ◌^◌, ◌<◌, ◌≤◌, ◌≡◌, ◌⊎◌, inl, inr, refl, ◌∙◌, ap, sym, Bool, true, false, not,
  ◌&&◌, Option, none, some, List, ◌++◌, ◌==◌, ltb, leb, if◌then◌else◌, if_elim, Option-cases, sub64,
  length, take, arith,
}
use native.Mathlib.Nat.{mod-eq_of_lt, mul-le-mul_right}
use ros2_perception.Packet.Items.{
  InnoItemType, InnoMultipleReturnMode, Layout, en_xyz_point, unit_size, checked_layout,
  sized_layout, robine2_xyz_pointcloud, robine2x_xyz_pointcloud, get_data_packet_size,
  size_of_data_packet, robine_xyz_pointcloud,
}
use ros2_perception.Packet.Check.{
  InnoCommonHeader, InnoDataPacket, calculate_packet_crc32, verify_packet_crc32, check_data,
  check_type, check_fields, has_bytes, check_data_packet, check_status_packet,
}

-- The checksum of a header whose bytes are all in the buffer is computed.
pub calculate_packet_crc32_lem :
    (crc32 : List ℕ → ℕ) (h : InnoCommonHeader)
    → 10 ≤ h.size
    → h.size < 2 ^ 32
    → h.size ≤ 10 + length h.rest
    → calculate_packet_crc32 crc32 h ≡ some (crc32 (h.version ++ take (h.size - 10) h.rest))
unfolding calculate_packet_crc32
calculate_packet_crc32_lem crc32 h low high inside =
    let e : sub64 h.size 10 ≡ h.size - 10 = omega (arith, low, high) in
    rw e (ground (arith, inside, low))

-- A header that says less than 10 bytes makes the code read behind any buffer below 2 ^ 63 bytes.
calculate_short :
    (crc32 : List ℕ → ℕ) (h : InnoCommonHeader)
    → h.size < 10
    → length h.rest < 2 ^ 63
    → calculate_packet_crc32 crc32 h ≡ none
unfolding calculate_packet_crc32
calculate_short crc32 h low small = ground (arith, low, small)

pub record IsAccepted (crc32 : List ℕ → ℕ) (pkt : InnoDataPacket) (size : ℕ) : Type 0 where
  pub magic : pkt.common.magic_number ≡ 0x176A
  pub fits : (size ≡ 0) ⊎ (pkt.common.size ≤ size)
  pub filled : pkt.common.size ≡ size_of_data_packet + pkt.item_number * pkt.item_size
  pub summed : calculate_packet_crc32 crc32 pkt.common ≡ some pkt.common.checksum
  pub known : pkt.common.major_version ≤ 4

verify_short :
    (crc32 : List ℕ → ℕ) (h : InnoCommonHeader)
    → h.size < 10
    → length h.rest < 2 ^ 63
    → verify_packet_crc32 crc32 h ≡ none
unfolding verify_packet_crc32
verify_short crc32 h low small = rw (calculate_short crc32 h low small, verify_packet_crc32) refl

-- A status packet with the right magic number that says it has less than 10 bytes makes the check
-- read behind the buffer, which is shorter than 2 ^ 63 bytes.
check_status_short :
    (crc32 : List ℕ → ℕ) (h : InnoCommonHeader) (size : ℕ)
    → h.magic_number ≡ 0x186B
    → h.size < 10
    → h.size ≤ size
    → length h.rest < 2 ^ 63
    → check_status_packet crc32 h size ≡ none
unfolding check_status_packet
check_status_short crc32 h size magic low fits small =
    if_elim (λ r. r ≡ none) ((h.magic_number == 0x186B) && not (ltb 0 size && ltb size h.size))
      (λ e. verify_short crc32 h low small) (λ e. ground (arith, e, magic, fits))

-- A check that ends in true passed its guard.
pub passed :
    (b : Bool) {x : Option Bool}
    → (if b then x else some false) ≡ some true
    → (b ≡ true) × (x ≡ some true)
passed true e = (refl, e)
passed false e = cc

verified :
    (crc32 : List ℕ → ℕ) (h : InnoCommonHeader) (b : Bool)
    → elim (verify_packet_crc32 crc32 h) as (λ _. Option Bool) [
      | none ↦ none
      | some ok ↦ some (ok && b)
    ]
      ≡ some true
    → (calculate_packet_crc32 crc32 h ≡ some h.checksum) × (b ≡ true)
unfolding verify_packet_crc32
verified crc32 h b e = elim (Option-cases (calculate_packet_crc32 crc32 h)) [
  | inl bad ↦ cc (rw (bad, verify_packet_crc32) at e)
  | inr (c, is) ↦ (
    is ∙ ap some (ground (arith, rw (is, verify_packet_crc32) at e)),
    ground (arith, rw (is, verify_packet_crc32) at e),
  )
]

check_data-size :
    (crc32 : List ℕ → ℕ) (pkt : InnoDataPacket) (s : ℕ)
    → get_data_packet_size pkt.item_type pkt.item_number pkt.multi_return_mode ≡ some s
    → check_data crc32 pkt ≡ some true
    → (pkt.common.size ≡ s)
      × (calculate_packet_crc32 crc32 pkt.common ≡ some pkt.common.checksum)
      × (pkt.common.major_version ≤ 4)
unfolding check_data
check_data-size crc32 pkt s known e =
    let (same, rest) = passed (pkt.common.size == s) (rw (known, check_data) at e) in
    let (sum, version) = verified crc32 pkt.common (leb pkt.common.major_version 4) rest in
    (ground (arith, same), sum, ground (arith, version))

check_type-data :
    (crc32 : List ℕ → ℕ) (pkt : InnoDataPacket) (l : Layout)
    → checked_layout pkt.item_type ≡ some l
    → check_type crc32 pkt ≡ some true
    → (unit_size l pkt.multi_return_mode ≡ some pkt.item_size) × (check_data crc32 pkt ≡ some true)
unfolding check_type
check_type-data crc32 pkt l known e = elim (Option-cases (unit_size l pkt.multi_return_mode)) [
  | inl bad ↦ cc (rw (known, bad, check_type) at e)
  | inr (u, is) ↦
      let (same, rest) = passed (pkt.item_size == u) (rw (known, is, check_type) at e) in
      (is ∙ ap some (ground (arith, same)), rest)
]

-- Every type whose items are checked has a size, but for the points of Robin E.
pub sized-checked :
    (t : InnoItemType) (l : Layout)
    → checked_layout t ≡ some l
    → (t ≡ robine_xyz_pointcloud) ⊎ (sized_layout t ≡ some l)
sized-checked robine_xyz_pointcloud l e = inl refl
sized-checked robine2_xyz_pointcloud l e = cc
sized-checked robine2x_xyz_pointcloud l e = cc
sized-checked _ l e = inr e

pub get_data_packet_size_lem :
    (t : InnoItemType) (count : ℕ) (mode : InnoMultipleReturnMode) (l : Layout) (u : ℕ)
    → sized_layout t ≡ some l
    → unit_size l mode ≡ some u
    → count < 2 ^ 24
    → u < 2 ^ 16
    → get_data_packet_size t count mode ≡ some (size_of_data_packet + count * u)
unfolding get_data_packet_size
get_data_packet_size_lem t count mode l u sized unit few small =
    let bound : count * u < 2 ^ 40 =
      omega (arith, mul-le-mul_right {m = count} {n = 2 ^ 24} u (omega (arith, few)), small) in
    rw (sized, unit, get_data_packet_size) (ap some (mod-eq_of_lt (omega (arith, bound))))

get_data_packet_size_robine :
    (t : InnoItemType) (count : ℕ) (mode : InnoMultipleReturnMode)
    → t ≡ robine_xyz_pointcloud
    → get_data_packet_size t count mode ≡ none
unfolding get_data_packet_size
get_data_packet_size_robine t count mode e = rw e refl

check_fields-type :
    (crc32 : List ℕ → ℕ) (pkt : InnoDataPacket)
    → check_fields crc32 pkt ≡ some true
    → check_type crc32 pkt ≡ some true
unfolding check_fields
check_fields-type crc32 pkt e = ground (arith, e)

-- A point cloud packet that the check accepts fits in the buffer if its size is given, holds exactly
-- the items that it says behind its header, is what its checksum covers, and has a known version.
pub check_data_packet_lem :
    (crc32 : List ℕ → ℕ) (pkt : InnoDataPacket) (size : ℕ) (l : Layout)
    → checked_layout pkt.item_type ≡ some l
    → pkt.item_number < 2 ^ 24
    → pkt.item_size < 2 ^ 16
    → check_data_packet crc32 pkt size ≡ some true
    → IsAccepted crc32 pkt size
unfolding check_data_packet check_data
check_data_packet_lem crc32 pkt size l known few small e =
    let (guard, e1) =
      passed ((pkt.common.magic_number == 0x176A) && not (ltb 0 size && ltb size pkt.common.size))
        e in
    let (unit, e2) = check_type-data crc32 pkt l known (check_fields-type crc32 pkt e1) in
    elim (sized-checked pkt.item_type l known) [
      | inl robine ↦
          let no_size =
            get_data_packet_size_robine pkt.item_type pkt.item_number pkt.multi_return_mode
              robine in
          cc (rw (no_size, check_data) at e2)
      | inr sized ↦
          let s = get_data_packet_size_lem _ pkt.item_number _ l _ sized unit few small in
          let (same, sum, version) = check_data-size crc32 pkt _ s e2 in
          record {
            magic = ground (arith, guard);
            fits = ground (arith, guard);
            filled = same;
            summed = sum;
            known = version;
          }
    ]

pub check_data-unsized :
    (crc32 : List ℕ → ℕ) (pkt : InnoDataPacket)
    → get_data_packet_size pkt.item_type pkt.item_number pkt.multi_return_mode ≡ none
    → check_data crc32 pkt ≡ none
unfolding check_data
check_data-unsized crc32 pkt e = rw (e, check_data) refl

pub check_type-check_data :
    (crc32 : List ℕ → ℕ) (pkt : InnoDataPacket) (l : Layout)
    → checked_layout pkt.item_type ≡ some l
    → unit_size l pkt.multi_return_mode ≡ some pkt.item_size
    → check_type crc32 pkt ≡ check_data crc32 pkt
unfolding check_type
check_type-check_data crc32 pkt l known unit = rw (known, unit, check_type) (ground arith)

-- The points of Robin E in a packet that fits pass the test of their size, and then the check aborts
-- since `get_data_packet_size` does not know the type.
check_data_packet_robine :
    (crc32 : List ℕ → ℕ) (pkt : InnoDataPacket) (size : ℕ)
    → pkt.common.magic_number ≡ 0x176A
    → pkt.common.size ≤ size
    → pkt.item_type ≡ robine_xyz_pointcloud
    → pkt.item_size ≡ 40
    → check_data_packet crc32 pkt size ≡ none
unfolding check_data_packet check_fields
check_data_packet_robine crc32 pkt size magic fits robine whole =
    let no_size = get_data_packet_size_robine _ pkt.item_number pkt.multi_return_mode robine in
    if_elim (λ r. r ≡ none)
      ((pkt.common.magic_number == 0x176A) && not (ltb 0 size && ltb size pkt.common.size))
      (λ e.
        if_elim (λ r. r ≡ none) (has_bytes size_of_data_packet pkt.common)
          (λ _.
            check_type-check_data crc32 pkt en_xyz_point (ap checked_layout robine)
              (ap some (sym whole))
            ∙ check_data-unsized crc32 pkt no_size)
          (λ _. refl))
      (λ e. ground (arith, e, magic, fits))
