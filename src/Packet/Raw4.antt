-- ===== src/Packet/Raw4.antt =====
-- `Raw4UdpHeader` of sdk_common/inno_lidar_other_packet.h, read from and written to the network by
-- `raw4_header_from_net` and `raw4_header_to_net` of sdk_common/inno_lidar_packet_utils.cpp. A buffer
-- is its list of bytes, `none` a null pointer.
use ros2_perception.Prelude.{
  ℕ, ◌+◌, ◌*◌, ◌/◌, ◌%◌, ◌^◌, ◌<◌, ◌≤◌, ◌≡◌, refl, ◌∙◌, Option, none, some, List, ◌∷◌, ltb,
  if◌then◌else◌, get_or, set, length, arith,
}

pub record Raw4UdpHeader : Type 0 where
  pub idx : ℕ
  pub field_type : ℕ
  pub field_sequence_id : ℕ
  pub flag : ℕ

-- The bytes `i` to `i + 3`, in network order, as `ntohl` gives them.
abbrev pub read32 : List ℕ → ℕ → ℕ
read32 buffer i =
    get_or buffer i 0 * 2 ^ 24
    + get_or buffer (i + 1) 0 * 2 ^ 16
    + get_or buffer (i + 2) 0 * 2 ^ 8
    + get_or buffer (i + 3) 0

-- The write of `htonl` of a number.
abbrev pub write32 : List ℕ → ℕ → ℕ → List ℕ
write32 buffer i x =
    set
      (set (set (set buffer i (x / 2 ^ 24 % 256)) (i + 1) (x / 2 ^ 16 % 256)) (i + 2)
        (x / 2 ^ 8 % 256))
      (i + 3) (x % 256)

-- `none` is the answer false.
unfoldable pub raw4_header_from_net : Option (List ℕ) → ℕ → Option Raw4UdpHeader
raw4_header_from_net none size = none
raw4_header_from_net (some buffer) size =
    if ltb size 10
    then none
    else some (record {
      idx = read32 buffer 0;
      field_type = get_or buffer 4 0;
      field_sequence_id = read32 buffer 5;
      flag = get_or buffer 9 0;
    })

unfoldable pub raw4_header_to_net : Raw4UdpHeader → Option (List ℕ) → ℕ → Option (List ℕ)
raw4_header_to_net header none size = none
raw4_header_to_net header (some buffer) size =
    if ltb size 10
    then none
    else some (
        set
          (write32 (set (write32 buffer 0 header.idx) 4 header.field_type) 5
            header.field_sequence_id)
          9 header.flag)

pub record IsHeader (h : Raw4UdpHeader) : Type 0 where
  pub idx : h.idx < 2 ^ 32
  pub sequence : h.field_sequence_id < 2 ^ 32

join_bytes :
    (x : ℕ)
    → x < 2 ^ 32
    → x / 2 ^ 24 % 256 * 2 ^ 24 + x / 2 ^ 16 % 256 * 2 ^ 16 + x / 2 ^ 8 % 256 * 2 ^ 8 + x % 256 ≡ x
join_bytes x h = omega (arith, h)

not_short : {A : Type 0} (n : ℕ) (x : A) → 10 ≤ n → (if ltb n 10 then none else some x) ≡ some x
not_short n x h = ground (arith, h)

-- A header written to a buffer of 10 bytes or more leaves a buffer of the same size, from which the
-- same header is read.
raw4_header_from_net-to_net :
    (h : Raw4UdpHeader) (buffer : List ℕ)
    → IsHeader h
    → 10 ≤ length buffer
    → (b : List ℕ) × (raw4_header_to_net h (some buffer) (length buffer) ≡ some b)
      × (length b ≡ length buffer)
      × (raw4_header_from_net (some b) (length b) ≡ some h)
unfolding raw4_header_to_net raw4_header_from_net
raw4_header_from_net-to_net h (b0 ∷ b1 ∷ b2 ∷ b3 ∷ b4 ∷ b5 ∷ b6 ∷ b7 ∷ b8 ∷ b9 ∷ rest) v long = (
  _,
  not_short _ _ long,
  refl,
  not_short _ _ long ∙ rw (join_bytes h.idx v.idx, join_bytes h.field_sequence_id v.sequence) refl,
)
raw4_header_from_net-to_net h _ v long = absurd (omega (arith, long))
