-- ===== src/Read/Adapt/Checksum.antt =====
-- Numbers of 32 bits in a buffer, and `set_packet_crc32` of sdk_common/inno_lidar_packet_utils.cpp.
use ros2_perception.Read.Adapt.{set_packet_crc32}
use ros2_perception.Read.Packets.{write, le32_bytes, crc_of, size}
use ros2_perception.Read.Packets.Write.{
  get_or-write_self, get_or-write_after, get_or-write_before, drop-write, take-write_before,
  length-write,
}
use ros2_perception.Packet.Check.{InnoCommonHeader, calculate_packet_crc32, verify_packet_crc32}
use ros2_perception.Packet.Check.Accepted.{calculate_packet_crc32_lem}
use ros2_perception.Packet.Decode.{common_header_of}
use ros2_perception.Prelude.{
  ℕ, ◌+◌, ◌/◌, ◌%◌, ◌^◌, ◌<◌, ◌≤◌, ◌≡◌, ◌⊎◌, inl, inr, refl, sym, ap, ◌∙◌, true, some, List, length,
  take, drop, get_or, get_or-drop, le32, length-drop, arith,
}

le32_lem :
    (bs : List ℕ) (i n : ℕ)
    → get_or bs i 0 ≡ n % 256
    → get_or bs (i + 1) 0 ≡ n / 256 % 256
    → get_or bs (i + 2) 0 ≡ n / 65536 % 256
    → get_or bs (i + 2 + 1) 0 ≡ n / 16777216 % 256
    → n < 2 ^ 32
    → le32 bs i ≡ n
le32_lem bs i n a b c d h = omega (arith, a, b, c, d, h)

-- A number is known by its bytes.
pub le32-bytes :
    (p q : List ℕ) (i : ℕ)
    → get_or p i 0 ≡ get_or q i 0
    → get_or p (i + 1) 0 ≡ get_or q (i + 1) 0
    → get_or p (i + 2) 0 ≡ get_or q (i + 2) 0
    → get_or p (i + 2 + 1) 0 ≡ get_or q (i + 2 + 1) 0
    → le32 p i ≡ le32 q i
le32-bytes p q i a b c d = omega (arith, a, b, c, d)

-- A number that was written is read back.
pub le32-write :
    (i n : ℕ) (buf : List ℕ)
    → i + 4 ≤ length buf
    → n < 2 ^ 32
    → le32 (write i (le32_bytes n) buf) i ≡ n
le32-write i n buf room h =
    let at = get_or-write_self i (le32_bytes n) buf room in
    let e : i + 0 ≡ i = omega arith in
    let e' : i + 2 + 1 ≡ i + 3 = omega arith in
    le32_lem (write i (le32_bytes n) buf) i n
      (ap (λ j. get_or (write i (le32_bytes n) buf) j 0) (sym e) ∙ at 0 (omega arith))
      (at 1 (omega arith)) (at 2 (omega arith))
      (ap (λ j. get_or (write i (le32_bytes n) buf) j 0) e' ∙ at 3 (omega arith)) h

-- The size of a packet stands behind its checksum.
pub size-drop : (p : List ℕ) → size p ≡ le32 (drop 10 p) 0
unfolding size
size-drop p =
    omega (
      arith,
      get_or-drop 10 0 p 0,
      get_or-drop 10 1 p 0,
      get_or-drop 10 2 p 0,
      get_or-drop 10 3 p 0,
    )

pub size-same : (p q : List ℕ) → drop 10 p ≡ drop 10 q → size p ≡ size q
size-same p q e = size-drop p ∙ ap (λ bs. le32 bs 0) e ∙ sym (size-drop q)

-- The checksum covers what stands in front of it and behind it.
crc_of-same :
    (crc32 : List ℕ → ℕ) (p q : List ℕ)
    → take 6 p ≡ take 6 q
    → drop 10 p ≡ drop 10 q
    → crc_of crc32 p ≡ crc_of crc32 q
unfolding crc_of
crc_of-same crc32 p q e e' = rw (e, e', size-same p q e') refl

module _ (crc32 : List ℕ → ℕ) (buf : List ℕ) (room : 14 ≤ length buf) where
  pub take-set : take 6 (set_packet_crc32 crc32 buf) ≡ take 6 buf
  unfolding set_packet_crc32
  take-set = take-write_before 6 (le32_bytes (crc_of crc32 buf)) buf (omega arith) 6 (omega arith)

  pub drop-set : (j : ℕ) → 10 ≤ j → drop j (set_packet_crc32 crc32 buf) ≡ drop j buf
  unfolding set_packet_crc32
  drop-set j h = drop-write 6 (le32_bytes (crc_of crc32 buf)) buf (omega arith) j h

  pub length-set_crc : length (set_packet_crc32 crc32 buf) ≡ length buf
  unfolding set_packet_crc32
  length-set_crc = length-write 6 (le32_bytes (crc_of crc32 buf)) buf (omega arith)

  pub get_or-set_crc :
      (j : ℕ) → (j < 6) ⊎ (10 ≤ j) → get_or (set_packet_crc32 crc32 buf) j 0 ≡ get_or buf j 0
  unfolding set_packet_crc32
  get_or-set_crc j (inl h) =
      get_or-write_before 6 (le32_bytes (crc_of crc32 buf)) buf (omega arith) j h
  get_or-set_crc j (inr h) =
      get_or-write_after 6 (le32_bytes (crc_of crc32 buf)) buf (omega arith) j h

  crc_of-set : crc_of crc32 (set_packet_crc32 crc32 buf) ≡ crc_of crc32 buf
  crc_of-set =
      crc_of-same crc32 (set_packet_crc32 crc32 buf) buf take-set (drop-set 10 (omega arith))

  checksum-set : crc_of crc32 buf < 2 ^ 32 → le32 (set_packet_crc32 crc32 buf) 6 ≡ crc_of crc32 buf
  unfolding set_packet_crc32
  checksum-set h = le32-write 6 (crc_of crc32 buf) buf (omega arith) h

-- The checksum of a packet that lies in its buffer.
calculate-in_buffer :
    (crc32 : List ℕ → ℕ) (p : List ℕ)
    → 10 ≤ size p
    → size p < 2 ^ 32
    → size p ≤ length p
    → calculate_packet_crc32 crc32 (common_header_of p) ≡ some (crc_of crc32 p)
unfolding size crc_of common_header_of
calculate-in_buffer crc32 p low high inside =
    calculate_packet_crc32_lem crc32 (common_header_of p) low high
      (omega (arith, inside, length-drop 10 p))

verify_lem :
    (crc32 : List ℕ → ℕ) (h : InnoCommonHeader)
    → calculate_packet_crc32 crc32 h ≡ some h.checksum
    → verify_packet_crc32 crc32 h ≡ some true
unfolding verify_packet_crc32
verify_lem crc32 h e = rw (e, verify_packet_crc32) (ground arith)

checksum_lem : (p : List ℕ) → (common_header_of p).checksum ≡ le32 p 6
unfolding common_header_of
checksum_lem p = refl

-- A packet whose checksum was set is found good.
pub verify-set :
    (crc32 : List ℕ → ℕ) (p : List ℕ)
    → ((bs : List ℕ) → crc32 bs < 2 ^ 32)
    → 14 ≤ size p
    → size p < 2 ^ 32
    → size p ≤ length p
    → verify_packet_crc32 crc32 (common_header_of (set_packet_crc32 crc32 p)) ≡ some true
verify-set crc32 p bound low high inside =
    let q = set_packet_crc32 crc32 p in
    let e = size-same q p (drop-set crc32 p (omega arith) 10 (omega arith)) in
    verify_lem crc32 (common_header_of q) (
      calculate-in_buffer crc32 q (omega (arith, e)) (omega (arith, e))
        (omega (arith, e, length-set_crc crc32 p (omega arith)))
      ∙ ap some (
          crc_of-set crc32 p (omega arith)
          ∙ sym (checksum-set crc32 p (omega arith) (unfold crc_of in bound _))
          ∙ sym (checksum_lem q)))
