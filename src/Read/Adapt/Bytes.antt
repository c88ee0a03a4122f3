-- ===== src/Read/Adapt/Bytes.antt =====
-- What stands in the buffer after the header of a packet of version 1 was moved and extended
-- (sdk_client/inno_lidar_packet_v1_adapt.h).
use ros2_perception.Read.Adapt.{extend_header, memory_front_gap}
use ros2_perception.Read.Packets.{write, le32_bytes}
use ros2_perception.Read.Packets.Write.{
  get_or-write_self, get_or-write_after, get_or-write_before, drop-write, length-write,
}
use ros2_perception.Read.Adapt.Checksum.{le32-write, le32-bytes}
use ros2_perception.Prelude.{
  ℕ, ◌+◌, ◌^◌, ◌<◌, ◌≤◌, ◌≡◌, ◌⊎◌, inl, inr, sym, ap, ◌∙◌, List, [], ◌∷◌, length, take, drop,
  get_or, get_or-drop, get_or-take, replicate, le32, length-drop, length-take, arith,
}

-- The steps of `extend_header`.
abbrev moved : List ℕ → List ℕ
moved buf = write 0 (take 54 (drop 16 buf)) buf

abbrev sized : List ℕ → List ℕ
sized buf = write 10 (le32_bytes (le32 (moved buf) 10 + memory_front_gap)) (moved buf)

abbrev cleared : List ℕ → List ℕ
cleared buf = write 54 (replicate 16 0) (sized buf)

module _ (buf : List ℕ) (room : 70 ≤ length buf) where
  header : length (take 54 (drop 16 buf)) ≡ 54
  header = length-take 54 (drop 16 buf) (omega (arith, length-drop 16 buf))

  length-moved : length (moved buf) ≡ length buf
  length-moved = length-write 0 (take 54 (drop 16 buf)) buf (omega (arith, header))

  length-sized : length (sized buf) ≡ length buf
  length-sized =
      length-write 10 (le32_bytes (le32 (moved buf) 10 + memory_front_gap)) (moved buf)
        (omega (arith, length-moved))
      ∙ length-moved

  length-cleared : length (cleared buf) ≡ length buf
  length-cleared =
      length-write 54 (replicate 16 0) (sized buf) (omega (arith, length-sized)) ∙ length-sized

  pub length-extend_header : length (extend_header buf) ≡ length buf
  unfolding extend_header
  length-extend_header =
      length-write 2 (2 ∷ 1 ∷ []) (cleared buf) (omega (arith, length-cleared)) ∙ length-cleared

  moved_byte : (j : ℕ) → j < 54 → get_or (moved buf) j 0 ≡ get_or buf (16 + j) 0
  moved_byte j h =
      let e : 0 + j ≡ j = omega arith in
      ap (λ i. get_or (moved buf) i 0) (sym e)
      ∙ get_or-write_self 0 (take 54 (drop 16 buf)) buf (omega (arith, header)) j
          (omega (arith, header))
      ∙ get_or-take 54 j (drop 16 buf) 0 h
      ∙ get_or-drop 16 j buf 0

  sized_byte : (j : ℕ) → (j < 10) ⊎ (14 ≤ j) → get_or (sized buf) j 0 ≡ get_or (moved buf) j 0
  sized_byte j (inl h) =
      get_or-write_before 10 (le32_bytes (le32 (moved buf) 10 + memory_front_gap)) (moved buf)
        (omega (arith, length-moved)) j h
  sized_byte j (inr h) =
      get_or-write_after 10 (le32_bytes (le32 (moved buf) 10 + memory_front_gap)) (moved buf)
        (omega (arith, length-moved)) j h

  cleared_byte : (j : ℕ) → j < 54 → get_or (cleared buf) j 0 ≡ get_or (sized buf) j 0
  cleared_byte j h =
      get_or-write_before 54 (replicate 16 0) (sized buf) (omega (arith, length-sized)) j h

  versioned_byte :
      (j : ℕ) → (j < 2) ⊎ (4 ≤ j) → get_or (extend_header buf) j 0 ≡ get_or (cleared buf) j 0
  unfolding extend_header
  versioned_byte j (inl h) =
      get_or-write_before 2 (2 ∷ 1 ∷ []) (cleared buf) (omega (arith, length-cleared)) j h
  versioned_byte j (inr h) =
      get_or-write_after 2 (2 ∷ 1 ∷ []) (cleared buf) (omega (arith, length-cleared)) j h

  -- The fields that are kept.
  pub kept_magic : (j : ℕ) → j < 2 → get_or (extend_header buf) j 0 ≡ get_or buf (16 + j) 0
  kept_magic j h =
      versioned_byte j (inl h)
      ∙ cleared_byte j (omega arith)
      ∙ sized_byte j (inl (omega arith))
      ∙ moved_byte j (omega arith)

  pub kept_field :
      (j : ℕ) → 14 ≤ j → j < 54 → get_or (extend_header buf) j 0 ≡ get_or buf (16 + j) 0
  kept_field j low high =
      versioned_byte j (inr (omega arith))
      ∙ cleared_byte j high
      ∙ sized_byte j (inr low)
      ∙ moved_byte j high

  pub new_version : get_or (extend_header buf) 2 0 ≡ 2
  unfolding extend_header
  new_version =
      get_or-write_self 2 (2 ∷ 1 ∷ []) (cleared buf) (omega (arith, length-cleared)) 0 (omega arith)

  pub reserved_byte :
      (k : ℕ) → k < 16 → get_or (extend_header buf) (54 + k) 0 ≡ get_or (replicate 16 0) k 0
  reserved_byte k h =
      versioned_byte (54 + k) (inr (omega arith))
      ∙ get_or-write_self 54 (replicate 16 0) (sized buf) (omega (arith, length-sized)) k h

  -- The payload stays where it was.
  pub drop-extend_header : (j : ℕ) → 70 ≤ j → drop j (extend_header buf) ≡ drop j buf
  unfolding extend_header
  drop-extend_header j h =
      drop-write 2 (2 ∷ 1 ∷ []) (cleared buf) (omega (arith, length-cleared)) j (omega arith)
      ∙ drop-write 54 (replicate 16 0) (sized buf) (omega (arith, length-sized)) j (omega arith)
      ∙ drop-write 10 (le32_bytes (le32 (moved buf) 10 + memory_front_gap)) (moved buf)
          (omega (arith, length-moved)) j (omega arith)
      ∙ drop-write 0 (take 54 (drop 16 buf)) buf (omega (arith, header)) j (omega (arith, header))

  old_size : le32 (moved buf) 10 ≡ le32 (drop 16 buf) 10
  old_size = omega (
    arith,
    moved_byte 10 (omega arith),
    moved_byte 11 (omega arith),
    moved_byte 12 (omega arith),
    moved_byte 13 (omega arith),
    get_or-drop 16 10 buf 0,
    get_or-drop 16 11 buf 0,
    get_or-drop 16 12 buf 0,
    get_or-drop 16 13 buf 0,
  )

  pub new_size :
      le32 (drop 16 buf) 10 + 16 < 2 ^ 32 → le32 (extend_header buf) 10 ≡ le32 (drop 16 buf) 10 + 16
  new_size h =
      let written =
        le32-write 10 (le32 (moved buf) 10 + memory_front_gap) (moved buf)
          (omega (arith, length-moved)) (omega (arith, old_size)) in
      let at =
        λ (j : ℕ) (low : 4 ≤ j) (high : j < 54). versioned_byte j (inr low) ∙ cleared_byte j high in
      le32-bytes (extend_header buf) (sized buf) 10 (at 10 (omega arith) (omega arith))
        (at 11 (omega arith) (omega arith)) (at 12 (omega arith) (omega arith))
        (at 13 (omega arith) (omega arith))
      ∙ written
      ∙ ap (λ n. n + 16) old_size
