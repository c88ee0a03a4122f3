-- ===== src/Packet/Blocks.antt =====
-- The sizes of blocks and numbers of points by `get_block_size_and_number_return`,
-- `get_return_times` and `get_max_points_count` of sdk_common/inno_lidar_packet_utils.h. `none` is an
-- abort by `inno_log_verify`.
use ros2_perception.Packet.Items.{
  InnoItemType, sphere_pointcloud, xyz_pointcloud, robine_sphere_pointcloud, robine_xyz_pointcloud,
  robinw_sphere_pointcloud, robinw_xyz_pointcloud, falconii_dot_1_sphere_pointcloud,
  falconii_dot_1_xyz_pointcloud, robinw_compact_pointcloud, robinelite_xyz_pointcloud,
  robinelite_compact_pointcloud, robine2x_xyz_pointcloud, robine2x_compact_pointcloud,
  hb_xyz_pointcloud, hb_compact_pointcloud, robine2_xyz_pointcloud, robine2_compact_pointcloud,
  InnoMultipleReturnMode, mode_none, mode_single, mode_2_strongest, mode_2_strongest_furthest,
  mode_above, Layout, checked_layout, block_size, size_of_data_packet, get_data_packet_size,
}
use ros2_perception.Prelude.{
  ℕ, ◌+◌, ◌*◌, ◌^◌, ◌%◌, ◌≡◌, refl, ◌⊎◌, inl, inr, Bool, true, false, Option, none, some,
  if◌then◌else◌,
}

-- `CHECK_SPHERE_POINTCLOUD_DATA`.
abbrev pub is_sphere_pointcloud : InnoItemType → Bool
is_sphere_pointcloud sphere_pointcloud = true
is_sphere_pointcloud hb_compact_pointcloud = true
is_sphere_pointcloud robinw_sphere_pointcloud = true
is_sphere_pointcloud falconii_dot_1_sphere_pointcloud = true
is_sphere_pointcloud robinw_compact_pointcloud = true
is_sphere_pointcloud robinelite_compact_pointcloud = true
is_sphere_pointcloud robine2_compact_pointcloud = true
is_sphere_pointcloud robine2x_compact_pointcloud = true
is_sphere_pointcloud _ = false

-- `CHECK_EN_SPHERE_POINTCLOUD_DATA`.
abbrev pub is_en_sphere_pointcloud : InnoItemType → Bool
is_en_sphere_pointcloud robine_sphere_pointcloud = true
is_en_sphere_pointcloud robinw_sphere_pointcloud = true
is_en_sphere_pointcloud falconii_dot_1_sphere_pointcloud = true
is_en_sphere_pointcloud _ = false

-- `CHECK_CO_SPHERE_POINTCLOUD_DATA`.
abbrev pub is_co_sphere_pointcloud : InnoItemType → Bool
is_co_sphere_pointcloud robinw_compact_pointcloud = true
is_co_sphere_pointcloud robinelite_compact_pointcloud = true
is_co_sphere_pointcloud hb_compact_pointcloud = true
is_co_sphere_pointcloud robine2_compact_pointcloud = true
is_co_sphere_pointcloud robine2x_compact_pointcloud = true
is_co_sphere_pointcloud _ = false

-- `CHECK_XYZ_POINTCLOUD_DATA`.
abbrev pub is_xyz_pointcloud : InnoItemType → Bool
is_xyz_pointcloud xyz_pointcloud = true
is_xyz_pointcloud hb_xyz_pointcloud = true
is_xyz_pointcloud robinw_xyz_pointcloud = true
is_xyz_pointcloud falconii_dot_1_xyz_pointcloud = true
is_xyz_pointcloud robinelite_xyz_pointcloud = true
is_xyz_pointcloud robine2_xyz_pointcloud = true
is_xyz_pointcloud robine2x_xyz_pointcloud = true
is_xyz_pointcloud _ = false

abbrev pub get_return_times : InnoMultipleReturnMode → ℕ
get_return_times mode_none = 1
get_return_times mode_single = 1
get_return_times mode_2_strongest = 2
get_return_times mode_2_strongest_furthest = 2
get_return_times mode_above = 2

-- The sizes of a block with one and with two returns, and the number of returns.
abbrev pub block_and_return : ℕ → ℕ → InnoMultipleReturnMode → Option (ℕ × ℕ)
block_and_return one two mode_2_strongest = some (two, 2)
block_and_return one two mode_2_strongest_furthest = some (two, 2)
block_and_return one two mode_single = some (one, 1)
block_and_return one two mode_none = none
block_and_return one two mode_above = none

unfoldable pub get_block_size_and_number_return :
    InnoItemType → InnoMultipleReturnMode → Option (ℕ × ℕ)
get_block_size_and_number_return item_type mode =
    if is_sphere_pointcloud item_type
    then if is_en_sphere_pointcloud item_type
      then block_and_return (18 + 4 * 8) (18 + 8 * 8) mode
      else if is_co_sphere_pointcloud item_type
      then block_and_return (10 + 8 * 4) (10 + 16 * 4) mode
      else block_and_return (17 + 4 * 4) (17 + 8 * 4) mode
    else none

abbrev pub is_single : InnoMultipleReturnMode → Bool
is_single mode_single = true
is_single _ = false

-- The products are `uint32_t`.
unfoldable pub get_max_points_count : InnoItemType → ℕ → InnoMultipleReturnMode → Option ℕ
get_max_points_count item_type item_number mode =
    if is_xyz_pointcloud item_type
    then some item_number
    else if is_co_sphere_pointcloud item_type
    then some (item_number * 8 * (if is_single mode then 1 else 2) % 2 ^ 32)
    else if is_sphere_pointcloud item_type
    then some (item_number * 4 * (if is_single mode then 1 else 2) % 2 ^ 32)
    else none

-- The sizes agree with `get_data_packet_size`: both refuse a bad return mode, or they use one size.
pub Agree : ℕ → InnoMultipleReturnMode → Option (ℕ × ℕ) → Option ℕ → Type 0
Agree count mode block total =
    ((block ≡ none) × (total ≡ some 0))
    ⊎ ((u : ℕ) × (block ≡ some (u, get_return_times mode))
        × (total ≡ some ((size_of_data_packet + count * u) % 2 ^ 64)))

agreed :
    (one two count : ℕ) (mode : InnoMultipleReturnMode)
    → Agree count mode
        (block_and_return one two mode)
        (elim (block_size one two mode) as (λ _. Option ℕ) [
          | none ↦ some 0
          | some u ↦ some ((size_of_data_packet + count * u) % 2 ^ 64)
        ])
unfolding Agree
agreed one two count mode_none = inl (refl, refl)
agreed one two count mode_above = inl (refl, refl)
agreed one two count mode_single = inr (one, refl, refl)
agreed one two count mode_2_strongest = inr (two, refl, refl)
agreed one two count mode_2_strongest_furthest = inr (two, refl, refl)

-- For every type of blocks and every mode the size of a block and the number of returns are those
-- that `get_data_packet_size` goes by, or the mode is refused by both.
get_block_size_lem :
    (t : InnoItemType) (count : ℕ) (mode : InnoMultipleReturnMode)
    → is_sphere_pointcloud t ≡ true
    → Agree count mode (get_block_size_and_number_return t mode) (get_data_packet_size t count mode)
unfolding get_block_size_and_number_return get_data_packet_size
get_block_size_lem sphere_pointcloud count mode e = agreed 33 49 count mode
get_block_size_lem robinw_sphere_pointcloud count mode e = agreed 50 82 count mode
get_block_size_lem falconii_dot_1_sphere_pointcloud count mode e = agreed 50 82 count mode
get_block_size_lem robinw_compact_pointcloud count mode e = agreed 42 74 count mode
get_block_size_lem robinelite_compact_pointcloud count mode e = agreed 42 74 count mode
get_block_size_lem hb_compact_pointcloud count mode e = agreed 42 74 count mode
get_block_size_lem robine2_compact_pointcloud count mode e = agreed 42 74 count mode
get_block_size_lem robine2x_compact_pointcloud count mode e = agreed 42 74 count mode
get_block_size_lem _ count mode e = cc

-- A type whose items are checked has its points counted, or it is one of Robin E, for which the
-- count aborts.
pub get_max_points_count_lem :
    (t : InnoItemType) (count : ℕ) (mode : InnoMultipleReturnMode) (l : Layout)
    → checked_layout t ≡ some l
    → ((c : ℕ) × (get_max_points_count t count mode ≡ some c))
      ⊎ (((t ≡ robine_sphere_pointcloud) ⊎ (t ≡ robine_xyz_pointcloud))
          × (get_max_points_count t count mode ≡ none))
unfolding get_max_points_count
get_max_points_count_lem robine_sphere_pointcloud count mode l e = inr (inl refl, refl)
get_max_points_count_lem robine_xyz_pointcloud count mode l e = inr (inr refl, refl)
get_max_points_count_lem sphere_pointcloud count mode l e = inl (_, refl)
get_max_points_count_lem xyz_pointcloud count mode l e = inl (_, refl)
get_max_points_count_lem robinw_sphere_pointcloud count mode l e = inl (_, refl)
get_max_points_count_lem robinw_xyz_pointcloud count mode l e = inl (_, refl)
get_max_points_count_lem falconii_dot_1_sphere_pointcloud count mode l e = inl (_, refl)
get_max_points_count_lem falconii_dot_1_xyz_pointcloud count mode l e = inl (_, refl)
get_max_points_count_lem robinw_compact_pointcloud count mode l e = inl (_, refl)
get_max_points_count_lem robinelite_xyz_pointcloud count mode l e = inl (_, refl)
get_max_points_count_lem robinelite_compact_pointcloud count mode l e = inl (_, refl)
get_max_points_count_lem robine2x_compact_pointcloud count mode l e = inl (_, refl)
get_max_points_count_lem hb_xyz_pointcloud count mode l e = inl (_, refl)
get_max_points_count_lem hb_compact_pointcloud count mode l e = inl (_, refl)
get_max_points_count_lem robine2_compact_pointcloud count mode l e = inl (_, refl)
get_max_points_count_lem _ count mode l e = cc
