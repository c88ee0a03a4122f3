-- ===== src/Read/Packets/Fields.antt =====
-- The fields of a packet's header that sdk_client/stage_client_read.cpp reads, which stand in its first
-- bytes.
use ros2_perception.Read.Packets.{magic_number, major_version, size, item_type}
use ros2_perception.Prelude.{ℕ, ◌≤◌, ◌≡◌, refl, List, take, get_or-take, arith}

pub magic_number-take : (n : ℕ) (p : List ℕ) → 26 ≤ n → magic_number (take n p) ≡ magic_number p
unfolding magic_number
magic_number-take n p h =
    rw (get_or-take n 0 p 0 (omega arith), get_or-take n 1 p 0 (omega arith)) refl

pub major_version-take : (n : ℕ) (p : List ℕ) → 26 ≤ n → major_version (take n p) ≡ major_version p
unfolding major_version
major_version-take n p h = get_or-take n 2 p 0 (omega arith)

pub size-take : (n : ℕ) (p : List ℕ) → 26 ≤ n → size (take n p) ≡ size p
unfolding size
size-take n p h = omega (
  arith,
  get_or-take n 10 p 0 (omega arith),
  get_or-take n 11 p 0 (omega arith),
  get_or-take n 12 p 0 (omega arith),
  get_or-take n 13 p 0 (omega arith),
)

pub item_type-take : (n : ℕ) (p : List ℕ) → 54 ≤ n → item_type (take n p) ≡ item_type p
unfolding item_type
item_type-take n p h = get_or-take n 38 p 0 (omega arith)
