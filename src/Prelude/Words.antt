-- ===== src/Prelude/Words.antt =====
-- Unsigned machine words as native numbers, with their wrap-around.
use ros2_perception.Prelude.Lists.{get_or}
use mathlib.Core.List.{List}
use Prim.Native.Nat.{ℕ, ◌+◌, ◌-◌, ◌*◌, ◌%◌, ◌^◌}

-- The sums and differences of `size_t` and `uint64_t`.
abbrev pub add64 : ℕ → ℕ → ℕ
add64 a b = (a + b) % 2 ^ 64

abbrev pub sub64 : ℕ → ℕ → ℕ
sub64 a b = (a + 2 ^ 64 - b) % 2 ^ 64

-- The products of `unsigned int`.
abbrev pub mul32 : ℕ → ℕ → ℕ
mul32 a b = (a * b) % 2 ^ 32

-- Numbers of 16 and 32 bits in the byte order of the machine.
abbrev pub le16 : List ℕ → ℕ → ℕ
le16 bs i = get_or bs i 0 + 256 * get_or bs (i + 1) 0

abbrev pub le32 : List ℕ → ℕ → ℕ
le32 bs i = le16 bs i + 65536 * le16 bs (i + 2)
