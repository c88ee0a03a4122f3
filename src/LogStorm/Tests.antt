-- ===== src/LogStorm/Tests.antt =====
-- Runs of the log storm controller, and the theorems about it at concrete calls.
use ros2_perception.Prelude.{
  Key, ℕ, ◌%◌, ◌^◌, ◌≡◌, refl, inl, [], ◌∷◌, none, some, get_or, ◌==◌, replicate, length-replicate,
  arith,
}
use ros2_perception.LogStorm.{Node, Lru, new_node, new_lru, check}
use ros2_perception.LogStorm.Rate.{IsThinned, Follows, check_lem}
use ros2_perception.LogStorm.LongKeys.{check_all, check_all-long}

abbrev nine : Node
nine = record (new_node 5) { count = 9 }

abbrev nine-IsThinned : IsThinned nine 0
nine-IsThinned = record { every = refl; until = refl; below = omega arith; from = inl refl }

-- One line "A", which came nine times.
abbrev one_line : Lru
one_line = record (new_lru 1) {
  nodes = nine ∷ [];
  key2node = (65 ∷ [], 0) ∷ [];
  list = 0 ∷ [];
  pool = [];
}

check_lem_example :
    (z : Lru) × (check one_line (65 ∷ []) 6 ≡ some (10 % 10 ^ 0 == 0, (10, z)))
    × Follows 10 0 (get_or z.nodes 0 (new_node 0))
unfolding new_lru
check_lem_example = check_lem one_line (65 ∷ []) 0 0 6 refl (omega arith) nine-IsThinned

abbrev long_key : Key
long_key = replicate 256 65

check_all-long_example : check_all (new_lru 2) long_key (1 ∷ 2 ∷ 3 ∷ []) ≡ none
check_all-long_example =
    check_all-long 2 long_key (1 ∷ 2 ∷ 3 ∷ []) (omega arith)
      (omega (arith, length-replicate {A = ℕ} 256 65)) (omega arith)
