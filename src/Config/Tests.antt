-- ===== src/Config/Tests.antt =====
-- Settings of a small configuration (utils/config.cpp).
use ros2_perception.Config.{
  Member, Config, ConfigManager, read_value, add_config, trim_space, split_name, trim,
}
use ros2_perception.Config.Settings.{IsUnique, Iterates}
use ros2_perception.Config.Late.{add_config-late}
use ros2_perception.Config.Sets.{set_all, IsName}
use ros2_perception.Config.Lost.{set_config_key_value-lost}
use ros2_perception.Prelude.{
  ◌==◌, ℕ, ◌≡◌, refl, false, Bool-cases, inl, inr, is_same, is_same→≡, is_same_refl, subst, ◌∙◌,
  Option, none, some, List, [], ◌∷◌, Key, find, if◌then◌else◌, ◌-◌, leb, ◌&&◌,
}

-- The value of one digit.
abbrev digit : Key → Option ℕ
digit [] = none
digit (c ∷ cs) = if leb 48 c && leb c 57 then some (c - 48) else none

-- The pairs without those of a key.
abbrev dropped : Key → List (Key × Key) → List (Key × Key)
dropped k [] = []
dropped k (s ∷ ss) = if is_same k s.0 then dropped k ss else s ∷ dropped k ss

-- The first pair of each key, in order.
abbrev forward : List (Key × Key) → List (Key × Key)
forward [] = []
forward (s ∷ ss) = s ∷ dropped s.0 (forward ss)

find-dropped :
    (k : Key) (ss : List (Key × Key)) (j : Key)
    → find (dropped k ss) j ≡ (if is_same k j then none else find ss j)
find-dropped k [] j = elim (Bool-cases (is_same k j)) [ inl q ↦ rw q refl | inr q ↦ rw q refl ]
find-dropped k (s ∷ ss) j = elim (Bool-cases (is_same k s.0)) [
  | inl same ↦
      let e = is_same→≡ k s.0 same in
      rw same (
        find-dropped k ss j ∙ elim (Bool-cases (is_same k j)) [
          | inl q ↦ rw q refl
          | inr q ↦
              let other : is_same s.0 j ≡ false = subst (λ x. is_same x j ≡ false) e q in
              rw (q, other) refl
        ])
  | inr other ↦ rw other (elim (Bool-cases (is_same s.0 j)) [
    | inl q ↦
        let apart : is_same k j ≡ false =
          subst (λ x. is_same k x ≡ false) (is_same→≡ s.0 j q) other in
        rw (q, apart) refl
    | inr q ↦ rw q (find-dropped k ss j)
  ])
]

dropped-IsUnique : (k : Key) (ss : List (Key × Key)) → IsUnique ss → IsUnique (dropped k ss)
dropped-IsUnique k [] unique = tt
dropped-IsUnique k (s ∷ ss) (new, unique) = elim (Bool-cases (is_same k s.0)) [
  | inl same ↦ rw same (dropped-IsUnique k ss unique)
  | inr other ↦ rw other (
    find-dropped k ss s.0
        ∙ elim (Bool-cases (is_same k s.0)) [ inl q ↦ rw q refl | inr q ↦ rw q new ],
    dropped-IsUnique k ss unique,
  )
]

forward-visits : (h : List (Key × Key)) (k : Key) → find (forward h) k ≡ find h k
forward-visits [] k = refl
forward-visits (s ∷ ss) k = elim (Bool-cases (is_same s.0 k)) [
  | inl q ↦ rw q refl
  | inr q ↦ rw q (find-dropped s.0 (forward ss) k ∙ rw q (forward-visits ss k))
]

forward-once : (h : List (Key × Key)) → IsUnique (forward h)
forward-once [] = tt
forward-once (s ∷ ss) = (
  find-dropped s.0 (forward ss) s.0 ∙ rw (is_same_refl s.0) refl,
  dropped-IsUnique s.0 (forward ss) (forward-once ss),
)

forward-Iterates : Iterates forward
forward-Iterates = record { visits = forward-visits; once = forward-once }

-- What a `bool` keeps of a number, and a member of that type.
abbrev as_bool : ℕ → ℕ
as_bool x = if x == 0 then 0 else 1

abbrev flag : ℕ → Member
flag n = record { stored = n; convert = as_bool }

-- A section "ab" with a member "x", and two settings of "ab/x".
abbrev config : Config
config = record {
  address = 64;
  config_type = 97 ∷ 98 ∷ [];
  version = 0;
  members = (120 ∷ [], flag 0) ∷ [];
}

abbrev manager : ConfigManager
manager = record { basename = 97 ∷ []; configs = []; history = [] }

abbrev name : Key
name = 97 ∷ 98 ∷ 47 ∷ 120 ∷ []

named : IsName (97 ∷ 98 ∷ []) name (120 ∷ [])
unfolding trim_space trim split_name
named = record { splits = refl; has_section = refl; has_key = refl }

add_config-late_example :
    (before early behind late : ConfigManager) × (d e : Config) × (add_config digit forward config
        manager
      ≡ some before)
    × (set_all digit ((name, 53 ∷ []) ∷ (name, 51 ∷ []) ∷ []) before ≡ some early)
    × (find early.configs (trim_space config.config_type) ≡ some (d ∷ []))
    × (set_all digit ((name, 53 ∷ []) ∷ (name, 51 ∷ []) ∷ []) manager ≡ some behind)
    × (add_config digit forward config behind ≡ some late)
    × (find late.configs (trim_space config.config_type) ≡ some (e ∷ []))
    × ((j : Key) → find d.members j ≡ find e.members j)
unfolding trim_space trim read_value
add_config-late_example =
    add_config-late digit forward config manager ((name, 53 ∷ []) ∷ (name, 51 ∷ []) ∷ [])
      forward-Iterates refl refl refl
      (
        (120 ∷ [], named, record { reads = refl; bare = refl }),
        ((120 ∷ [], named, record { reads = refl; bare = refl }), tt),
      )

set_config_key_value-lost_example :
    (before early behind late : ConfigManager) × (d : Config) × (add_config digit forward config
        manager
      ≡ some before)
    × (set_all digit ((name, 53 ∷ []) ∷ (name, 120 ∷ []) ∷ []) before ≡ some early)
    × (find early.configs (trim_space config.config_type) ≡ some (d ∷ []))
    × (find d.members (120 ∷ []) ≡ some (flag 1))
    × (set_all digit ((name, 53 ∷ []) ∷ (name, 120 ∷ []) ∷ []) manager ≡ some behind)
    × (add_config digit forward config behind ≡ some late)
    × (find late.configs (trim_space config.config_type) ≡ some (config ∷ []))
unfolding trim_space trim read_value
set_config_key_value-lost_example =
    set_config_key_value-lost digit forward config manager name (53 ∷ []) (120 ∷ []) (120 ∷ [])
      (flag 0) forward-Iterates refl refl refl named (record { reads = refl; bare = refl }) refl
      refl
