-- ===== src/Config.antt =====
-- The configuration of the stages in utils/config.h and config.cpp: `Config`, whose members are set by
-- name, and `ConfigManager`, which passes settings on to the configurations of a section and keeps them
-- for those that are added later. `none` is an exception or the end of the program. `scan` is `sscanf`
-- with "%lf", and `iterate` the order in which an `unordered_map` is visited. A member is known by its
-- name, and holds what its type keeps of the number that was assigned to it.
pub mod Settings
pub mod Sets
pub mod Late
pub mod Lost
mod Tests
use ros2_perception.Prelude.{
  ℕ, zero, suc, ◌+◌, ◌-◌, Bool, true, false, not, ◌&&◌, ◌||◌, Option, none, some, List, [], ◌∷◌,
  ◌++◌, ◌==◌, ltb, leb, if◌then◌else◌, length, take, drop, add64, Key, is_same, find, assign,
}

abbrev pub has : List ℕ → ℕ → Bool
has [] c = false
has (x ∷ xs) c = (x == c) || has xs c

-- `white_space_`.
abbrev pub white_space : List ℕ
white_space = 9 ∷ 10 ∷ 11 ∷ 12 ∷ 13 ∷ 32 ∷ []

abbrev pub ltrim : List ℕ → Key → Key
ltrim chars [] = []
ltrim chars (c ∷ cs) = if has chars c then ltrim chars cs else c ∷ cs

abbrev pub rtrim : List ℕ → Key → Key
rtrim chars [] = []
rtrim chars (c ∷ cs) =
    let rest = rtrim chars cs in if has chars c && is_same rest [] then [] else c ∷ rest

unfoldable pub trim : List ℕ → Key → Key
trim chars s = ltrim chars (rtrim chars s)

unfoldable pub trim_space : Key → Key
trim_space s = trim white_space s

-- A member: what it holds, and what its type keeps of a number that is assigned to it, such as a `bool`
-- of a `double`.
pub record Member : Type 0 where
  pub stored : ℕ
  pub convert : ℕ → ℕ

pub record Config : Type 0 where
  pub address : ℕ
  pub config_type : Key
  pub version : ℕ
  pub members : List (Key × Member)

-- What a value is read as.
pub data Value : Type 0 where
  text : Value
  number : ℕ → Value
  bad : Value

abbrev pub last_or : Key → ℕ → ℕ
last_or [] d = d
last_or (c ∷ cs) d = last_or cs c

-- `at` throws for a value of white space.
unfoldable pub read_value : (Key → Option ℕ) → Key → Option Value
read_value scan [] = some bad
read_value scan (x ∷ xs) = elim (trim_space (x ∷ xs)) [
  | [] ↦ none
  | c ∷ cs ↦
      if (c == 34) && (last_or cs c == 34)
      then some text
      else some (elim (scan (c ∷ cs)) [ none ↦ bad | some n ↦ number n ])
]

-- `set_key_value_` with the members that `SET_CFG` names; no class takes a text.
unfoldable pub set_member : Key → ℕ → Config → Bool × Config
set_member key n c = elim (find c.members key) [
  | none ↦ (false, c)
  | some old ↦
      (true, record c { members = assign c.members key (record old { stored = old.convert n }) })
]

-- A member that was set makes a new version.
unfoldable pub set_number : Key → ℕ → Config → Bool × Config
set_number key n c =
    let r = set_member key n c in
    (r.0, if r.0 then (record r.1 { version = add64 c.version 1 }) else r.1)

-- Whether the member was set, which is the result 0.
unfoldable pub set_key_value : (Key → Option ℕ) → Key → Key → Config → Option (Bool × Config)
set_key_value scan key value c = elim (read_value scan value) [
  | none ↦ none
  | some v ↦
      some (elim v [
        | text ↦ (false, c)
        | bad ↦ (false, c)
        | number n ↦ set_number (trim_space key) n c
      ])
]

-- Whether the members were copied: the versions were different.
unfoldable pub copy_from_src : Config → Config → Option (Bool × Config)
copy_from_src c src =
    if not (is_same src.config_type c.config_type)
    then none
    else some (
        if src.version == c.version
        then (false, c)
        else (true, record c { version = src.version; members = src.members }))

pub record ConfigManager : Type 0 where
  pub basename : Key
  pub configs : List (Key × List Config)
  pub history : List (Key × List (Key × Key))

-- What is kept under a name, nothing where the name is new.
abbrev pub at_key : {A : Type 0} → List (Key × List A) → Key → List A
at_key es key = elim (find es key) [ none ↦ [] | some xs ↦ xs ]

-- One setting for all configurations of a section; whether all took it.
unfoldable pub set_each : (Key → Option ℕ) → Key → Key → List Config → Option (Bool × List Config)
set_each scan key value [] = some (true, [])
set_each scan key value (c ∷ cs) = elim (set_key_value scan key value c) [
  | none ↦ none
  | some r ↦ elim (set_each scan key value cs) [
    | none ↦ none
    | some rs ↦ some (r.0 && rs.0, r.1 ∷ rs.1)
  ]
]

-- All settings of a list for one configuration.
unfoldable pub replay : (Key → Option ℕ) → List (Key × Key) → Config → Option Config
replay scan [] c = some c
replay scan (s ∷ ss) c = elim (set_key_value scan s.0 s.1 c) [
  | none ↦ none
  | some r ↦ replay scan ss r.1
]

-- Whether the first string begins the second.
abbrev pub begins : Key → Key → Bool
begins [] s = true
begins (c ∷ cs) [] = false
begins (c ∷ cs) (x ∷ xs) = (c == x) && begins cs xs

unfoldable pub add_config :
    (Key → Option ℕ)
    → (List (Key × Key) → List (Key × Key))
    → Config
    → ConfigManager
    → Option ConfigManager
add_config scan iterate c m =
    let name = trim_space c.config_type in
    let set = replay scan (iterate (at_key m.history name)) c in
    if not (begins m.basename name) then none else elim set [
      | none ↦ none
      | some d ↦
          some (record m { configs = assign m.configs name (at_key m.configs name ++ (d ∷ [])) })
    ]

abbrev pub without : ℕ → List Config → List Config
without a [] = []
without a (c ∷ cs) = if c.address == a then without a cs else c ∷ without a cs

unfoldable pub remove_config : Config → ConfigManager → Option ConfigManager
remove_config c m =
    let name = trim_space c.config_type in
    elim (find m.configs name) [
      | none ↦ none
      | some cs ↦ some (record m { configs = assign m.configs name (without c.address cs) })
    ]

-- The results 0, -1 and -2 of `set_config_key_value`.
pub data SetResult : Type 0 where
  applied : SetResult
  refused : SetResult
  applied_later : SetResult

-- The section and the key: what stands before and behind the first slash.
unfoldable pub split_name : Key → Option (Key × Key)
split_name [] = none
split_name (c ∷ cs) =
    let rest = split_name cs in
    if c == 47 then some ([], cs) else elim rest [ none ↦ none | some r ↦ some (c ∷ r.0, r.1) ]

unfoldable pub set_config_key_value :
    (Key → Option ℕ) → Key → Key → Bool → ConfigManager → Option (SetResult × ConfigManager)
set_config_key_value scan name value from_app m0 = elim (split_name (trim_space name)) [
  | none ↦ some (refused, m0)
  | some (section, key) ↦
      let m : ConfigManager =
        if from_app
        then (record m0 {
          history = assign m0.history section (assign (at_key m0.history section) key value);
        })
        else m0 in
      if is_same section [] || is_same key []
      then some (refused, m0)
      else elim (find m.configs section) [
        | none ↦ some (applied_later, m)
        | some cs ↦ elim (set_each scan key value cs) [
          | none ↦ none
          | some r ↦ some (
            if r.0 then applied else refused,
            record m { configs = assign m.configs section r.1 },
          )
        ]
      ]
]
