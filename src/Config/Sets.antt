-- ===== src/Config/Sets.antt =====
-- What one setting makes of the state of `ConfigManager` (utils/config.cpp).
use ros2_perception.Config.{
  Config, ConfigManager, set_key_value, set_each, set_config_key_value, split_name, trim_space,
  at_key, SetResult, applied, refused, applied_later,
}
use ros2_perception.Config.Settings.{IsNumber}
use ros2_perception.Prelude.{
  ℕ, ◌≡◌, refl, ap, ◌∙◌, Bool, true, false, ◌&&◌, Option, none, some, List, [], ◌∷◌, if◌then◌else◌,
  Key, is_same, find, assign, find-assign, is_same_refl,
}

-- Settings from the application, one after another: their names and values.
unfoldable pub set_all : (Key → Option ℕ) → List (Key × Key) → ConfigManager → Option ConfigManager
set_all scan [] m = some m
set_all scan (s ∷ ss) m = elim (set_config_key_value scan s.0 s.1 true m) [
  | none ↦ none
  | some r ↦ set_all scan ss r.1
]

-- The name of a member in a section.
pub record IsName (section name key : Key) : Type 0 where
  pub splits : split_name (trim_space name) ≡ some (section, key)
  pub has_section : is_same section [] ≡ false
  pub has_key : is_same key [] ≡ false

abbrev pub AreSettings : (Key → Option ℕ) → Key → List (Key × Key) → Type 0
AreSettings scan section [] = Unit {0}
AreSettings scan section (s ∷ ss) =
    ((key : Key) × IsName section s.0 key × IsNumber scan key s.1) × AreSettings scan section ss

-- What a setting leaves in the history.
abbrev pub noted : Key → Key → Key → ConfigManager → ConfigManager
noted section key value m = record m {
  history = assign m.history section (assign (at_key m.history section) key value);
}

pub find-assign_self :
    {A : Type 0} (es : List (Key × A)) (k : Key) (a : A) → find (assign es k a) k ≡ some a
find-assign_self es k a =
    find-assign es k a k ∙ ap (λ b. if b then some a else find es k) (is_same_refl k)

pub noted-kept :
    (section key value : Key) (m : ConfigManager)
    → at_key (noted section key value m).history section
      ≡ assign (at_key m.history section) key value
noted-kept section key value m =
    rw (find-assign_self m.history section (assign (at_key m.history section) key value), at_key)
      refl

pub set_later :
    (scan : Key → Option ℕ) (section name value key : Key) (m : ConfigManager)
    → IsName section name key
    → find m.configs section ≡ none
    → set_config_key_value scan name value true m ≡ some (applied_later, noted section key value m)
unfolding set_config_key_value
set_later scan section name value key m is missing =
    rw (is.splits, set_config_key_value, is.has_section, is.has_key, missing) refl

pub set_now :
    (scan : Key → Option ℕ) (section name value key : Key) (m : ConfigManager) (d y : Config)
    (b : Bool)
    → IsName section name key
    → find m.configs section ≡ some (d ∷ [])
    → set_key_value scan key value d ≡ some (b, y)
    → set_config_key_value scan name value true m
      ≡ some (
        if b && true then applied else refused,
        record (noted section key value m) { configs = assign m.configs section (y ∷ []) },
      )
unfolding set_config_key_value set_each
set_now scan section name value key m d y b is there e =
    rw (is.splits, set_config_key_value, is.has_section, is.has_key, there, e, set_each) refl

pub set_all-cons :
    (scan : Key → Option ℕ) (s : Key × Key) (ss : List (Key × Key)) (m y : ConfigManager)
    (r : SetResult)
    → set_config_key_value scan s.0 s.1 true m ≡ some (r, y)
    → set_all scan (s ∷ ss) m ≡ set_all scan ss y
unfolding set_all
set_all-cons scan s ss m y r e = rw (e, set_all) refl
