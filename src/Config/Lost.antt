-- ===== src/Config/Lost.antt =====
-- A value that no configuration takes stays in the history of `ConfigManager` (utils/config.cpp).
use ros2_perception.Config.{
  Member, Config, ConfigManager, bad, read_value, set_key_value, add_config, trim_space, at_key,
  begins, applied_later,
}
use ros2_perception.Config.Settings.{
  IsNumber, Iterates, replay-bad, number_of, set_key_value-find, settled,
}
use ros2_perception.Config.Late.{add_lem}
use ros2_perception.Config.Sets.{
  set_all, IsName, noted, find-assign_self, noted-kept, set_later, set_now, set_all-cons,
}
use ros2_perception.Prelude.{
  ℕ, ◌≡◌, refl, sym, ap, ◌∙◌, subst, true, false, Bool-cases, Option, none, some, inl, inr, List,
  [], ◌∷◌, if◌then◌else◌, Key, is_same, find, assign, is_same_refl,
}

set_key_value-bad :
    (scan : Key → Option ℕ) (key value : Key) (c : Config)
    → read_value scan value ≡ some bad
    → set_key_value scan key value c ≡ some (false, c)
unfolding set_key_value
set_key_value-bad scan key value c e = rw (e, set_key_value) refl

-- The history of one key holds its last value only.
add-bad :
    (scan : Key → Option ℕ) (iterate : List (Key × Key) → List (Key × Key)) (c : Config)
    (m : ConfigManager) (key junk : Key)
    → Iterates iterate
    → begins m.basename (trim_space c.config_type) ≡ true
    → find m.configs (trim_space c.config_type) ≡ none
    → at_key m.history (trim_space c.config_type) ≡ (key, junk) ∷ []
    → read_value scan junk ≡ some bad
    → add_config scan iterate c m
      ≡ some (record m { configs = assign m.configs (trim_space c.config_type) (c ∷ []) })
unfolding add_config
add-bad scan iterate c m key junk is base missing kept unread =
    let e = replay-bad scan (iterate ((key, junk) ∷ [])) c (is.once ((key, junk) ∷ [])) (λ k v q.
      let one = sym (is.visits ((key, junk) ∷ []) k) ∙ q in
      elim (Bool-cases (is_same key k)) [
        | inl same ↦
            let shown : some junk ≡ some v =
              ap (λ b. if b then some junk else none) (sym same) ∙ one in
            let value_same : junk ≡ v = cc in
            subst (λ x. read_value scan x ≡ some bad) value_same unread
        | inr other ↦
            let shown : none ≡ some v = ap (λ b. if b then some junk else none) (sym other) ∙ one in
            cc
      ]) in
    rw (base, kept, e, missing, at_key) refl

-- A member, whose key has no white space around it, is set to a number, and then to a value that is
-- not one, in a section that has no settings and no configuration yet: in a configuration that is
-- added before them the member ends up with what its type keeps of the number, and in one that is
-- added behind them it keeps what it held at first.
pub set_config_key_value-lost :
    (scan : Key → Option ℕ) (iterate : List (Key × Key) → List (Key × Key)) (c : Config)
    (m : ConfigManager) (name value key junk : Key) (old : Member)
    → Iterates iterate
    → begins m.basename (trim_space c.config_type) ≡ true
    → find m.configs (trim_space c.config_type) ≡ none
    → at_key m.history (trim_space c.config_type) ≡ []
    → IsName (trim_space c.config_type) name key
    → IsNumber scan key value
    → read_value scan junk ≡ some bad
    → find c.members key ≡ some old
    → (before early behind late : ConfigManager) × (d : Config) × (add_config scan iterate c m
        ≡ some before)
      × (set_all scan ((name, value) ∷ (name, junk) ∷ []) before ≡ some early)
      × (find early.configs (trim_space c.config_type) ≡ some (d ∷ []))
      × (find d.members key ≡ some (record old { stored = old.convert (number_of scan value) }))
      × (set_all scan ((name, value) ∷ (name, junk) ∷ []) m ≡ some behind)
      × (add_config scan iterate c behind ≡ some late)
      × (find late.configs (trim_space c.config_type) ≡ some (c ∷ []))
unfolding set_all
set_config_key_value-lost scan iterate c m name value key junk old is base missing fresh named
      is_number unread there =
    let section = trim_space c.config_type in
    let (before, d0, added, configured, kept, so) =
      add_lem scan iterate c m [] is base missing fresh (λ k v e. cc) in
    let (d, b, set, members) = set_key_value-find scan key value d0 is_number in
    let one : ConfigManager = record (noted section key value before) {
      configs = assign before.configs section (d ∷ []);
    } in
    let one_there = find-assign_self before.configs section (d ∷ []) in
    let two : ConfigManager = record (noted section key junk one) {
      configs = assign one.configs section (d ∷ []);
    } in
    let first = set_now scan section name value key before d0 d b named configured set in
    let second =
      set_now scan section name junk key one d d false named one_there
        (set_key_value-bad scan key junk d unread) in
    let later1 = noted section key value m in
    let later2 = noted section key junk later1 in
    let history =
      noted-kept section key junk later1
      ∙ ap (λ h. assign h key junk)
          (noted-kept section key value m ∙ ap (λ h. assign h key value) fresh)
      ∙ ap (λ b'. if b' then (key, junk) ∷ [] else (key, value) ∷ (key, junk) ∷ [])
          (is_same_refl key) in
    (
      before,
      two,
      later2,
      record later2 { configs = assign m.configs section (c ∷ []) },
      d,
      added,
      set_all-cons scan (name, value) ((name, junk) ∷ []) before one _ first
          ∙ set_all-cons scan (name, junk) [] one two _ second,
      find-assign_self one.configs section (d ∷ []),
      members key
          ∙ ap
              (λ b'.
                if b' then settled scan (find d0.members key) (some value) else find d0.members key)
              (is_same_refl key)
          ∙ ap (λ o. settled scan o (some value)) (so key ∙ ap (λ o. settled scan o none) there),
      set_all-cons scan (name, value) ((name, junk) ∷ []) m later1 applied_later
            (set_later scan section name value key m named missing)
          ∙ set_all-cons scan (name, junk) [] later1 later2 applied_later
              (set_later scan section name junk key later1 named missing),
      add-bad scan iterate c later2 key junk is base missing history unread,
      find-assign_self m.configs section (c ∷ []),
    )
