-- ===== src/Config/Late.antt =====
-- Settings before and after a configuration is added (`ConfigManager` of utils/config.cpp).
use ros2_perception.Config.{
  Config, ConfigManager, add_config, trim_space, at_key, begins, applied_later,
}
use ros2_perception.Config.Settings.{IsNumber, AllNumbers, IsSettled, Iterates, replayed, set_more}
use ros2_perception.Prelude.{
  ℕ, ◌≡◌, refl, sym, ap, ◌∙◌, subst, true, Bool-cases, Option, none, some, inl, inr, List, [], ◌∷◌,
  if◌then◌else◌, Key, is_same, find, assign, find-assign, is_same→≡,
}
use ros2_perception.Config.Sets.{
  set_all, AreSettings, noted, find-assign_self, noted-kept, set_later, set_now, set_all-cons,
}

-- The history of a section after settings.
abbrev after :
    (scan : Key → Option ℕ) (section : Key) (sets : List (Key × Key))
    → AreSettings scan section sets
    → List (Key × Key)
    → List (Key × Key)
after scan section [] are h = h
after scan section (s ∷ ss) ((key, is, is_number), more) h =
    after scan section ss more (assign h key s.1)

numbers-assign :
    (scan : Key → Option ℕ) (h : List (Key × Key)) (key value : Key)
    → AllNumbers scan h
    → IsNumber scan key value
    → AllNumbers scan (assign h key value)
numbers-assign scan h key value all is k v e =
    let e' = sym (find-assign h key value k) ∙ e in
    elim (Bool-cases (is_same key k)) [
      | inl q ↦
          let same = is_same→≡ key k q in
          let known : some value ≡ some v =
            ap (λ b. if b then some value else find h k) (sym q) ∙ e' in
          subst (λ x. IsNumber scan x v) same
            (let value_same : value ≡ v = cc in subst (λ x. IsNumber scan key x) value_same is)
      | inr q ↦ all k v (ap (λ b. if b then some value else find h k) (sym q) ∙ e')
    ]

numbers-after :
    (scan : Key → Option ℕ) (section : Key) (sets : List (Key × Key))
    (are : AreSettings scan section sets) (h : List (Key × Key))
    → AllNumbers scan h
    → AllNumbers scan (after scan section sets are h)
numbers-after scan section [] are h all = all
numbers-after scan section (s ∷ ss) ((key, is, is_number), more) h all =
    numbers-after scan section ss more (assign h key s.1)
      (numbers-assign scan h key s.1 all is_number)

-- Settings of a configuration that is there.
early_lem :
    (scan : Key → Option ℕ) (section : Key) (c : Config) (sets : List (Key × Key))
    (m : ConfigManager) (d : Config) (h : List (Key × Key)) (are : AreSettings scan section sets)
    → find m.configs section ≡ some (d ∷ [])
    → at_key m.history section ≡ h
    → IsSettled scan c h d
    → (z : ConfigManager) × (e : Config) × (set_all scan sets m ≡ some z)
      × (find z.configs section ≡ some (e ∷ []))
      × IsSettled scan c (after scan section sets are h) e
unfolding set_all
early_lem scan section c [] m d h are there kept so = (m, d, refl, there, so)
early_lem scan section c (s ∷ ss) m d h ((key, is, is_number), more) there kept so =
    let (y, b, e, so') = set_more scan key s.1 c d h is_number so in
    let next : ConfigManager = record (noted section key s.1 m) {
      configs = assign m.configs section (y ∷ []);
    } in
    let (z, d', e', there', final) =
      early_lem scan section c ss next y (assign h key s.1) more
        (find-assign_self m.configs section (y ∷ []))
        (noted-kept section key s.1 m ∙ ap (λ g. assign g key s.1) kept) so' in
    (
      z,
      d',
      set_all-cons scan s ss m next _ (set_now scan section s.0 s.1 key m d y b is there e) ∙ e',
      there',
      final,
    )

-- Settings that no configuration takes yet.
late_lem :
    (scan : Key → Option ℕ) (section : Key) (sets : List (Key × Key)) (m : ConfigManager)
    (h : List (Key × Key)) (are : AreSettings scan section sets)
    → find m.configs section ≡ none
    → at_key m.history section ≡ h
    → (z : ConfigManager) × (set_all scan sets m ≡ some z)
      × (find z.configs section ≡ none)
      × (at_key z.history section ≡ after scan section sets are h)
      × (z.basename ≡ m.basename)
unfolding set_all
late_lem scan section [] m h are missing kept = (m, refl, missing, kept, refl)
late_lem scan section (s ∷ ss) m h ((key, is, is_number), more) missing kept =
    let next = noted section key s.1 m in
    let (z, e, missing', kept', base) =
      late_lem scan section ss next (assign h key s.1) more missing
        (noted-kept section key s.1 m ∙ ap (λ g. assign g key s.1) kept) in
    (
      z,
      set_all-cons scan s ss m next applied_later (set_later scan section s.0 s.1 key m is missing)
          ∙ e,
      missing',
      kept',
      base,
    )

-- A configuration of a section that has none, with the settings of the history.
pub add_lem :
    (scan : Key → Option ℕ) (iterate : List (Key × Key) → List (Key × Key)) (c : Config)
    (m : ConfigManager) (h : List (Key × Key))
    → Iterates iterate
    → begins m.basename (trim_space c.config_type) ≡ true
    → find m.configs (trim_space c.config_type) ≡ none
    → at_key m.history (trim_space c.config_type) ≡ h
    → AllNumbers scan h
    → (z : ConfigManager) × (d : Config) × (add_config scan iterate c m ≡ some z)
      × (find z.configs (trim_space c.config_type) ≡ some (d ∷ []))
      × (at_key z.history (trim_space c.config_type) ≡ h)
      × IsSettled scan c h d
unfolding add_config
add_lem scan iterate c m h is base missing kept all =
    let name = trim_space c.config_type in
    let (d, e, so) = replayed scan iterate h c is all in
    (
      record m { configs = assign m.configs name (d ∷ []) },
      d,
      rw (base, kept, e, missing, at_key) refl,
      find-assign_self m.configs name (d ∷ []),
      kept,
      so,
    )

-- Settings from the application whose values are numbers and whose keys have no white space around
-- them, for a section that has no settings and no configuration yet: a configuration that is added
-- behind them has the members of one that is added before them.
pub add_config-late :
    (scan : Key → Option ℕ) (iterate : List (Key × Key) → List (Key × Key)) (c : Config)
    (m : ConfigManager) (sets : List (Key × Key))
    → Iterates iterate
    → begins m.basename (trim_space c.config_type) ≡ true
    → find m.configs (trim_space c.config_type) ≡ none
    → at_key m.history (trim_space c.config_type) ≡ []
    → AreSettings scan (trim_space c.config_type) sets
    → (before early behind late : ConfigManager) × (d e : Config) × (add_config scan iterate c m
        ≡ some before)
      × (set_all scan sets before ≡ some early)
      × (find early.configs (trim_space c.config_type) ≡ some (d ∷ []))
      × (set_all scan sets m ≡ some behind)
      × (add_config scan iterate c behind ≡ some late)
      × (find late.configs (trim_space c.config_type) ≡ some (e ∷ []))
      × ((j : Key) → find d.members j ≡ find e.members j)
add_config-late scan iterate c m sets is base missing fresh are =
    let section = trim_space c.config_type in
    let nothing : AllNumbers scan [] = λ k v e. cc in
    let (before, d0, added, there, kept, so) =
      add_lem scan iterate c m [] is base missing fresh nothing in
    let (early, d, set, there', settled_d) =
      early_lem scan section c sets before d0 [] are there kept so in
    let (behind, set', missing', kept', base') =
      late_lem scan section sets m [] are missing fresh in
    let (late, e, added', there_late, kept_late, settled_e) =
      add_lem scan iterate c behind (after scan section sets are []) is
        (ap (λ b. begins b section) base' ∙ base) missing' kept'
        (numbers-after scan section sets are [] nothing) in
    (
      before,
      early,
      behind,
      late,
      d,
      e,
      added,
      set,
      there',
      set',
      added',
      there_late,
      λ j. settled_d j ∙ sym (settled_e j),
    )
