-- ===== src/Config/Settings.antt =====
-- What settings make of the members of one configuration (utils/config.cpp).
use ros2_perception.Config.{
  Member, Config, number, bad, read_value, set_member, set_number, set_key_value, replay,
  trim_space,
}
use ros2_perception.Prelude.{
  ℕ, ◌≡◌, refl, sym, ap, ◌∙◌, subst, Bool, true, false, Bool-cases, Option, none, some,
  Option-cases, inl, inr, List, [], ◌∷◌, if◌then◌else◌, add64, Key, is_same, find, assign,
  find-assign, is_same→≡, is_same_refl,
}

-- The number of a setting, where it has one.
abbrev pub number_of : (Key → Option ℕ) → Key → ℕ
number_of scan value = elim (read_value scan value) [
  | none ↦ 0
  | some v ↦ elim v [ number n ↦ n | _ ↦ 0 ]
]

-- A setting whose value is a number and whose key has no white space around it.
pub record IsNumber (scan : Key → Option ℕ) (key value : Key) : Type 0 where
  pub reads : read_value scan value ≡ some (number (number_of scan value))
  pub bare : trim_space key ≡ key

-- What a member holds after settings of which the last of each key is known.
abbrev pub settled : (Key → Option ℕ) → Option Member → Option Key → Option Member
settled scan none value = none
settled scan (some old) none = some old
settled scan (some old) (some value) =
    some (record old { stored = old.convert (number_of scan value) })

pub set_key_value_lem :
    (scan : Key → Option ℕ) (key value : Key) (c : Config)
    → IsNumber scan key value
    → set_key_value scan key value c ≡ some (set_number key (number_of scan value) c)
unfolding set_key_value
set_key_value_lem scan key value c is = rw (is.reads, set_key_value) (rw is.bare refl)

set_number-unknown :
    (key : Key) (n : ℕ) (c : Config) → find c.members key ≡ none → set_number key n c ≡ (false, c)
unfolding set_number set_member
set_number-unknown key n c e = rw (e, set_member) refl

set_number-known :
    (key : Key) (n : ℕ) (c : Config) (old : Member)
    → find c.members key ≡ some old
    → set_number key n c ≡ (
      true,
      record c {
        members = assign c.members key (record old { stored = old.convert n });
        version = add64 c.version 1;
      },
    )
unfolding set_number set_member
set_number-known key n c old e = rw (e, set_member) refl

-- A member that is set, and the others.
pub set_key_value-find :
    (scan : Key → Option ℕ) (key value : Key) (c : Config)
    → IsNumber scan key value
    → (d : Config) × (b : Bool) × (set_key_value scan key value c ≡ some (b, d))
      × ((j : Key)
          → find d.members j ≡ (
              if is_same key j
              then settled scan (find c.members j) (some value)
              else find c.members j))
set_key_value-find scan key value c is = elim (Option-cases (find c.members key)) [
  | inl unknown ↦ (
    c,
    false,
    set_key_value_lem scan key value c is
        ∙ ap some (set_number-unknown key (number_of scan value) c unknown),
    λ j. elim (Bool-cases (is_same key j)) [
      | inl q ↦
          let e = is_same→≡ key j q in
          let gone : find c.members j ≡ none = subst (λ k. find c.members k ≡ none) e unknown in
          rw (q, gone) refl
      | inr q ↦ rw q refl
    ],
  )
  | inr (old, known) ↦ (
    record c {
      members = assign c.members key (record old { stored = old.convert (number_of scan value) });
      version = add64 c.version 1;
    },
    true,
    set_key_value_lem scan key value c is
        ∙ ap some (set_number-known key (number_of scan value) c old known),
    λ j.
        find-assign c.members key (record old { stored = old.convert (number_of scan value) }) j
        ∙ elim (Bool-cases (is_same key j)) [
          | inl q ↦
              let e = is_same→≡ key j q in
              let there : find c.members j ≡ some old =
                subst (λ k. find c.members k ≡ some old) e known in
              rw (q, there) refl
          | inr q ↦ rw q refl
        ],
  )
]

settled-none : (scan : Key → Option ℕ) (o : Option Member) → settled scan o none ≡ o
settled-none scan none = refl
settled-none scan (some old) = refl

pub settled-twice :
    (scan : Key → Option ℕ) (o : Option Member) (w : Option Key) (value : Key)
    → settled scan (settled scan o w) (some value) ≡ settled scan o (some value)
settled-twice scan none w value = refl
settled-twice scan (some old) none value = refl
settled-twice scan (some old) (some x) value = refl

-- Settings of which each has a key of its own.
abbrev pub IsUnique : List (Key × Key) → Type 0
IsUnique [] = Unit {0}
IsUnique (s ∷ ss) = (find ss s.0 ≡ none) × IsUnique ss

abbrev pub AllNumbers : (Key → Option ℕ) → List (Key × Key) → Type 0
AllNumbers scan h = (k v : Key) → find h k ≡ some v → IsNumber scan k v

-- The members of a configuration that had those of `c` before the settings.
abbrev pub IsSettled : (Key → Option ℕ) → Config → List (Key × Key) → Config → Type 0
IsSettled scan c h d = (j : Key) → find d.members j ≡ settled scan (find c.members j) (find h j)

pub find-tail :
    (s : Key × Key) (ss : List (Key × Key)) (P : Key → Key → Type 0)
    → find ss s.0 ≡ none
    → ((k v : Key) → find (s ∷ ss) k ≡ some v → P k v)
    → (k v : Key) → find ss k ≡ some v
    → P k v
find-tail s ss P new all k v e = elim (Bool-cases (is_same s.0 k)) [
  | inl q ↦
      let gone : find ss k ≡ none = subst (λ x. find ss x ≡ none) (is_same→≡ s.0 k q) new in
      let clash : none ≡ some v = sym gone ∙ e in cc
  | inr q ↦ all k v (rw q e)
]

pub replay_lem :
    (scan : Key → Option ℕ) (ss : List (Key × Key)) (c : Config)
    → IsUnique ss
    → AllNumbers scan ss
    → (d : Config) × (replay scan ss c ≡ some d) × IsSettled scan c ss d
unfolding replay
replay_lem scan [] c unique all = (c, refl, λ j. sym (settled-none scan (find c.members j)))
replay_lem scan (s ∷ ss) c (new, unique) all =
    let first : IsNumber scan s.0 s.1 = all s.0 s.1 (rw (is_same_refl s.0) refl) in
    let (y, b, e, members) = set_key_value-find scan s.0 s.1 c first in
    let (d, e', rest) =
      replay_lem scan ss y unique (find-tail s ss (λ k v. IsNumber scan k v) new all) in
    (
      d,
      rw (e, replay) e',
      λ j. rest j ∙ elim (Bool-cases (is_same s.0 j)) [
        | inl q ↦
            let gone : find ss j ≡ none = subst (λ x. find ss x ≡ none) (is_same→≡ s.0 j q) new in
            let m : find y.members j ≡ settled scan (find c.members j) (some s.1) =
              members j
              ∙ ap
                  (λ b'.
                    if b' then settled scan (find c.members j) (some s.1) else find c.members j)
                  q in
            rw (q, gone, m) (settled-none scan (settled scan (find c.members j) (some s.1)))
        | inr q ↦
            let m : find y.members j ≡ find c.members j =
              members j
              ∙ ap
                  (λ b'.
                    if b' then settled scan (find c.members j) (some s.1) else find c.members j)
                  q in
            rw (q, m) refl
      ],
    )

-- Settings whose values are not read change nothing.
pub replay-bad :
    (scan : Key → Option ℕ) (ss : List (Key × Key)) (c : Config)
    → IsUnique ss
    → ((k v : Key) → find ss k ≡ some v → read_value scan v ≡ some bad)
    → replay scan ss c ≡ some c
unfolding replay set_key_value
replay-bad scan [] c unique all = refl
replay-bad scan (s ∷ ss) c (new, unique) all =
    let first : read_value scan s.1 ≡ some bad = all s.0 s.1 (rw (is_same_refl s.0) refl) in
    rw (first, replay, set_key_value)
      (replay-bad scan ss c unique
        (find-tail s ss (λ (k v : Key). read_value scan v ≡ some bad) new all))

-- A map is visited as a list of its pairs.
pub record Iterates (iterate : List (Key × Key) → List (Key × Key)) : Type 0 where
  pub visits : (h : List (Key × Key)) (k : Key) → find (iterate h) k ≡ find h k
  pub once : (h : List (Key × Key)) → IsUnique (iterate h)

pub replayed :
    (scan : Key → Option ℕ) (iterate : List (Key × Key) → List (Key × Key)) (h : List (Key × Key))
    (c : Config)
    → Iterates iterate
    → AllNumbers scan h
    → (d : Config) × (replay scan (iterate h) c ≡ some d) × IsSettled scan c h d
replayed scan iterate h c is all =
    let (d, e, members) =
      replay_lem scan (iterate h) c (is.once h) (λ k v q. all k v (sym (is.visits h k) ∙ q)) in
    (d, e, λ j. members j ∙ ap (settled scan (find c.members j)) (is.visits h j))

-- One more setting of a configuration that has the settings so far.
pub set_more :
    (scan : Key → Option ℕ) (key value : Key) (c d : Config) (h : List (Key × Key))
    → IsNumber scan key value
    → IsSettled scan c h d
    → (y : Config) × (b : Bool) × (set_key_value scan key value d ≡ some (b, y))
      × IsSettled scan c (assign h key value) y
set_more scan key value c d h is so =
    let (y, b, e, members) = set_key_value-find scan key value d is in
    (
      y,
      b,
      e,
      λ j. members j ∙ elim (Bool-cases (is_same key j)) [
        | inl q ↦
            rw (q, find-assign h key value j, q)
              (ap (λ o. settled scan o (some value)) (so j)
                ∙ settled-twice scan (find c.members j) (find h j) value)
        | inr q ↦ rw (q, find-assign h key value j, q) (so j)
      ],
    )
