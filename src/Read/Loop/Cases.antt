-- ===== src/Read/Loop/Cases.antt =====
-- The results of a round of `keep_reading_` of sdk_client/stage_client_read.cpp, for proofs by cases.
use ros2_perception.Read.Loop.{Reader, Ended, Round, goes_on, ends}
use ros2_perception.Read.Receive.{Event}
use ros2_perception.Prelude.{◌≡◌, refl, Option, none, some, List}

pub data RoundCases (o : Option Round) : Type 0 where
  none_ : o ≡ none → RoundCases o
  goes_ : (next : Reader) (rest : List Event) → o ≡ some (goes_on next rest) → RoundCases o
  ends_ : (reason : Ended) (last : Reader) → o ≡ some (ends reason last) → RoundCases o

pub round-cases : (o : Option Round) → RoundCases o
round-cases none = none_ refl
round-cases (some (goes_on next rest)) = goes_ next rest refl
round-cases (some (ends reason last)) = ends_ reason last refl
