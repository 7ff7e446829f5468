-- ===== src/Value.antt =====
-- The values that the program puts into metadata, provenance and event attributes. A score or a
-- confidence is in ten-thousandths, a time or a duration in microseconds.
use geo_optimizer.Base.{Option, none, some, ℕ}
use geo_optimizer.Text.{Text}
use geo_optimizer.Dict.{Dict}

pub data Value : Type 0 where
  null : Value
  int : ℕ → Value
  float : ℕ → Value
  str : Text → Value

abbrev pub Metadata : Type 0
Metadata = Dict Text Value

-- A text or `None`.
abbrev pub optional : Option Text → Value
optional none = null
optional (some s) = str s

-- The arguments of an event callback.
pub record Emission : Type 0 where
  pub name : Text
  pub fields : Metadata
