-- ===== src/Base/Floats.antt =====
-- The floating-point operations of the JavaScript engine that the source uses: they are not part
-- of the repository, so the formulas take them as a record.
use duniter.Base.Int.{ℤ}
use mathlib.Core.Bool.{Bool}

pub record Floats : Type 1 where
  pub Number : Type 0
  pub of_int : ℤ → Number
  pub add : Number → Number → Number
  pub sub : Number → Number → Number
  pub mul : Number → Number → Number
  pub div : Number → Number → Number
  pub square : Number → Number
  pub log : Number → Number
  pub max_of : Number → Number → Number
  pub ge : Number → Number → Bool
  pub ceil : Number → ℤ
  pub floor : Number → ℤ
