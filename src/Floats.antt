-- ===== src/Floats.antt =====
-- The `double`s of the summaries: a parameter, with the operations that the code applies to them.
use zerosum.Base.{ℕ, Option, none, some}
use zerosum.Base.Int.{ℤ}
use zerosum.Text.{Text, Result, ok, err, invalid_argument}

pub record Floats : Type 1 where
  pub Double : Type 0
  pub of_ℕ : ℕ → Double
  pub of_ℤ : ℤ → Double
  pub add : Double → Double → Double
  -- The `float` with these bits.
  pub of_bits : ℕ → Double
  pub multiply : Double → Double → Double
  pub divide : Double → Double → Double
  pub maximum : Double → Double → Double
  pub minimum : Double → Double → Double
  -- `strtod`; `none` where nothing is converted.
  pub strtod : Text → Option Double
  -- `std::to_string`, that is `%f`, and `%6.2f`.
  pub print : Double → Text
  pub print_6_2 : Double → Text

module _ (fl : Floats) where
  -- `std::stod`
  unfoldable pub stod : Text → Result fl.Double
  stod s = elim (fl.strtod s) [ none ↦ err invalid_argument | some x ↦ ok x ]

  -- `atof`
  unfoldable pub atof : Text → fl.Double
  atof s = elim (fl.strtod s) [ none ↦ fl.of_ℕ 0 | some x ↦ x ]
