-- ===== src/Hardware/Values.antt =====
-- The loops over the values of one series that the printers of src/hardware.h share.
use zerosum.Base.{
  ℕ, ◌+◌, ◌-◌, ◌%◌, ◌^◌, max, Bool, true, List, [], ◌∷◌, ◌++◌, length, if◌then◌else◌,
}
use zerosum.Floats.{Floats, atof}
use zerosum.Stats.{difference, str_sub}
use zerosum.Text.{Text, Result, ok, err, undefined}

abbrev pub comma_if : Bool → Text
comma_if comma = if comma then b',' ∷ [] else []

-- The values behind one another, with commas between.
unfoldable pub values_text : Bool → List Text → Text
values_text comma [] = []
values_text comma (v ∷ vs) = comma_if comma ++ (v ++ values_text true vs)

-- The differences of neighbours; the first value is compared with `previous`.
unfoldable pub differences_text : Bool → Text → List Text → Text
differences_text comma previous [] = []
differences_text comma previous (v ∷ vs) =
    comma_if comma ++ (str_sub v previous ++ differences_text true v vs)

-- `v[0]` and `v.back()`, which are undefined on an empty vector.
abbrev pub first_value : List Text → Result Text
first_value [] = err undefined
first_value (v ∷ vs) = ok v

unfoldable pub last_value : List Text → Result Text
last_value [] = err undefined
last_value (v ∷ []) = ok v
last_value (v ∷ (w ∷ vs)) = last_value (w ∷ vs)

-- `std::max(size_t(1), v.size()-1)`
abbrev pub intervals : List Text → ℕ
intervals v = max 1 ((length v + 2 ^ 64 - 1) % 2 ^ 64)

module _ (fl : Floats) where
  -- `total` behind the calls of `strSub(v, previous, total)`.
  unfoldable pub differences_total : fl.Double → Text → List Text → fl.Double
  differences_total total previous [] = total
  differences_total total previous (v ∷ vs) =
      differences_total (fl.add total (fl.of_ℕ (difference v previous))) v vs

  unfoldable pub values_total : fl.Double → List Text → fl.Double
  unfolding atof
  values_total total [] = total
  values_total total (v ∷ vs) = values_total (fl.add total (atof fl v)) vs
