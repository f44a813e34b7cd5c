-- ===== src/Hardware/Hwt.antt =====
-- src/hardware.h, class `HWT`: a hardware thread.
pub mod Percent
use zerosum.Base.{
  ℕ, zero, suc, ◌+◌, ◌-◌, ◌*◌, ◌/◌, ◌%◌, ◌^◌, Bool, true, false, not, List, [], ◌∷◌, ◌++◌, Option,
  none, some, length, get_elem?, drop, max, ltb, if◌then◌else◌,
}
use zerosum.Floats.{Floats}
use zerosum.Hardware.Values.{
  comma_if, values_text, differences_text, first_value, intervals, differences_total,
}
use zerosum.StdMap.{text_ord, Map, find_or}
use zerosum.Stats.{StatFields, add_all_padded, difference, Place, csv_row}
use zerosum.Text.{Text, codes, same_text, to_string, Result, ok, err, ◌>>=◌}
use zerosum.Utils.Running.{Fields}

pub record Hwt : Type 0 where
  pub id : ℕ
  pub stat_fields : StatFields
  pub steps : List ℕ

unfoldable pub new : ℕ → Hwt
new id = record { id = id; stat_fields = []; steps = [] }

unfoldable pub update_fields : Fields → ℕ → Hwt → Hwt
update_fields fields step hwt = record hwt {
  stat_fields = add_all_padded (length hwt.steps) fields hwt.stat_fields;
  steps = hwt.steps ++ step ∷ [];
}

-- All in `unsigned`: the product by 100 wraps around.
unfoldable pub percentage : Text → Text → Text → Text → ℕ
percentage lhs rhs total_lhs total_rhs =
    let result = difference lhs rhs in
    let total = difference total_lhs total_rhs in
    if ltb 0 total then result * 100 % 2 ^ 32 / total else 0

-- `strPercentage`
unfoldable pub str_percentage : Text → Text → Text → Text → Text
unfolding percentage
str_percentage lhs rhs total_lhs total_rhs = to_string (percentage lhs rhs total_lhs total_rhs)

abbrev total_key : Text
total_key = codes "total_time"

-- `i-1` is a `size_t`, so that nothing stands before the step 0.
abbrev pub before : ℕ → ℕ
before i = (i + 2 ^ 64 - 1) % 2 ^ 64

-- The row of one field at the index `i`, or nothing where one of the four reads throws.
hwt_row : Place → ℕ → StatFields → ℕ → ℕ → Text × List Text → Text
hwt_row place id stats step i (name, series) =
    let totals = find_or [] total_key stats in
    elim (get_elem? series i) [
      | none ↦ []
      | some value ↦ elim (get_elem? totals i) [
        | none ↦ []
        | some total ↦ elim (get_elem? series (before i)) [
          | none ↦ []
          | some prev_value ↦ elim (get_elem? totals (before i)) [
            | none ↦ []
            | some prev_total ↦
                csv_row place step (codes "HWT") (codes "Metric") id name
                  (str_percentage value prev_value total prev_total)
          ]
        ]
      ]
    ]

hwt_rows : Place → ℕ → StatFields → ℕ → ℕ → StatFields → Text
unfolding hwt_row
hwt_rows place id stats step i [] = []
hwt_rows place id stats step i (sf ∷ fields) =
    hwt_row place id stats step i sf ++ hwt_rows place id stats step i fields

-- `for ( ; i < steps.size() ; i++)`, over the steps from the index `i` on.
csv_loop : Place → Hwt → ℕ → List ℕ → Text
unfolding hwt_rows
csv_loop place hwt i [] = []
csv_loop place hwt i (step ∷ steps) =
    hwt_rows place hwt.id hwt.stat_fields step i hwt.stat_fields ++ csv_loop place hwt (i + 1) steps

-- The text, and the index where the next call goes on.
unfoldable pub fields_to_csv : Place → ℕ → Hwt → Text × ℕ
unfolding csv_loop
fields_to_csv place i hwt = (csv_loop place hwt i (drop i hwt.steps), max i (length hwt.steps))

abbrev is_step : Text → Bool
is_step name = same_text name (codes "step")

module _ (fl : Floats) where
  -- The average of the differences.
  average_of : List Text → Result fl.Double
  average_of series = do
    previous ← first_value series
    ok (fl.divide (differences_total fl (fl.of_ℕ 0) previous series) (fl.of_ℕ (intervals series)))

  field_line : Text × List Text → Result Text
  unfolding average_of
  field_line (name, series) =
      if is_step name
      then ok (b'\t' ∷ name ++ codes ": " ++ values_text false series ++ b'\n' ∷ [])
      else do
        previous ← first_value series
        average ← average_of series
        ok (
            b'\t' ∷ name
            ++ codes ": "
            ++ differences_text false previous series
            ++ codes " average: "
            ++ fl.print average
            ++ b'\n' ∷ [])

  field_lines : StatFields → Result Text
  unfolding field_line
  field_lines [] = ok []
  field_lines (sf ∷ fields) = do line ← field_line sf; rest ← field_lines fields; ok (line ++ rest)

  unfoldable pub get_fields : Hwt → Result Text
  unfolding field_lines
  get_fields hwt = field_lines hwt.stat_fields

  summary_items : Bool → StatFields → Result Text
  unfolding average_of
  summary_items comma [] = ok []
  summary_items comma ((name, series) ∷ fields) =
      let skipped = summary_items comma fields in
      let others = summary_items true fields in
      if is_step name then skipped else do
        average ← average_of series
        rest ← others
        ok (comma_if comma ++ b' ' ∷ name ++ codes ": " ++ fl.print_6_2 average ++ rest)

  unfoldable pub get_summary : Hwt → Result Text
  unfolding summary_items
  get_summary hwt = summary_items false hwt.stat_fields
