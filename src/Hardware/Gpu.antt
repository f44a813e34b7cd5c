-- ===== src/Hardware/Gpu.antt =====
-- src/hardware.h, class `GPU`.
use zerosum.Base.{
  ℕ, ◌+◌, ◌*◌, max, Bool, true, false, ◌||◌, List, [], ◌∷◌, ◌++◌, Option, none, some, length,
  get_elem?, drop, ltb, ◌==◌, if◌then◌else◌,
}
use zerosum.Base.Int.{to_u32}
use zerosum.Floats.{Floats, stod}
use zerosum.Hardware.Values.{
  values_text, differences_text, first_value, last_value, intervals, differences_total,
  values_total,
}
use zerosum.StdMap.{text_ord, find_or}
use zerosum.Stats.{StatFields, add_all_plain, str_sub, Place, csv_row}
use zerosum.Text.{
  Text, codes, same_text, stoi, find_text, erase_text, Result, ok, err, ◌>>=◌, out_of_range,
}
use zerosum.Utils.Running.{Fields}

pub record Gpu : Type 0 where
  pub id : ℕ
  pub timer_prefix : Text
  pub properties : Fields
  pub stat_fields : StatFields
  pub steps : List ℕ

abbrev pub id_key : Text
id_key = codes "RT_GPU_ID"

-- The constructor throws where the identifier is not a number.
unfoldable pub new : Fields → Result Gpu
new props = do
  id ← stoi (find_or [] id_key props)
  ok (record {
    id = to_u32 id;
    timer_prefix = codes "GPU: Device " ++ find_or [] id_key props ++ codes " ";
    properties = props;
    stat_fields = [];
    steps = [];
  })

unfoldable pub update_fields : Fields → ℕ → Gpu → Gpu
update_fields fields step gpu = record gpu {
  stat_fields = add_all_plain fields gpu.stat_fields;
  steps = gpu.steps ++ step ∷ [];
}

property_rows : Place → ℕ → Fields → Text
property_rows place id [] = []
property_rows place id ((name, value) ∷ properties) =
    csv_row place 0 (codes "GPU") (codes "Property") id name value
    ++ property_rows place id properties

metric_rows : Place → ℕ → ℕ → ℕ → StatFields → Text
metric_rows place id step i [] = []
metric_rows place id step i ((name, series) ∷ fields) =
    elim (get_elem? series i) [
      | none ↦ []
      | some value ↦ csv_row place step (codes "GPU") (codes "Metric") id name value
    ]
    ++ metric_rows place id step i fields

csv_loop : Place → Gpu → ℕ → List ℕ → Text
unfolding metric_rows
csv_loop place gpu i [] = []
csv_loop place gpu i (step ∷ steps) =
    metric_rows place gpu.id step i gpu.stat_fields ++ csv_loop place gpu (i + 1) steps

unfoldable pub fields_to_csv : Place → ℕ → Gpu → Text × ℕ
unfolding csv_loop property_rows
fields_to_csv place i gpu = (
  (if i == 0 then property_rows place gpu.id gpu.properties else [])
      ++ csv_loop place gpu i (drop i gpu.steps),
  max i (length gpu.steps),
)

-- The fields that count up.
abbrev is_counter : Text → Bool
is_counter name =
    same_text name (codes "Energy Average (J)")
    || same_text name (codes "GFX Activity %")
    || same_text name (codes "Memory Activity %")

property_lines : Fields → Text
property_lines [] = []
property_lines ((name, value) ∷ properties) =
    (b'\t' ∷ name) ++ codes ": " ++ value ++ b'\n' ∷ [] ++ property_lines properties

module _ (fl : Floats) where
  counter_average : List Text → Result fl.Double
  counter_average series = do
    previous ← first_value series
    ok (fl.divide (differences_total fl (fl.of_ℕ 0) previous series) (fl.of_ℕ (intervals series)))

  -- `total/std::max(size_t(1), size)`
  value_average : List Text → fl.Double
  value_average series =
      fl.divide (values_total fl (fl.of_ℕ 0) series) (fl.of_ℕ (max 1 (length series)))

  field_line : Text × List Text → Result Text
  unfolding counter_average value_average
  field_line (name, series) =
      if is_counter name
      then (do
        previous ← first_value series
        average ← counter_average series
        ok (
            (b'\t' ∷ name)
            ++ codes ": "
            ++ differences_text false previous series
            ++ codes " average: "
            ++ fl.print average
            ++ b'\n' ∷ []))
      else ok (
          (b'\t' ∷ name)
          ++ codes ": "
          ++ values_text false series
          ++ codes " average: "
          ++ fl.print (value_average series)
          ++ b'\n' ∷ [])

  field_lines : StatFields → Result Text
  unfolding field_line
  field_lines [] = ok []
  field_lines (sf ∷ fields) = do line ← field_line sf; rest ← field_lines fields; ok (line ++ rest)

  unfoldable pub get_fields : Gpu → Result Text
  unfolding field_lines property_lines
  get_fields gpu = do
    lines ← field_lines gpu.stat_fields
    ok (property_lines gpu.properties ++ lines)

  -- The extremes of the differences, from `0.0` on: `stod` of a printed number does not throw, and
  -- is given here as that number's text.
  difference_extremes : fl.Double → fl.Double → Text → List Text → Result (fl.Double × fl.Double)
  difference_extremes low high previous [] = ok (low, high)
  difference_extremes low high previous (v ∷ vs) = do
    x ← stod fl (str_sub v previous)
    difference_extremes (fl.minimum low x) (fl.maximum high x) v vs

  value_extremes : fl.Double → fl.Double → List Text → Result (fl.Double × fl.Double)
  value_extremes low high [] = ok (low, high)
  value_extremes low high (v ∷ vs) = do
    x ← stod fl v
    value_extremes (fl.minimum low x) (fl.maximum high x) vs

  abbrev extremes_text : fl.Double → fl.Double → fl.Double → Text
  extremes_text low average high =
      fl.print low ++ codes " " ++ fl.print average ++ codes " " ++ fl.print high

  summary_line : Text × List Text → Result Text
  unfolding counter_average value_average difference_extremes value_extremes
  summary_line (name, series) = do
    front ← first_value series
    start ← stod fl front
    numbers ←
        (if is_counter name
          then (do
            (low, high) ← difference_extremes (fl.of_ℕ 0) (fl.of_ℕ 0) front series
            average ← counter_average series
            ok (extremes_text low average high))
          else (do
            (low, high) ← value_extremes start start series
            ok (extremes_text low (value_average series) high)))
    ok ((b'\t' ∷ name) ++ codes ": " ++ numbers ++ b'\n' ∷ [])

  summary_lines : StatFields → Result Text
  unfolding summary_line
  summary_lines [] = ok []
  summary_lines (sf ∷ fields) = do
    line ← summary_line sf
    rest ← summary_lines fields
    ok (line ++ rest)

  unfoldable pub get_summary : Gpu → Result Text
  unfolding summary_lines
  get_summary gpu = summary_lines gpu.stat_fields

  -- `1024*1024*1024`
  abbrev giga : fl.Double
  giga = fl.of_ℕ (1024 * 1024 * 1024)

  -- One of the three blocks of `reportMemory`. `at` is where the pattern stood in the name of the
  -- field; the blocks before may have changed `name` by now, and `erase` throws behind its end.
  memory_item : Option ℕ → ℕ → Text → List Text → Text × Text × Bool → Result (Text × Text × Bool)
  memory_item none len suffix series (name, out, first) = ok (name, out, first)
  memory_item (some at) len suffix series (name, out, first) =
      if ltb (length name) at then err out_of_range else do
        let name' = erase_text at len name ++ suffix
        back ← last_value series
        value ← stod fl back
        ok (
          name',
          out
              ++ (if first then [] else codes ", ")
              ++ name'
              ++ codes "= "
              ++ fl.print (fl.divide value giga),
          false,
        )

  abbrev vram_key : Text
  vram_key = codes " VRAM Bytes"

  abbrev visible_key : Text
  visible_key = codes " Visible VRAM Bytes"

  abbrev total_key : Text
  total_key = codes "TotalMem (bytes)"

  abbrev free_key : Text
  free_key = codes "FreeMem (bytes)"

  -- `i != npos && i2 == npos`
  abbrev unless_visible : Option ℕ → Option ℕ → Option ℕ
  unless_visible i none = i
  unless_visible i (some i2) = none

  memory_field : Text × List Text → Text × Bool → Result (Text × Bool)
  unfolding memory_item
  memory_field (field, series) (out, first) = do
    let visible = find_text visible_key field
    s ←
        memory_item (unless_visible (find_text vram_key field) visible) 11 [] series
          (field, out, first)
    t ← memory_item (find_text total_key field) 16 (codes "TotalMem ") series s
    (name, out', first') ← memory_item (find_text free_key field) 15 (codes "FreeMem ") series t
    ok (out', first')

  memory_fields : StatFields → Text × Bool → Result Text
  unfolding memory_field
  memory_fields [] (out, first) = ok out
  memory_fields (sf ∷ fields) s = do t ← memory_field sf s; memory_fields fields t

  unfoldable pub report_memory : Gpu → Result Text
  unfolding memory_fields
  report_memory gpu = memory_fields gpu.stat_fields (codes "\nGPU Mem (GB): ", true)
