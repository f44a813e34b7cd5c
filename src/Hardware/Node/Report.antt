-- ===== src/Hardware/Node/Report.antt =====
-- src/hardware.h, class `ComputeNode`: the texts that it prints.
use zerosum.Base.{
  ℕ, ◌+◌, ◌*◌, Bool, true, false, not, List, [], ◌∷◌, ◌++◌, none, some, if◌then◌else◌,
}
use zerosum.Floats.{Floats, stod}
use zerosum.Hardware.Gpu
use zerosum.Hardware.Gpu.{Gpu, id_key}
use zerosum.Hardware.Hwt
use zerosum.Hardware.Hwt.{Hwt}
use zerosum.Hardware.Node.{ComputeNode}
use zerosum.Hardware.Values.{values_text, last_value, intervals, values_total}
use zerosum.StdMap.{text_ord, find_or}
use zerosum.StdMap.StdSet.{count}
use zerosum.Stats.{StatFields}
use zerosum.Text.{
  Text, codes, same_text, find_text, erase_text, to_string, pad_left, Result, ok, err, ◌>>=◌,
  out_of_range,
}

-- `std::to_string(hwt.id)` with zeros in front, up to three digits.
abbrev padded_id : ℕ → Text
padded_id id = pad_left 3 b'0' (to_string id)

abbrev gpu_heading : Gpu → Text
gpu_heading gpu =
    codes "GPU " ++ find_or [] id_key gpu.properties ++ codes " - (metric: min  avg  max)\n"

module _ (fl : Floats) where
  average : List Text → fl.Double
  average series = fl.divide (values_total fl (fl.of_ℕ 0) series) (fl.of_ℕ (intervals series))

  field_lines : StatFields → Text
  unfolding average
  field_lines [] = []
  field_lines ((name, series) ∷ fields) =
      (b'\t' ∷ name)
      ++ codes ": "
      ++ values_text false series
      ++ (if same_text name (codes "step")
          then []
          else codes " average: " ++ fl.print (average series))
      ++ b'\n' ∷ []
      ++ field_lines fields

  unfoldable pub get_fields : ComputeNode → Text
  unfolding field_lines
  get_fields node = field_lines node.stat_fields ++ b'\n' ∷ []

  hwt_parts : List ℕ → ℕ → List Hwt → Result Text
  hwt_parts hwthreads index [] = ok []
  hwt_parts hwthreads index (h ∷ hwts) =
      let rest = hwt_parts hwthreads (index + 1) hwts in
      if count index hwthreads
      then (do
        lines ← Hwt.get_fields fl h
        others ← rest
        ok (codes "CPU" ++ to_string h.id ++ b'\n' ∷ [] ++ lines ++ others))
      else rest

  gpu_parts : (Gpu → Result Text) → List Gpu → Result Text
  gpu_parts print [] = ok []
  gpu_parts print (g ∷ gpus) = do
    lines ← print g
    others ← gpu_parts print gpus
    ok (gpu_heading g ++ lines ++ b'\n' ∷ [] ++ others)

  unfoldable pub to_string_node : List ℕ → ComputeNode → Result Text
  unfolding hwt_parts gpu_parts get_fields
  to_string_node hwthreads node = do
    hwts ← hwt_parts hwthreads 0 node.hw_threads
    gpus ← gpu_parts (Gpu.get_fields fl) node.gpus
    ok (codes "\nHardware Summary:\n\n" ++ get_fields node ++ hwts ++ gpus)

  -- The lines of the hardware threads whose membership in the set is as asked.
  summary_parts : Bool → List ℕ → List Hwt → Result Text
  summary_parts inside hwthreads [] = ok []
  summary_parts inside hwthreads (h ∷ hwts) =
      let rest = summary_parts inside hwthreads hwts in
      if (if inside then count h.id hwthreads else not (count h.id hwthreads))
      then (do
        line ← Hwt.get_summary fl h
        others ← rest
        ok (codes "CPU " ++ padded_id h.id ++ codes " -" ++ line ++ b'\n' ∷ [] ++ others))
      else rest

  other_parts : List ℕ → ComputeNode → Result Text
  unfolding summary_parts
  other_parts hwthreads node =
      if node.do_details
      then (do
        others ← summary_parts false hwthreads node.hw_threads
        ok (codes "\nOther Hardware:\n" ++ others))
      else ok []

  unfoldable pub get_summary : List ℕ → ComputeNode → Result Text
  unfolding summary_parts gpu_parts other_parts
  get_summary hwthreads node = do
    hwts ← summary_parts true hwthreads node.hw_threads
    gpus ← gpu_parts (Gpu.get_summary fl) node.gpus
    others ← other_parts hwthreads node
    ok (codes "\nHardware Summary:\n" ++ hwts ++ gpus ++ others)

  -- `name.erase(name.find(" kB"), 3)`, which throws where there is no " kB".
  erase_unit : Text → Result Text
  erase_unit name = elim (find_text (codes " kB") name) [
    | none ↦ err out_of_range
    | some at ↦ ok (erase_text at 3 name)
  ]

  memory_fields : StatFields → Bool → Result Text
  unfolding erase_unit
  memory_fields [] first = ok []
  memory_fields ((field, series) ∷ fields) first =
      let skipped = memory_fields fields first in
      let others = memory_fields fields false in
      elim (find_text (codes "Mem") field) [
        | none ↦ skipped
        | some at ↦ do
          name ← erase_unit (erase_text at 3 field)
          back ← last_value series
          value ← stod fl back
          rest ← others
          ok (
              (if first then [] else codes ", ")
              ++ name
              ++ codes " = "
              ++ fl.print (fl.divide value (fl.of_ℕ (1024 * 1024)))
              ++ rest)
      ]

  gpu_memory : List Gpu → Result Text
  gpu_memory [] = ok []
  gpu_memory (g ∷ gpus) = do own ← Gpu.report_memory fl g; rest ← gpu_memory gpus; ok (own ++ rest)

  unfoldable pub report_memory : ComputeNode → Result Text
  unfolding memory_fields gpu_memory
  report_memory node = do
    own ← memory_fields node.stat_fields true
    gpus ← gpu_memory node.gpus
    ok (codes "CPU Mem (GB): " ++ own ++ gpus ++ b'\n' ∷ [])
