-- ===== src/Hardware/Node.antt =====
-- src/hardware.h, class `ComputeNode`.
pub mod Report
pub mod Labels
use zerosum.Base.{
  ℕ, zero, suc, ◌+◌, ◌-◌, ◌*◌, max, Bool, true, false, not, List, [], ◌∷◌, ◌++◌, Option, none, some,
  length, get_elem?, drop, ltb, if◌then◌else◌,
}
use zerosum.Floats.{Floats, stod}
use zerosum.Hardware.Gpu
use zerosum.Hardware.Gpu.{Gpu}
use zerosum.Hardware.Hwt
use zerosum.Hardware.Hwt.{Hwt}
use zerosum.Hardware.Values.{comma_if, values_text, last_value, intervals, values_total}
use zerosum.StdMap.{text_ord, Map, find_or}
use zerosum.StdMap.StdSet.{count}
use zerosum.Stats.{StatFields, add_all_plain, Place, csv_row}
use zerosum.Text.{
  Text, codes, same_text, find_text, erase_text, to_string, pad_left, Result, ok, err, ◌>>=◌,
  out_of_range, undefined,
}
use zerosum.Utils.Running.{Fields}

pub record ComputeNode : Type 0 where
  pub name : Text
  pub ncpus : ℕ
  pub hw_threads : List Hwt
  pub gpus : List Gpu
  pub do_details : Bool
  pub stat_fields : StatFields
  pub steps : List ℕ

-- The loop of the constructor, with the rounds that are left.
make_hw_threads : ℕ → ℕ → List Hwt
unfolding Hwt.new
make_hw_threads zero i = []
make_hw_threads (suc n) i = Hwt.new i ∷ make_hw_threads n (i + 1)

-- `ncpus` is what `std::thread::hardware_concurrency()` says.
unfoldable pub new : ℕ → Text → Bool → ComputeNode
unfolding make_hw_threads
new ncpus name details = record {
  name = name;
  ncpus = ncpus;
  hw_threads = make_hw_threads ncpus 0;
  gpus = [];
  do_details = details;
  stat_fields = [];
  steps = [];
}

unfoldable pub update_node_fields : Fields → ℕ → ComputeNode → ComputeNode
update_node_fields fields step node = record node {
  stat_fields = add_all_plain fields node.stat_fields;
  steps = node.steps ++ step ∷ [];
}

unfoldable pub make_gpus : List Fields → Result (List Gpu)
make_gpus [] = ok []
make_gpus (p ∷ props) = do g ← Gpu.new p; gs ← make_gpus props; ok (g ∷ gs)

unfoldable pub add_gpu : List Fields → ComputeNode → Result ComputeNode
unfolding make_gpus
add_gpu props node = do gs ← make_gpus props; ok (record node { gpus = node.gpus ++ gs })

-- `fields[index]` is undefined behind the end of `fields`.
unfoldable pub update_gpus : List Gpu → List Fields → ℕ → Result (List Gpu)
update_gpus [] fields step = ok []
update_gpus (g ∷ gpus) [] step = err undefined
update_gpus (g ∷ gpus) (f ∷ fields) step = do
  rest ← update_gpus gpus fields step
  ok (Gpu.update_fields f step g ∷ rest)

unfoldable pub update_gpu : List Fields → ℕ → ComputeNode → Result ComputeNode
unfolding update_gpus
update_gpu fields step node = do
  gpus ← update_gpus node.gpus fields step
  ok (record node { gpus = gpus })

-- The first `ncpus` hardware threads are updated, each from the entry of its index.
update_hw_threads : ℕ → List Hwt → List Fields → ℕ → Result (List Hwt)
update_hw_threads zero hwts fields step = ok hwts
update_hw_threads (suc n) [] fields step = err undefined
update_hw_threads (suc n) (h ∷ hwts) [] step = err undefined
update_hw_threads (suc n) (h ∷ hwts) (f ∷ fields) step = do
  rest ← update_hw_threads n hwts fields step
  ok (Hwt.update_fields f step h ∷ rest)

unfoldable pub update_fields : List Fields → ℕ → ComputeNode → Result ComputeNode
unfolding update_hw_threads
update_fields fields step node = do
  hwts ← update_hw_threads node.ncpus node.hw_threads fields step
  ok (record node { hw_threads = hwts })

node_rows : Place → ℕ → ℕ → StatFields → Text
node_rows place step i [] = []
node_rows place step i ((name, series) ∷ fields) =
    elim (get_elem? series i) [
      | none ↦ []
      | some value ↦ csv_row place step (codes "Node") (codes "Property") 0 name value
    ]
    ++ node_rows place step i fields

csv_loop : Place → StatFields → ℕ → List ℕ → Text
unfolding node_rows
csv_loop place stats i [] = []
csv_loop place stats i (step ∷ steps) =
    node_rows place step i stats ++ csv_loop place stats (i + 1) steps

unfoldable pub fields_to_csv : ℕ → ℕ → ℕ → ComputeNode → Text × ℕ
unfolding csv_loop
fields_to_csv rank shmrank i node = (
  csv_loop (record { host = node.name; rank = rank; shmrank = shmrank }) node.stat_fields i
      (drop i node.steps),
  max i (length node.steps),
)

-- Each part starts again at the index that was saved; what is passed on is where the last part
-- that was written ended.
hwts_to_csv : Place → List ℕ → ℕ → ℕ → List Hwt → Text × ℕ → Text × ℕ
hwts_to_csv place hwthreads saved index [] s = s
hwts_to_csv place hwthreads saved index (h ∷ hwts) (out, last) =
    hwts_to_csv place hwthreads saved (index + 1) hwts (
      if count index hwthreads
      then (out ++ (Hwt.fields_to_csv place saved h).0, (Hwt.fields_to_csv place saved h).1)
      else (out, last))

gpus_to_csv : Place → ℕ → List Gpu → Text × ℕ → Text × ℕ
gpus_to_csv place saved [] s = s
gpus_to_csv place saved (g ∷ gpus) (out, last) =
    gpus_to_csv place saved gpus
      (out ++ (Gpu.fields_to_csv place saved g).0, (Gpu.fields_to_csv place saved g).1)

abbrev csv_header : Text
csv_header =
    codes
      "\"hostname\",\"rank\",\"shmrank\",\"step\",\"resource\",\"type\",\"index\",\"name\",\"value\"\n"

unfoldable pub to_csv : List ℕ → ℕ → ℕ → ℕ → ComputeNode → Text × ℕ
unfolding hwts_to_csv gpus_to_csv fields_to_csv Hwt.fields_to_csv Gpu.fields_to_csv
to_csv hwthreads rank shmrank last node =
    let place : Place = record { host = node.name; rank = rank; shmrank = shmrank } in
    let (own, after_own) = fields_to_csv rank shmrank last node in
    gpus_to_csv place last node.gpus
      (hwts_to_csv place hwthreads last 0 node.hw_threads (csv_header ++ own, after_own))
