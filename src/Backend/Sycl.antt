-- ===== src/Backend/Sycl.antt =====
-- src/zerosum_sycl.cpp and src/sycl.cpp: the properties of the devices of Intel, and what they say in one
-- period. What is printed to the terminal is left out.
use zerosum.Base.{
  ℕ, ◌+◌, ◌-◌, ◌%◌, ◌^◌, Bool, true, false, List, [], ◌∷◌, ◌++◌, Option, none, some, ◌==◌,
  if◌then◌else◌,
}
use zerosum.Backend.{Pairs, insert_pairs}
use zerosum.Floats.{Floats}
use zerosum.Hardware.Node.{ComputeNode, add_gpu, update_gpu}
use zerosum.StdMap.{text_ord, Map, find, insert}
use zerosum.Text.{Text, codes, to_string, starts_with, Result, ok, err, ◌>>=◌, exited}
use zerosum.Utils.Running.{Fields}

-- The names that `getgpu` asks each device for, in order.
abbrev pub info_names : List Text
info_names =
    codes "Name"
    ∷ codes "Vendor"
    ∷ codes "Driver Version"
    ∷ codes "Version"
    ∷ codes "TotalMem (bytes)"
    ∷ codes "FreeMem (bytes)"
    ∷ codes "Max Compute Units"
    ∷ codes "Max Work Item Dimensions"
    ∷ codes "Max Work Group Size"
    ∷ codes "Max Clock Frequency (MHz)"
    ∷ codes "Max Memory Allocation Size (B)"
    ∷ codes "Global Memory Cache Line Size (B)"
    ∷ codes "Global Memory Cache Size (B)"
    ∷ codes "Global Memory Size (B)"
    ∷ codes "Local Memory Size (B)"
    ∷ codes "Device ID"
    ∷ codes "PCI Address"
    ∷ codes "EU Count"
    ∷ codes "EU SIMD Width"
    ∷ codes "Slices"
    ∷ codes "Subslices per Slice"
    ∷ codes "EU Count per Subslice"
    ∷ codes "HW Threads per EU"
    ∷ codes "Memory Clock Rate"
    ∷ codes "Memory Bus Width"
    ∷ codes "Max Compute Queue Indices"
    ∷ []

-- `trycatch_string` and `trycatch_size`: the text of an answer, if the library does not throw.
unfoldable pub known_pairs : (Text → Option Text) → List Text → Pairs
known_pairs info [] = []
known_pairs info (name ∷ names) = elim (info name) [
  | none ↦ known_pairs info names
  | some value ↦ (name, value) ∷ known_pairs info names
]

unfoldable pub gpu_fields : ℕ → List (Text → Option Text) → List Fields
unfolding known_pairs insert_pairs
gpu_fields index [] = []
gpu_fields index (info ∷ devices) =
    insert_pairs ((codes "RT_GPU_ID", to_string index) ∷ known_pairs info info_names) []
    ∷ gpu_fields (index + 1) devices

-- `getgpu`
unfoldable pub get_gpu : List (Text → Option Text) → ComputeNode → Result ComputeNode
unfolding gpu_fields
get_gpu devices node = add_gpu (gpu_fields 0 devices) node

-- The time that an engine was active and the time of the reading, in microseconds.
pub record Activity : Type 0 where
  pub active_time : ℕ
  pub timestamp : ℕ

-- The groups of engines that are reported, and the others.
pub data EngineGroup : Type 0 where
  all compute_all copy_all unreported : EngineGroup

pub record Engine : Type 0 where
  pub group : EngineGroup
  pub subdevice : Option ℕ
  pub activity : Activity

-- The memory in all and what is free, if reading it does not throw; that of each module; the engines.
pub record Status : Type 0 where
  pub memory : Option (ℕ × ℕ)
  pub modules : List (ℕ × ℕ)
  pub engines : List Engine

-- The static `activityMap`.
abbrev pub Activities : Type 0
Activities = Map Text Activity

abbrev pub is_reported : EngineGroup → Bool
is_reported unreported = false
is_reported _ = true

unfoldable pub memory_pairs : Option (ℕ × ℕ) → Pairs
memory_pairs none = []
memory_pairs (some (total, free)) =
    (codes "SYCL TotalMem (bytes)", to_string total)
    ∷ (codes "SYCL FreeMem (bytes)", to_string free)
    ∷ []

unfoldable pub module_pairs : ℕ → List (ℕ × ℕ) → Pairs
module_pairs i [] = []
module_pairs i ((size, free) ∷ modules) =
    let prefix = codes "L0 M" ++ to_string i in
    (prefix ++ codes " TotalMem (bytes)", to_string size)
    ∷ (prefix ++ codes " FreeMem (bytes)", to_string free)
    ∷ module_pairs (i + 1) modules

-- The difference of two `uint64_t`.
abbrev pub minus_u64 : ℕ → ℕ → ℕ
minus_u64 a b = (a + 2 ^ 64 - b) % 2 ^ 64

module _ (fl : Floats) (group_name : EngineGroup → Text) where
  abbrev pub engine_key : Engine → Text
  engine_key e =
      group_name e.group
      ++ elim e.subdevice [ none ↦ [] | some id ↦ codes ", subdevice " ++ to_string id ]
      ++ codes ","

  -- The share of the time between two readings.
  abbrev pub ratio_text : Activity → Activity → Text
  ratio_text old new =
      let elapsed = minus_u64 new.timestamp old.timestamp in
      if elapsed == 0
      then fl.print (fl.of_ℕ 0)
      else fl.print
          (fl.divide (fl.of_ℕ (minus_u64 new.active_time old.active_time)) (fl.of_ℕ elapsed))

  -- The value for an engine, and the static map afterwards.
  unfoldable pub engine_value : Engine → Activities → Text × Activities
  engine_value e seen = elim (find (engine_key e) seen) [
    | none ↦ (fl.print (fl.of_ℕ 0), insert (engine_key e) e.activity seen)
    | some last ↦ (ratio_text last e.activity, seen)
  ]

  unfoldable pub engine_pairs : List Engine → Activities → Pairs × Activities
  unfolding engine_value
  engine_pairs [] seen = ([], seen)
  engine_pairs (e ∷ engines) seen =
      if is_reported e.group
      then (let (value, seen') = engine_value e seen in
          let (pairs, seen'') = engine_pairs engines seen' in
          ((engine_key e ++ codes " Active Time", value) ∷ pairs, seen''))
      else engine_pairs engines seen

  unfoldable pub status_fields : List Status → Activities → List Fields × Activities
  unfolding memory_pairs module_pairs engine_pairs insert_pairs
  status_fields [] seen = ([], seen)
  status_fields (s ∷ devices) seen =
      let (engines, seen') = engine_pairs s.engines seen in
      let (rest, seen'') = status_fields devices seen' in
      (
        insert_pairs (memory_pairs s.memory ++ module_pairs 0 s.modules ++ engines) [] ∷ rest,
        seen'',
      )

  -- `initialize_sycl` ends the program where `ZES_ENABLE_SYSMAN` does not start with 1.
  unfoldable pub get_gpu_status :
      Option Text → List Status → ℕ → Activities → ComputeNode → Result (ComputeNode × Activities)
  unfolding status_fields starts_with
  get_gpu_status sysman devices step seen node = elim sysman [
    | none ↦ err exited
    | some value ↦
        if starts_with (codes "1") value
        then (do
          let (fields, seen') = status_fields devices seen
          node' ← update_gpu fields step node
          ok (node', seen'))
        else err exited
  ]
