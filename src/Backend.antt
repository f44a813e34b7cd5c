-- ===== src/Backend.antt =====
-- The libraries of the GPUs: what src/zerosum_cuda.cpp, src/nvml.cpp, src/zerosum_hip.cpp,
-- src/rocmsmi.cpp, src/zerosum_sycl.cpp and src/sycl.cpp make of their answers, which are records here.
-- The calls that answer with an error end the program, or leave what they should have set; such runs
-- are not modelled, but for the search of a device by its index.
pub mod Cuda
pub mod Pairs
pub mod Activity
pub mod Agree
pub mod Labels
pub mod Series
pub mod Hip
pub mod Nvml
pub mod Rsmi
pub mod Sycl
use zerosum.Base.{
  ℕ, zero, suc, ◌+◌, Bool, true, false, List, [], ◌∷◌, ◌++◌, Option, none, some, get_elem?, take,
  ltb, if◌then◌else◌,
}
use zerosum.Base.Int.{ℤ, pos, negsuc, to_u32}
use zerosum.Software.Process.Report.{print_rank}
use zerosum.StdMap.{text_ord, insert}
use zerosum.Text.{
  Text, codes, to_string, to_string_ℤ, stol, getline_items, Result, ok, err, ◌>>=◌, exited,
}
use zerosum.Utils.CpuList.{parse_discrete_values}
use zerosum.Utils.Running.{Fields}

-- A name and a value for each call of `fields.insert`, in order.
abbrev pub Pairs : Type 0
Pairs = List (Text × Text)

unfoldable pub insert_pairs : Pairs → Fields → Fields
insert_pairs [] fields = fields
insert_pairs ((name, value) ∷ pairs) fields = insert_pairs pairs (insert name value fields)

-- `prop.… > 0 ? "yes" : "no"`
abbrev pub yes_no : ℤ → Text
yes_no (pos zero) = codes "no"
yes_no (pos (suc n)) = codes "yes"
yes_no (negsuc n) = codes "no"

-- `"[" + … + "," + … + "," + … + "]"`
abbrev pub triple_text : ℤ × ℤ × ℤ → Text
triple_text (x, y, z) =
    b'[' ∷ to_string_ℤ x ++ b',' ∷ to_string_ℤ y ++ b',' ∷ to_string_ℤ z ++ codes "]"

-- The numbers from `i` on.
abbrev pub count_up : ℕ → ℕ → List ℕ
count_up zero i = []
count_up (suc n) i = i ∷ count_up n (i + 1)

-- `device_ids` of `getgpu`: the variable that selects the devices, if it is set.
unfoldable pub device_ids : Option Text → Result (List ℕ)
device_ids none = ok []
device_ids (some visible) = parse_discrete_values visible

-- The identifiers that all devices get first.
abbrev pub id_pairs : List ℕ → ℕ → Pairs
id_pairs ids i =
    (codes "RT_GPU_ID", to_string i)
    ∷ (codes "GPU_ID", elim (get_elem? ids i) [ none ↦ to_string i | some id ↦ to_string id ])
    ∷ []

-- `gpu_id_list`
abbrev pub gpu_id_list : Option Text → Text
gpu_id_list none = codes "N/A"
gpu_id_list (some visible) = visible

-- A comma in front of all items but the first.
abbrev pub append_item : ℕ → Text → Text → Text
append_item i list item = if ltb 0 i then list ++ b',' ∷ item else list ++ item

-- The line of a rank in the log.
unfoldable pub gpu_line : ℕ → Text → Text → Text → Text → Text
gpu_line rank host rt_gpu_ids gpu_ids bus_ids =
    take 1023 (
      codes "MPI "
      ++ print_rank rank
      ++ codes " - Node "
      ++ host
      ++ codes " - RT_GPU_ID "
      ++ rt_gpu_ids
      ++ codes " - GPU_ID "
      ++ gpu_ids
      ++ codes " - Bus_ID "
      ++ bus_ids)
    ++ b'\n' ∷ []

-- The loop over the tokens; a device that the library does not know ends the program.
unfoldable pub find_devices : (ℕ → Bool) → List Text → Result (List ℕ)
find_devices is_known [] = ok []
find_devices is_known (token ∷ tokens) = do
  index ← stol token
  (if is_known (to_u32 index)
      then (do rest ← find_devices is_known tokens; ok (to_u32 index ∷ rest))
      else err exited)

-- The devices to read, by their indices: `initialize_nvml`, and `initialize_rocm_smi`, where each index
-- is taken as it is.
unfoldable pub visible_devices : (ℕ → Bool) → ℕ → Option Text → Result (List ℕ)
unfolding find_devices
visible_devices is_known count none = ok (count_up count 0)
visible_devices is_known count (some visible) = find_devices is_known (getline_items b',' visible)
