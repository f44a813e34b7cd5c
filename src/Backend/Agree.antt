-- ===== src/Backend/Agree.antt =====
-- The devices that are read in each period, against the identifiers that the GPUs got at the start.
use zerosum.Base.{
  ℕ, ◌+◌, ◌^◌, ◌<◌, ◌≤◌, ◌≡◌, refl, ap, ◌∙◌, Bool, true, false, List, [], ◌∷◌, ◌++◌, append_assoc,
  map, Option, some, arith, All, length, length-append, get_elem?,
}
use zerosum.Base.Int.{pos, to_u32, to_u32_small}
use zerosum.Backend.{append_item, id_pairs, device_ids, find_devices, visible_devices}
use zerosum.Backend.Cuda
use zerosum.Backend.Cuda.{Device}
use zerosum.Backend.Nvml.{Status, status_fields, get_gpu_status}
use zerosum.Backend.Pairs.{find-insert_pairs}
use zerosum.Floats.{Floats}
use zerosum.Hardware.Gpu
use zerosum.Hardware.Gpu.{Gpu}
use zerosum.Hardware.Node.{ComputeNode, add_gpu, update_gpu, make_gpus, update_gpus}
use zerosum.StdMap.{text_ord, find}
use zerosum.Stats.{add_all_plain}
use zerosum.Text.{
  Text, codes, compare_text, to_string, to_string-IsDigits, to_string-nonempty, Lacks,
  Lacks-IsDigits, getline_items, stol-to_string, stoi-to_string, ok,
}
use zerosum.Utils.Running.{Fields}
use zerosum.Utils.CpuList.RoundTrip.{single, render, expand_all, Fits, parse_discrete_values-render}
use zerosum.Utils.Files.Words.{getline_items_word, getline_items_whole}

-- The text of a list of numbers.
abbrev pub numbers_text : List ℕ → Text
numbers_text ns = render (map single ns)

expand_all-single : (ns : List ℕ) → expand_all (map single ns) ≡ ns
expand_all-single [] = refl
expand_all-single (n ∷ ns) = ap (λ r. n ∷ r) (expand_all-single ns)

Fits-single : (ns : List ℕ) → All (λ n. n < 2 ^ 31) ns → All Fits (map single ns)
Fits-single [] h = tt
Fits-single (n ∷ ns) h = (h.0, Fits-single ns h.1)

device_ids-numbers_text :
    (ns : List ℕ) → All (λ n. n < 2 ^ 31) ns → device_ids (some (numbers_text ns)) ≡ ok ns
unfolding device_ids
device_ids-numbers_text ns h =
    parse_discrete_values-render (map single ns) (Fits-single ns h) ∙ ap ok (expand_all-single ns)

abbrev texts : List ℕ → List Text
texts ns = map to_string ns

number-Lacks : (n : ℕ) → Lacks b',' (to_string n)
number-Lacks n = Lacks-IsDigits b',' (to_string n) refl (to_string-IsDigits n)

getline_items-numbers_text : (ns : List ℕ) → getline_items b',' (numbers_text ns) ≡ texts ns
unfolding getline_items
getline_items-numbers_text [] = refl
getline_items-numbers_text (n ∷ []) = whole (to_string n) (number-Lacks n) (to_string-nonempty n)
  where
    whole : (w : Text) → Lacks b',' w → 0 < length w → getline_items b',' w ≡ w ∷ []
    whole [] h k = absurd (omega arith)
    whole (c ∷ w) h k = getline_items_whole b',' c w h
getline_items-numbers_text (n ∷ (k ∷ ns)) =
    getline_items_word b',' (to_string n) (numbers_text (k ∷ ns)) (number-Lacks n)
    ∙ ap (λ r. to_string n ∷ r) (getline_items-numbers_text (k ∷ ns))

find_devices-texts :
    (is_known : ℕ → Bool) (ns : List ℕ)
    → All (λ n. n < 2 ^ 31) ns
    → All (λ n. is_known n ≡ true) ns
    → find_devices is_known (texts ns) ≡ ok ns
unfolding find_devices
find_devices-texts is_known [] h k = refl
find_devices-texts is_known (n ∷ ns) h k =
    ground
      (arith, stol-to_string n, to_u32_small n, h.0, k.0, find_devices-texts is_known ns h.1 k.1)

-- The variable gives the devices that are read exactly the identifiers that the GPUs get.
pub visible_devices-numbers_text :
    (is_known : ℕ → Bool) (count : ℕ) (ns : List ℕ)
    → All (λ n. n < 2 ^ 31) ns
    → All (λ n. is_known n ≡ true) ns
    → visible_devices is_known count (some (numbers_text ns)) ≡ ok ns
unfolding visible_devices
visible_devices-numbers_text is_known count ns h k =
    rw (getline_items-numbers_text ns) (find_devices-texts is_known ns h k)

abbrev rt_id : Text
rt_id = codes "RT_GPU_ID"

abbrev pub gpu_id : Text
gpu_id = codes "GPU_ID"

find-device_fields :
    (ids : List ℕ) (i n : ℕ) (d : Device)
    → get_elem? ids i ≡ some n
    → (find rt_id (Cuda.device_fields ids i d) ≡ some (to_string i))
      × (find gpu_id (Cuda.device_fields ids i d) ≡ some (to_string n))
unfolding Cuda.device_fields find compare_text
find-device_fields ids i n d e = (
  find-insert_pairs rt_id (id_pairs ids i ++ Cuda.property_pairs d) [],
  find-insert_pairs gpu_id (id_pairs ids i ++ Cuda.property_pairs d) [] ∙ rw e refl,
)

-- Each GPU has the identifier of the device, and was read from that device.
abbrev pub Matches : (fl : Floats) → (ℕ → Status fl) → List Gpu → List ℕ → Type 0
Matches fl status [] [] = Unit {0}
Matches fl status [] (n ∷ ns) = false ≡ true
Matches fl status (g ∷ gpus) [] = false ≡ true
Matches fl status (g ∷ gpus) (n ∷ ns) =
    (find gpu_id g.properties ≡ some (to_string n))
    × (g.stat_fields ≡ add_all_plain (status_fields fl (status n)) [])
    × Matches fl status gpus ns

-- The GPUs as they are made, before the first period.
abbrev Labelled : List Gpu → List ℕ → Type 0
Labelled [] [] = Unit {0}
Labelled [] (n ∷ ns) = false ≡ true
Labelled (g ∷ gpus) [] = false ≡ true
Labelled (g ∷ gpus) (n ∷ ns) =
    (find gpu_id g.properties ≡ some (to_string n)) × (g.stat_fields ≡ []) × Labelled gpus ns

get_elem?-append :
    (pre : List ℕ) (n : ℕ) (ns : List ℕ) → get_elem? (pre ++ n ∷ ns) (length pre) ≡ some n
get_elem?-append [] n ns = refl
get_elem?-append (p ∷ pre) n ns = get_elem?-append pre n ns

make_gpus-cons :
    (i : ℕ) (fields : Fields) (rest : List Fields) (gpus : List Gpu)
    → find rt_id fields ≡ some (to_string i)
    → i < 2 ^ 31
    → make_gpus rest ≡ ok gpus
    → (g : Gpu) × (make_gpus (fields ∷ rest) ≡ ok (g ∷ gpus))
      × (g.properties ≡ fields)
      × (g.stat_fields ≡ [])
unfolding make_gpus Gpu.new
make_gpus-cons i fields rest gpus e l m = (
  record {
    id = to_u32 (pos i);
    timer_prefix = codes "GPU: Device " ++ to_string i ++ codes " ";
    properties = fields;
    stat_fields = [];
    steps = [];
  },
  ground (arith, e, stoi-to_string i l, m),
  refl,
  refl,
)

make_gpus-Labelled :
    (rank : ℕ) (host rt_ids bus_ids : Text) (visible : Option Text) (pre ns : List ℕ)
    (ds : List Device)
    → length ds ≡ length ns
    → length pre + length ds ≤ 2 ^ 31
    → (gpus : List Gpu) × (make_gpus
          (Cuda.gpu_loop rank host visible (pre ++ ns) (length pre) rt_ids bus_ids ds).1
        ≡ ok gpus)
      × Labelled gpus ns
unfolding make_gpus Cuda.gpu_loop
make_gpus-Labelled rank host rt_ids bus_ids visible pre [] [] e l = ([], refl, tt)
make_gpus-Labelled rank host rt_ids bus_ids visible pre [] (d ∷ ds) e l = absurd (omega arith)
make_gpus-Labelled rank host rt_ids bus_ids visible pre (n ∷ ns) [] e l = absurd (omega arith)
make_gpus-Labelled rank host rt_ids bus_ids visible pre (n ∷ ns) (d ∷ ds) e l =
    let i = length pre in
    let (rt, id) = find-device_fields (pre ++ n ∷ ns) i n d (get_elem?-append pre n ns) in
    let (gpus, m, h) =
      make_gpus-Labelled rank host (append_item i rt_ids (to_string i))
        (append_item i bus_ids d.bus_id) visible (pre ++ n ∷ []) ns ds (omega arith)
        (omega (arith, length-append pre (n ∷ []))) in
    let m' = rw (append_assoc pre (n ∷ []) ns, length-append pre (n ∷ [])) at m in
    let (g, made, props, stats) =
      make_gpus-cons i (Cuda.device_fields (pre ++ n ∷ ns) i d) _ gpus rt (omega arith) m' in
    (g ∷ gpus, made, (ap (find gpu_id) props ∙ id, stats, h))

update_gpus-Matches :
    (fl : Floats) (status : ℕ → Status fl) (step : ℕ) (gpus : List Gpu) (ns : List ℕ)
    → Labelled gpus ns
    → (read : List Gpu) × (update_gpus gpus (map (λ d. status_fields fl (status d)) ns) step
        ≡ ok read)
      × Matches fl status read ns
unfolding update_gpus Gpu.update_fields
update_gpus-Matches fl status step [] [] h = ([], refl, tt)
update_gpus-Matches fl status step [] (n ∷ ns) h = ground arith
update_gpus-Matches fl status step (g ∷ gpus) [] h = ground arith
update_gpus-Matches fl status step (g ∷ gpus) (n ∷ ns) (a, b, h) =
    let (read, e, m) = update_gpus-Matches fl status step gpus ns h in
    (Gpu.update_fields (status_fields fl (status n)) step g ∷ read, rw e refl, (a, rw b refl, m))

-- At a start on a node without GPUs yet, with the identifiers in the variable known to the library of
-- the monitoring and one device for each: the devices that are read in each period are those
-- identifiers, the first period succeeds, and each GPU is left with the identifier of the device that
-- its series was read from.
pub get_gpu-get_gpu_status :
    (fl : Floats) (is_known : ℕ → Bool) (status : ℕ → Status fl) (rank count step : ℕ)
    → (ns : List ℕ) (ds : List Device) (node : ComputeNode) → All (λ n. n < 2 ^ 31) ns
    → All (λ n. is_known n ≡ true) ns
    → length ds ≡ length ns
    → length ds ≤ 2 ^ 31
    → node.gpus ≡ []
    → (log : Text) × (made read : ComputeNode) × (Cuda.get_gpu rank (some (numbers_text ns)) ds node
        ≡ ok (log, made))
      × (visible_devices is_known count (some (numbers_text ns)) ≡ ok ns)
      × (get_gpu_status fl ns status step made ≡ ok read)
      × Matches fl status read.gpus ns
unfolding Cuda.get_gpu get_gpu_status add_gpu update_gpu
get_gpu-get_gpu_status fl is_known status rank count step ns ds node h k e l empty =
    let (gpus, made, labels) =
      make_gpus-Labelled rank node.name [] [] (some (numbers_text ns)) [] ns ds e (omega arith) in
    let (read, updated, matches) = update_gpus-Matches fl status step gpus ns labels in
    (
      (Cuda.gpu_loop rank node.name (some (numbers_text ns)) ns 0 [] [] ds).0,
      record node { gpus = gpus },
      record node { gpus = read },
      ground (arith, device_ids-numbers_text ns h, made, empty),
      visible_devices-numbers_text is_known count ns h k,
      rw updated refl,
      matches,
    )
