-- ===== src/Tests/Devices.antt =====
-- Two devices of NVIDIA that are selected by their numbers, and an engine of Intel in two periods.
use zerosum.Backend.{visible_devices}
use zerosum.Backend.Activity.{after, engine_value_since_first}
use zerosum.Backend.Agree.{numbers_text, Matches, get_gpu-get_gpu_status}
use zerosum.Backend.Cuda
use zerosum.Backend.Nvml
use zerosum.Backend.Series.{Tracks, run_periods, values_in, run_periods-Tracks}
use zerosum.Backend.Sycl
use zerosum.Backend.Sycl.{
  Activity, Engine, EngineGroup, all, compute_all, copy_all, unreported, engine_value, ratio_text,
}
use zerosum.Base.{ℕ, ◌≡◌, refl, Bool, false, arith, List, [], ◌∷◌, some, none, ltb}
use zerosum.Base.Int.{pos}
use zerosum.Hardware.Gpu.{Gpu}
use zerosum.Hardware.Node.{ComputeNode}
use zerosum.StdMap.{find}
use zerosum.Tests.Objects.{whole}
use zerosum.Text.{Text, codes, compare_text, ok}

abbrev device : Cuda.Device
device = record {
  bus_id = codes "0000:07:00.0";
  name = codes "A100";
  total_global_mem = 42298834944;
  shared_mem_per_block = 49152;
  regs_per_block = pos 65536;
  warp_size = pos 32;
  mem_pitch = 2147483647;
  max_threads_per_block = pos 1024;
  max_threads_dim = (pos 1024, pos 1024, pos 64);
  max_grid_size = (pos 2147483647, pos 65535, pos 65535);
  total_const_mem = 65536;
  major = pos 8;
  minor = pos 0;
  clock_rate = pos 1410000;
  texture_alignment = 512;
  device_overlap = pos 1;
  multi_processor_count = pos 108;
  kernel_exec_timeout_enabled = pos 0;
  integrated = pos 0;
  can_map_host_memory = pos 1;
  compute_mode = pos 0;
  concurrent_kernels = pos 1;
  ecc_enabled = pos 1;
  pci_bus_id = pos 7;
  pci_device_id = pos 0;
  memory_clock_rate = pos 1215000;
  memory_bus_width = pos 5120;
  l2_cache_size = pos 41943040;
  max_threads_per_multi_processor = pos 2048;
  is_multi_gpu_board = pos 0;
}

-- The device with the index `n` has been at `n` percent.
abbrev status : ℕ → Nvml.Status whole
status n = record {
  utilization_gpu = n;
  utilization_memory = 20;
  memory_total = 42298834944;
  memory_free = 42000000000;
  memory_used = 298834944;
  clock_sm = 1410;
  clock_mem = 1215;
  pcie_tx = 2048;
  pcie_rx = 4096;
  power = 61000;
  temperature = 31;
  link_speed = Nvml.of_unsigned 25781;
  link_count = Nvml.of_unsigned 12;
  bandwidth_c0 = Nvml.of_unsigned_long_long 0;
  bandwidth_c1 = Nvml.of_other;
  data_tx = Nvml.of_unsigned_long_long 0;
  data_rx = Nvml.of_unsigned_long_long 0;
  raw_tx = Nvml.of_unsigned_long_long 0;
  raw_rx = Nvml.of_signed_long_long (pos 0);
}

abbrev is_known : ℕ → Bool
is_known n = ltb n 4

abbrev numbers : List ℕ
numbers = 3 ∷ 1 ∷ []

abbrev devices : List Cuda.Device
devices = device ∷ device ∷ []

abbrev pub node : ComputeNode
node = record {
  name = codes "node1";
  ncpus = 0;
  hw_threads = [];
  gpus = [];
  do_details = false;
  stat_fields = [];
  steps = [];
}

get_gpu-get_gpu_status_example :
    (log : Text) × (made read : ComputeNode) × (Cuda.get_gpu 0
        (some (numbers_text numbers))
        devices
        node
      ≡ ok (log, made))
    × (visible_devices is_known 4 (some (numbers_text numbers)) ≡ ok numbers)
    × (Nvml.get_gpu_status whole numbers status 1 made ≡ ok read)
    × Matches whole status read.gpus numbers
get_gpu-get_gpu_status_example =
    get_gpu-get_gpu_status whole is_known status 0 4 1 numbers devices node
      (omega arith, (omega arith, tt)) (refl, (refl, tt)) refl (omega arith) refl

abbrev group_name : EngineGroup → Text
group_name all = codes "ZES_ENGINE_GROUP_ALL"
group_name compute_all = codes "ZES_ENGINE_GROUP_COMPUTE_ALL"
group_name copy_all = codes "ZES_ENGINE_GROUP_COPY_ALL"
group_name unreported = []

abbrev engine : ℕ → ℕ → Engine
engine active_time timestamp = record {
  group = compute_all;
  subdevice = some 0;
  activity = record { active_time = active_time; timestamp = timestamp };
}

-- One device, which is read once in between.
abbrev periods : List (List Sycl.Status)
periods = (record { memory = none; modules = []; engines = engine 400 2000 ∷ [] } ∷ []) ∷ []

engine_value_since_first_example :
    ((engine_value whole group_name (engine 100 1000) []).0 ≡ whole.print (whole.of_ℕ 0))
    × ((engine_value whole group_name
          (engine 900 3000)
          (after whole group_name periods (engine_value whole group_name (engine 100 1000) []).1)).0
        ≡ ratio_text whole group_name (engine 100 1000).activity (engine 900 3000).activity)
unfolding find
engine_value_since_first_example =
    engine_value_since_first whole group_name (engine 100 1000) (engine 900 3000) [] periods refl
      refl

-- Two GPUs without samples, and two periods.
abbrev gpu : ℕ → Gpu
gpu n = record {
  id = n;
  timer_prefix = codes "GPU: Device ";
  properties = [];
  stat_fields = [];
  steps = [];
}

abbrev ready : ComputeNode
ready = record node { gpus = gpu 0 ∷ gpu 1 ∷ [] }

run_periods-Tracks_example :
    (read : ComputeNode) × (run_periods whole numbers (status ∷ status ∷ []) 0 ready ≡ ok read)
    × Tracks
        (codes "Utilization %")
        (values_in whole (codes "Utilization %") (status ∷ status ∷ []))
        (1 ∷ 2 ∷ [])
        read.gpus
        numbers
unfolding Nvml.status_pairs compare_text find
run_periods-Tracks_example =
    run_periods-Tracks whole (codes "Utilization %") numbers (status ∷ status ∷ []) 0 ready
      (λ s. refl) (refl, refl, (refl, refl, tt))
