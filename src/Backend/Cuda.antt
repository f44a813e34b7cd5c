-- ===== src/Backend/Cuda.antt =====
-- src/zerosum_cuda.cpp: the properties of the devices.
use zerosum.Base.{ℕ, zero, suc, ◌+◌, List, [], ◌∷◌, ◌++◌, Option}
use zerosum.Base.Int.{ℤ, pos}
use zerosum.Backend.{
  Pairs, insert_pairs, yes_no, triple_text, device_ids, id_pairs, gpu_id_list, append_item,
  gpu_line,
}
use zerosum.Hardware.Node.{ComputeNode, add_gpu}
use zerosum.Text.{Text, codes, to_string, to_string_ℤ, Result, ok, ◌>>=◌}
use zerosum.Utils.Running.{Fields}

-- `cudaDeviceProp` as far as it is read, and the text of `cudaDeviceGetPCIBusId`.
pub record Device : Type 0 where
  pub bus_id : Text
  pub name : Text
  pub total_global_mem : ℕ
  pub shared_mem_per_block : ℕ
  pub regs_per_block : ℤ
  pub warp_size : ℤ
  pub mem_pitch : ℕ
  pub max_threads_per_block : ℤ
  pub max_threads_dim : ℤ × ℤ × ℤ
  pub max_grid_size : ℤ × ℤ × ℤ
  pub total_const_mem : ℕ
  pub major : ℤ
  pub minor : ℤ
  pub clock_rate : ℤ
  pub texture_alignment : ℕ
  pub device_overlap : ℤ
  pub multi_processor_count : ℤ
  pub kernel_exec_timeout_enabled : ℤ
  pub integrated : ℤ
  pub can_map_host_memory : ℤ
  pub compute_mode : ℤ
  pub concurrent_kernels : ℤ
  pub ecc_enabled : ℤ
  pub pci_bus_id : ℤ
  pub pci_device_id : ℤ
  pub memory_clock_rate : ℤ
  pub memory_bus_width : ℤ
  pub l2_cache_size : ℤ
  pub max_threads_per_multi_processor : ℤ
  pub is_multi_gpu_board : ℤ

abbrev mode_text : ℤ → Text
mode_text (pos (suc zero)) = codes "Exclusive"
mode_text (pos (suc (suc zero))) = codes "Prohibited"
mode_text (pos (suc (suc (suc zero)))) = codes "Exclusive Process"
mode_text _ = codes "Default"

-- The calls of `insert` behind the identifiers.
unfoldable pub property_pairs : Device → Pairs
property_pairs d =
    (codes "Bus ID", d.bus_id)
    ∷ (codes "Name", d.name)
    ∷ (codes "Total Global Memory", to_string d.total_global_mem)
    ∷ (codes "Shared Memory per Block", to_string d.shared_mem_per_block)
    ∷ (codes "Registers per Block", to_string_ℤ d.regs_per_block)
    ∷ (codes "Warp Size", to_string_ℤ d.warp_size)
    ∷ (codes "Max Memory Pitch", to_string d.mem_pitch)
    ∷ (codes "Max Threads per Block", to_string_ℤ d.max_threads_per_block)
    ∷ (codes "Max Grid Size", triple_text d.max_threads_dim)
    ∷ (codes "Total Constant Memory", to_string d.total_const_mem)
    ∷ (codes "Major Compute", to_string_ℤ d.major)
    ∷ (codes "Minor Compute", to_string_ℤ d.minor)
    ∷ (codes "Clock Rate", to_string_ℤ d.clock_rate)
    ∷ (codes "Texture Alignment", to_string d.texture_alignment)
    ∷ (codes "Device Overlap", yes_no d.device_overlap)
    ∷ (codes "Multi Processor Count", to_string_ℤ d.multi_processor_count)
    ∷ (codes "Kernel Execution Timeout Enabled", yes_no d.kernel_exec_timeout_enabled)
    ∷ (codes "Integrated", yes_no d.integrated)
    ∷ (codes "Can Map Host Memory", yes_no d.can_map_host_memory)
    ∷ (codes "Compute Mode", mode_text d.compute_mode)
    ∷ (codes "Concurrent Kernels", yes_no d.concurrent_kernels)
    ∷ (codes "ECC Enabled", yes_no d.ecc_enabled)
    ∷ (codes "PCI Bus ID", to_string_ℤ d.pci_bus_id)
    ∷ (codes "PCI Device ID", to_string_ℤ d.pci_device_id)
    ∷ (codes "Max Threads Dim", triple_text d.max_grid_size)
    ∷ (codes "Memory Clock Rate", to_string_ℤ d.memory_clock_rate)
    ∷ (codes "Memory Bus Width", to_string_ℤ d.memory_bus_width)
    ∷ (codes "Total Const Memory", to_string d.total_const_mem)
    ∷ (codes "L2 Cache Size", to_string_ℤ d.l2_cache_size)
    ∷ (codes "Max Threads per Multi Processor", to_string_ℤ d.max_threads_per_multi_processor)
    ∷ (codes "Is Multi GPU Board", yes_no d.is_multi_gpu_board)
    ∷ (codes "Can Map Host Memory", yes_no d.can_map_host_memory)
    ∷ []

unfoldable pub device_fields : List ℕ → ℕ → Device → Fields
unfolding property_pairs insert_pairs
device_fields ids i d = insert_pairs (id_pairs ids i ++ property_pairs d) []

-- The loop from `i` on: what goes into the log, and the fields of the devices. The two lists grow.
unfoldable pub gpu_loop :
    ℕ → Text → Option Text → List ℕ → ℕ → Text → Text → List Device → Text × List Fields
unfolding device_fields gpu_line
gpu_loop rank host visible ids i rt_ids bus_ids [] = ([], [])
gpu_loop rank host visible ids i rt_ids bus_ids (d ∷ devices) =
    let rt_ids' = append_item i rt_ids (to_string i) in
    let bus_ids' = append_item i bus_ids d.bus_id in
    let (log, fields) = gpu_loop rank host visible ids (i + 1) rt_ids' bus_ids' devices in
    (
      gpu_line rank host rt_ids' (gpu_id_list visible) bus_ids' ++ log,
      device_fields ids i d ∷ fields,
    )

-- `getgpu`: what goes into the log, and the node.
unfoldable pub get_gpu : ℕ → Option Text → List Device → ComputeNode → Result (Text × ComputeNode)
unfolding device_ids gpu_loop
get_gpu rank visible devices node = do
  ids ← device_ids visible
  let (log, fields) = gpu_loop rank node.name visible ids 0 [] [] devices
  node' ← add_gpu fields node
  ok (log, node')
