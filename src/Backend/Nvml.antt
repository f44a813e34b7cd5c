-- ===== src/Backend/Nvml.antt =====
-- src/nvml.cpp: what the devices of NVIDIA say in one period.
use zerosum.Base.{ℕ, ◌^◌, List, [], ◌∷◌, map}
use zerosum.Base.Int.{ℤ}
use zerosum.Backend.{Pairs, insert_pairs}
use zerosum.Floats.{Floats}
use zerosum.Hardware.Node.{ComputeNode, update_gpu}
use zerosum.Text.{Text, codes, to_string, Result}
use zerosum.Utils.Running.{Fields}

module _ (fl : Floats) where
  -- `nvmlFieldValue_t`, by its `valueType`.
  pub data FieldValue : Type 0 where
    of_double : fl.Double → FieldValue
    of_unsigned of_unsigned_long of_unsigned_long_long : ℕ → FieldValue
    of_signed_long_long : ℤ → FieldValue
    of_other : FieldValue

  unfoldable pub convert_value : FieldValue → fl.Double
  convert_value (of_double x) = x
  convert_value (of_unsigned n) = fl.of_ℕ n
  convert_value (of_unsigned_long n) = fl.of_ℕ n
  convert_value (of_unsigned_long_long n) = fl.of_ℕ n
  convert_value (of_signed_long_long n) = fl.of_ℤ n
  convert_value of_other = fl.of_ℕ 0

  -- What the library answers for a device.
  pub record Status : Type 0 where
    pub utilization_gpu : ℕ
    pub utilization_memory : ℕ
    pub memory_total : ℕ
    pub memory_free : ℕ
    pub memory_used : ℕ
    pub clock_sm : ℕ
    pub clock_mem : ℕ
    pub pcie_tx : ℕ
    pub pcie_rx : ℕ
    pub power : ℕ
    pub temperature : ℕ
    pub link_speed : FieldValue
    pub link_count : FieldValue
    pub bandwidth_c0 : FieldValue
    pub bandwidth_c1 : FieldValue
    pub data_tx : FieldValue
    pub data_rx : FieldValue
    pub raw_tx : FieldValue
    pub raw_rx : FieldValue

  -- `std::to_string(x * 1.0/d)`, which is `(x * 1.0)/d`.
  abbrev pub over : fl.Double → ℕ → Text
  over x d = fl.print (fl.divide (fl.multiply x (fl.of_ℕ 1)) (fl.of_ℕ d))

  -- The factor 1.0e-3 is the `double` that is next to 1/1000.
  abbrev pub thousandth : fl.Double
  thousandth = fl.divide (fl.of_ℕ 1) (fl.of_ℕ 1000)

  unfoldable pub status_pairs : Status → Pairs
  unfolding convert_value
  status_pairs s =
      (codes "Utilization %", to_string s.utilization_gpu)
      ∷ (codes "Memory Utilization %", to_string s.utilization_memory)
      ∷ (codes "Memory Total (GB)", over (fl.of_ℕ s.memory_total) (2 ^ 30))
      ∷ (codes "Memory Free (GB)", over (fl.of_ℕ s.memory_free) (2 ^ 30))
      ∷ (codes "Memory Used (GB)", over (fl.of_ℕ s.memory_used) (2 ^ 30))
      ∷ (codes "Clock SM (MHz)", to_string s.clock_sm)
      ∷ (codes "Clock Memory (MHz)", to_string s.clock_mem)
      ∷ (codes "PCIe TX Throughput (MB/s)", over (fl.of_ℕ s.pcie_tx) 1024)
      ∷ (codes "PCIe RX Throughput (MB/s)", over (fl.of_ℕ s.pcie_rx) 1024)
      ∷ (codes "Power (W)", fl.print (fl.multiply (fl.of_ℕ s.power) thousandth))
      ∷ (codes "Temperature (C)", to_string s.temperature)
      ∷ (codes "NvLink Speed (GB/s)", over (convert_value s.link_speed) 1024)
      ∷ (codes "NvLink Link Count", fl.print (convert_value s.link_count))
      ∷ (codes "NvLink Bandwidth C0 Total", fl.print (convert_value s.bandwidth_c0))
      ∷ (codes "NvLink Bandwidth C1 Total", fl.print (convert_value s.bandwidth_c1))
      ∷ (codes "NvLink Throughput Data TX", fl.print (convert_value s.data_tx))
      ∷ (codes "NvLink Throughput Data RX", fl.print (convert_value s.data_rx))
      ∷ (codes "NvLink Throughput Raw TX", fl.print (convert_value s.raw_tx))
      ∷ (codes "NvLink Throughput Raw RX", fl.print (convert_value s.raw_rx))
      ∷ []

  abbrev pub status_fields : Status → Fields
  status_fields s = insert_pairs (status_pairs s) []

  unfoldable pub get_gpu_status : List ℕ → (ℕ → Status) → ℕ → ComputeNode → Result ComputeNode
  unfolding status_pairs insert_pairs
  get_gpu_status devices status step node =
      update_gpu (map (λ d. status_fields (status d)) devices) step node
