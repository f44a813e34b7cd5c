-- ===== src/Backend/Rsmi.antt =====
-- src/rocmsmi.cpp: what the devices of AMD say in one period.
use zerosum.Base.{ℕ, List, [], ◌∷◌, map}
use zerosum.Backend.{Pairs, insert_pairs}
use zerosum.Floats.{Floats}
use zerosum.Hardware.Node.{ComputeNode, update_gpu}
use zerosum.Text.{codes, to_string, Result}

-- What the library answers for a device. The resolution of the counter is a `float`, by its bits.
pub record Status : Type 0 where
  pub energy : ℕ
  pub counter_resolution : ℕ
  pub total_vram : ℕ
  pub used_vram : ℕ
  pub total_visible_vram : ℕ
  pub used_visible_vram : ℕ
  pub total_gtt : ℕ
  pub used_gtt : ℕ
  pub memory_busy : ℕ
  pub device_busy : ℕ
  pub coarse_gfx : ℕ
  pub coarse_memory : ℕ
  pub current_gfxclk : ℕ
  pub current_socclk : ℕ
  pub average_gfx_activity : ℕ
  pub average_umc_activity : ℕ
  pub average_mm_activity : ℕ
  pub throttle_status : ℕ

module _ (fl : Floats) where
  -- `(double(value)*counter_resolution)*MICROWATTS`
  abbrev energy_of : Status → fl.Double
  energy_of s =
      fl.multiply (fl.multiply (fl.of_ℕ s.energy) (fl.of_bits s.counter_resolution))
        (fl.divide (fl.of_ℕ 1) (fl.of_ℕ 1000000))

  unfoldable pub status_pairs : Status → Pairs
  status_pairs s =
      (codes "Energy Average (J)", fl.print (energy_of s))
      ∷ (codes "Total VRAM Bytes", to_string s.total_vram)
      ∷ (codes "Used VRAM Bytes", to_string s.used_vram)
      ∷ (codes "Total Visible VRAM Bytes", to_string s.total_visible_vram)
      ∷ (codes "Used Visible VRAM Bytes", to_string s.used_visible_vram)
      ∷ (codes "Total GTT Bytes", to_string s.total_gtt)
      ∷ (codes "Used GTT Bytes", to_string s.used_gtt)
      ∷ (codes "Memory Busy %", to_string s.memory_busy)
      ∷ (codes "Device Busy %", to_string s.device_busy)
      ∷ (codes "GFX Activity %", to_string s.coarse_gfx)
      ∷ (codes "Memory Activity %", to_string s.coarse_memory)
      ∷ (codes "Clock Frequency, GLX (MHz)", to_string s.current_gfxclk)
      ∷ (codes "Clock Frequency, SOC (MHz)", to_string s.current_socclk)
      ∷ (codes "GFX Activity", to_string s.average_gfx_activity)
      ∷ (codes "Memory Controller Activity", to_string s.average_umc_activity)
      ∷ (codes "UVD|VCN Activity", to_string s.average_mm_activity)
      ∷ (codes "Throttle Status", to_string s.throttle_status)
      ∷ []

  unfoldable pub get_gpu_status : List ℕ → (ℕ → Status) → ℕ → ComputeNode → Result ComputeNode
  unfolding status_pairs insert_pairs
  get_gpu_status devices status step node =
      update_gpu (map (λ d. insert_pairs (status_pairs (status d)) []) devices) step node
