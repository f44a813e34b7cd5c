-- ===== src/Backend/Labels.antt =====
-- What the properties of a device of src/zerosum_cuda.cpp and src/zerosum_hip.cpp are called.
use zerosum.Base.{ℕ, ◌≡◌, [], List, ◌++◌, some}
use zerosum.Backend.{triple_text, id_pairs}
use zerosum.Backend.Cuda
use zerosum.Backend.Hip
use zerosum.Backend.Pairs.{find-insert_pairs}
use zerosum.StdMap.{text_ord, find}
use zerosum.Text.{codes, compare_text}

-- With CUDA and with HIP alike, the entry "Max Grid Size" of every device has the three largest sizes
-- of a block, and "Max Threads Dim" those of a grid.
pub device_fields_sizes :
    (ids : List ℕ) (i : ℕ) (c : Cuda.Device) (h : Hip.Device)
    → (find (codes "Max Grid Size") (Cuda.device_fields ids i c)
        ≡ some (triple_text c.max_threads_dim))
      × (find (codes "Max Threads Dim") (Cuda.device_fields ids i c)
          ≡ some (triple_text c.max_grid_size))
      × (find (codes "Max Grid Size") (Hip.device_fields ids i h)
          ≡ some (triple_text h.max_threads_dim))
      × (find (codes "Max Threads Dim") (Hip.device_fields ids i h)
          ≡ some (triple_text h.max_grid_size))
unfolding Cuda.device_fields Hip.device_fields find compare_text
device_fields_sizes ids i c h = (
  find-insert_pairs (codes "Max Grid Size") (id_pairs ids i ++ Cuda.property_pairs c) [],
  find-insert_pairs (codes "Max Threads Dim") (id_pairs ids i ++ Cuda.property_pairs c) [],
  find-insert_pairs (codes "Max Grid Size") (id_pairs ids i ++ Hip.property_pairs h) [],
  find-insert_pairs (codes "Max Threads Dim") (id_pairs ids i ++ Hip.property_pairs h) [],
)
