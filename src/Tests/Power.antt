-- ===== src/Tests/Power.antt =====
-- The power counters of a Cray node.
use zerosum.Base.{ℕ, ◌+◌, ◌-◌, ◌%◌, ◌^◌, ◌≡◌, refl, true, List, [], ◌∷◌, ◌++◌, some, arith}
use zerosum.Cray.{Counter, CrayCounters, read_counters, read_loop}
use zerosum.Cray.Growth.{
  advance_all, last_read, advance_all_total, read_counters_open, get_unitless_number,
}
use zerosum.StdMap.{text_ord, insert}
use zerosum.Text.{codes, to_string, ok}
use zerosum.Utils.Files.{FileSystem}
use zerosum.Utils.Running.{Fields}

abbrev energy : Counter
energy = record { full_name = codes "cray_pm energy (J)"; value = 2 ^ 64 - 5; monotonic = true }

-- The counter wraps around at the second reading.
abbrev reads : List ℕ
reads = (2 ^ 64 - 1) ∷ 7 ∷ 30 ∷ []

advance_all_total_example :
    (energy.value + (advance_all reads energy).0) % 2 ^ 64 ≡ last_read reads energy.value
advance_all_total_example = advance_all_total reads energy refl (omega arith) refl

abbrev power_fs : FileSystem
power_fs name = some (to_string 17 ++ b'\n' ∷ [])

abbrev fresh : CrayCounters
fresh = record { supported = true; previous = []; generation = 3; freshness = 9; open_files = 4 }

abbrev later : CrayCounters
later = record { supported = true; previous = []; generation = 17; freshness = 17; open_files = 6 }

abbrev reported : Fields
reported =
    insert (codes "cray_pm power cap changed") (codes "1")
      (insert (codes "cray_pm valid") (codes "1") [])

reading : read_counters power_fs fresh ≡ ok (reported, later)
unfolding read_counters read_loop
reading = ground (
  arith,
  get_unitless_number power_fs (codes "freshness") [] 17 4 refl (omega arith),
  get_unitless_number power_fs (codes "generation") [] 17 5 refl (omega arith),
)

read_counters_open_example : later.open_files ≡ fresh.open_files + 2
read_counters_open_example =
    read_counters_open power_fs fresh later reported 17 17 [] [] refl refl refl (omega arith)
      (omega arith) reading
