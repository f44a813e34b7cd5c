-- ===== src/Hardware/Hwt/Percent.antt =====
-- The percentages that `strPercentage` of src/hardware.h computes for a hardware thread.
use zerosum.Base.{ℕ, ◌+◌, ◌*◌, ◌/◌, ◌%◌, ◌^◌, ◌≤◌, ◌<◌, arith, inl, inr, Bool-cases, ltb}
use zerosum.Hardware.Hwt.{percentage}
use zerosum.Stats.{difference}
use zerosum.Text.{Text}

div_bounds : (x t : ℕ) → 0 < t → (x / t * t ≤ x) × (x < (x / t + 1) * t)
div_bounds x t h = (grind arith, grind arith)

div-le : (x t : ℕ) → 0 < t → x ≤ 100 * t → x / t ≤ 100
div-le x t h k = grind (arith, div_bounds x t h)

-- A counter that has grown no more than the total gets at most 100 percent, also where the product
-- by 100 wraps around.
percentage_at_most :
    (value prev total prev_total : Text)
    → difference value prev ≤ difference total prev_total
    → percentage value prev total prev_total ≤ 100
unfolding percentage
percentage_at_most value prev total prev_total h =
    let d = difference value prev in
    let t = difference total prev_total in
    elim (Bool-cases (ltb 0 t)) [
      | inl e ↦ rw (e, percentage) (div-le (d * 100 % 2 ^ 32) t (ground arith) (omega arith))
      | inr e ↦ rw (e, percentage) (omega arith)
    ]
