-- ===== src/Base/Int.antt =====
-- Signed integers over the native numbers, and the machine integers that the code converts to.
use Prim.Native.Nat.{ℕ, ◌+◌, ◌-◌, ◌%◌, ◌^◌, ◌<◌}
use mathlib.Core.Path.{◌≡◌}
use native.Mathlib.Omega.{arith}
use zerosum.Base.Tests.{ltb, if◌then◌else◌}

-- `negsuc n` is -(n + 1).
pub data ℤ : Type 0 where
  pos : ℕ → ℤ
  negsuc : ℕ → ℤ

abbrev pub neg : ℕ → ℤ
neg n = if ltb 0 n then negsuc (n - 1) else pos 0

abbrev pub u32_mod : ℕ
u32_mod = 2 ^ 32

abbrev pub u64_mod : ℕ
u64_mod = 2 ^ 64

-- The conversion of a signed value to `unsigned` or `uint32_t`.
unfoldable pub to_u32 : ℤ → ℕ
to_u32 (pos n) = n % 2 ^ 32
to_u32 (negsuc n) = 2 ^ 32 - 1 - n % 2 ^ 32

-- `++` on a `uint32_t`.
abbrev pub next_u32 : ℕ → ℕ
next_u32 n = (n + 1) % 2 ^ 32

-- The conversion of a signed value to `size_t` or `uint64_t`.
unfoldable pub to_u64 : ℤ → ℕ
to_u64 (pos n) = n % 2 ^ 64
to_u64 (negsuc n) = 2 ^ 64 - 1 - n % 2 ^ 64

-- The value of a bit pattern of 32 bits that is read as an `int`.
unfoldable pub of_u32 : ℕ → ℤ
of_u32 w = if ltb w (2 ^ 31) then pos w else negsuc (2 ^ 32 - 1 - w)

-- The conversion of a `long` to `int`.
unfoldable pub to_i32 : ℤ → ℤ
unfolding to_u32 of_u32
to_i32 z = of_u32 (to_u32 z)

pub to_u32_lt : (z : ℤ) → to_u32 z < 2 ^ 32
unfolding to_u32
to_u32_lt z = ground arith

pub to_i32_small : (n : ℕ) → n < 2 ^ 31 → to_i32 (pos n) ≡ pos n
unfolding to_i32
to_i32_small n h = ground arith

pub to_u32_small : (n : ℕ) → n < 2 ^ 32 → to_u32 (pos n) ≡ n
unfolding to_u32
to_u32_small n h = omega arith
