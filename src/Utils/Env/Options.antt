-- ===== src/Utils/Env/Options.antt =====
-- How the options of the environment are read.
use zerosum.Base.{ℕ, ◌^◌, ◌<◌, ◌≡◌, [], some, arith, append-nil}
use zerosum.Base.Int.{ℤ, pos, to_i32_small}
use zerosum.Text.{Text, to_string, atol-to_string}
use zerosum.Utils.Env.{Environment, parse_int}

-- A number below 2 ^ 31 that stands in the environment in decimal is the value of the option,
-- whatever the default is.
parse_int_decimal :
    (getenv : Environment) (name : Text) (default : ℤ) (n : ℕ)
    → n < 2 ^ 31
    → getenv name ≡ some (to_string n)
    → parse_int getenv name default ≡ pos n
unfolding parse_int
parse_int_decimal getenv name default n h e =
    ground (arith, e, rw append-nil at (atol-to_string n [] (omega arith) tt), to_i32_small n h)
