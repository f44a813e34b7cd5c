-- ===== src/Utils/Env.antt =====
-- src/utils.cpp, `parseInt`, `parseString`, `parseBool`, `getVerbose` and `getHeartBeat`. The
-- environment is a parameter; the program reads it once and keeps the results in statics.
pub mod Options
use zerosum.Base.{
  ℕ, Bool, true, false, ◌||◌, List, [], ◌∷◌, map, Option, none, some, take, if◌then◌else◌,
}
use zerosum.Base.Int.{ℤ, pos, negsuc, to_i32}
use zerosum.Text.{Text, codes, same_text, to_lower, atol}

-- `getenv`
abbrev pub Environment : Type 0
Environment = Text → Option Text

-- A negative number is not accepted.
abbrev non_negative : ℤ → ℤ → ℤ
non_negative default (pos n) = pos n
non_negative default (negsuc n) = default

unfoldable pub parse_int : Environment → Text → ℤ → ℤ
parse_int getenv name default = elim (getenv name) [
  | none ↦ default
  | some str ↦ non_negative default (to_i32 (atol str))
]

unfoldable pub parse_string : Environment → Text → Text → Text
parse_string getenv name default = elim (getenv name) [ none ↦ default | some str ↦ str ]

-- The buffer of 128 bytes, in lower case.
abbrev lowered : Text → Text
lowered str = map to_lower (take 127 str)

abbrev is_yes : Text → Bool
is_yes s =
    same_text s (codes "yes")
    || same_text s (codes "true")
    || same_text s (codes "on")
    || same_text s (codes "1")

unfoldable pub parse_bool : Environment → Text → Bool → Bool
parse_bool getenv name default = elim (getenv name) [
  | none ↦ default
  | some str ↦ is_yes (lowered str)
]

unfoldable pub get_verbose : Environment → Bool
unfolding parse_bool
get_verbose getenv = parse_bool getenv (codes "ZS_VERBOSE") false

unfoldable pub get_heart_beat : Environment → Bool
unfolding parse_bool
get_heart_beat getenv = parse_bool getenv (codes "ZS_HEART_BEAT") false
