-- ===== src/Utils/Files.antt =====
-- What the parsers of src/utils.cpp use of files: `fgets`, the tokens of a regular expression that
-- is one byte, `strtoul` with base 0. The file system is a parameter.
pub mod Lines
pub mod Words
use zerosum.Base.{
  ℕ, zero, suc, ◌+◌, ◌-◌, ◌*◌, ◌%◌, ◌^◌, Bool, true, false, ◌&&◌, ◌||◌, List, [], ◌∷◌, ◌++◌, Option,
  none, some, ltb, leb, ◌==◌, if◌then◌else◌,
}
use zerosum.Text.{Text, split_at, is_digit, skip_space}

-- The content of a file; `none` where `fopen` fails.
abbrev pub FileSystem : Type 0
FileSystem = Text → Option Text

unless_empty : Text → List Text → List Text
unless_empty [] pieces = pieces
unless_empty (c ∷ s) pieces = (c ∷ s) ∷ pieces

-- The pieces that `fgets` returns: up to a newline, of at most `size` bytes. `left` bytes fit
-- behind `line`.
read_pieces : ℕ → ℕ → Text → Text → List Text
unfolding unless_empty
read_pieces size left line [] = unless_empty line []
read_pieces size left line (c ∷ s) = elim (c == b'\n' || leb left 1) [
  | true ↦ (line ++ c ∷ []) ∷ read_pieces size size [] s
  | false ↦ read_pieces size (left - 1) (line ++ c ∷ []) s
]

-- `while (fgets(line, size + 1, f))`
unfoldable pub fgets_pieces : ℕ → Text → List Text
unfolding read_pieces
fgets_pieces size content = read_pieces size size [] content

abbrev end_of_tokens : Text → Option Text
end_of_tokens [] = none
end_of_tokens (c ∷ s) = some (c ∷ s)

-- The token behind the first separator, where there is one: an empty rest is no token.
unfoldable pub second_token : ℕ → Text → Option Text
unfolding split_at
second_token c line = elim (split_at c line) [
  | none ↦ none
  | some (name, rest) ↦ elim (split_at c rest) [
    | none ↦ end_of_tokens rest
    | some (token, more) ↦ some token
  ]
]

-- The token in front of the first separator.
unfoldable pub first_token : ℕ → Text → Text
unfolding split_at
first_token c line = elim (split_at c line) [ none ↦ line | some (name, rest) ↦ name ]

digit_value : ℕ → ℕ
digit_value c =
    if is_digit c
    then c - b'0'
    else if leb b'a' c && leb c b'f'
    then c - b'a' + 10
    else if leb b'A' c && leb c b'F'
    then c - b'A' + 10
    else 16

scan_base : ℕ → Text → ℕ → ℕ
scan_base base [] acc = acc
scan_base base (c ∷ s) acc = elim (ltb (digit_value c) base) [
  | true ↦ scan_base base s (acc * base + digit_value c)
  | false ↦ acc
]

-- Behind a leading zero: hexadecimal behind an x and a digit, else octal.
behind_zero : Text → ℕ
behind_zero [] = 0
behind_zero (c ∷ []) = scan_base 8 (c ∷ []) 0
behind_zero (c ∷ (d ∷ s)) =
    if (c == b'x' || c == b'X') && ltb (digit_value d) 16
    then scan_base 16 (d ∷ s) 0
    else scan_base 8 (c ∷ (d ∷ s)) 0

magnitude : Text → ℕ
magnitude [] = 0
magnitude (c ∷ s) = if c == b'0' then behind_zero s else scan_base 10 (c ∷ s) 0

abbrev clamp_ulong : ℕ → ℕ
clamp_ulong n = if ltb n (2 ^ 64) then n else 2 ^ 64 - 1

-- A minus sign negates a value that fits, in the unsigned type.
abbrev negate_ulong : ℕ → ℕ
negate_ulong n = if ltb n (2 ^ 64) then (2 ^ 64 - n) % 2 ^ 64 else 2 ^ 64 - 1

with_sign : Text → ℕ
with_sign [] = 0
with_sign (c ∷ s) =
    if c == b'-'
    then negate_ulong (magnitude s)
    else if c == b'+'
    then clamp_ulong (magnitude s)
    else clamp_ulong (magnitude (c ∷ s))

-- `strtoul(s, nullptr, 0)`
unfoldable pub strtoul : Text → ℕ
unfolding with_sign magnitude behind_zero scan_base digit_value
strtoul s = with_sign (skip_space s)
