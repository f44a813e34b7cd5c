-- ===== src/Utils/CpuList/Refused.antt =====
-- Texts that make `parseDiscreteValues` throw.
use zerosum.Base.{ℕ, ◌≡◌, Bool, true, not, ◌||◌, ◌∷◌, Option-cases, inl, inr, arith, ◌==◌}
use zerosum.Text.{Text, is_digit, is_space, split_at, stoi, invalid_argument, err}
use zerosum.Utils.CpuList.{parse_token, parse_last, parse_loop, parse_discrete_values}

-- A byte that can stand at the start of no number, and is no separator.
abbrev pub is_name_byte : ℕ → Bool
is_name_byte c = not (is_digit c || is_space c || c == b',' || c == b'-' || c == b'+')

stoi_refused : (c : ℕ) (s : Text) → is_name_byte c ≡ true → stoi (c ∷ s) ≡ err invalid_argument
unfolding stoi
stoi_refused c s h = ground arith

parse_token_refused :
    (c : ℕ) (s : Text) → is_name_byte c ≡ true → parse_token (c ∷ s) ≡ err invalid_argument
unfolding parse_token split_at
parse_token_refused c s h = elim (Option-cases (split_at b'-' s)) [
  | inl e ↦ ground (arith, stoi_refused c s)
  | inr ((a, b), e) ↦ ground (arith, stoi_refused c a)
]

-- A text whose first byte is a letter or the like, as in a list of device names, is not read:
-- `std::stoi` throws `std::invalid_argument`, which the function does not catch.
parse_discrete_values_refused :
    (c : ℕ) (s : Text)
    → is_name_byte c ≡ true
    → parse_discrete_values (c ∷ s) ≡ err invalid_argument
unfolding parse_discrete_values parse_loop parse_last split_at
parse_discrete_values_refused c s h = elim (Option-cases (split_at b',' s)) [
  | inl e ↦ ground (arith, parse_token_refused c s)
  | inr ((a, b), e) ↦ ground (arith, parse_token_refused c a)
]
