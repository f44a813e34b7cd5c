-- ===== src/Text/Number.antt =====
-- `strtol`, `atol`, `atoi` and `std::stoi`: optional white space, an optional sign, digits, and
-- whatever follows them is ignored.
use zerosum.Base.{
  ℕ, ◌+◌, ◌-◌, ◌*◌, ◌^◌, ◌<◌, ◌≡◌, refl, ◌⊎◌, inl, inr, Bool, true, false, [], ◌∷◌, ◌++◌, Option,
  none, some, arith, ltb, ◌==◌, if◌then◌else◌, append_assoc, append-nil, ◌∙◌, ◌%◌, length,
}
use zerosum.Base.Int.{ℤ, pos, negsuc, neg}
use zerosum.Text.Defs.{Text, is_digit, is_space}
use zerosum.Text.Decimal.{
  to_string, to_string_ind, IsDigits, to_string-IsDigits, to_string-nonempty,
}

-- The value of the leading digits, behind those that `acc` stands for.
unfoldable pub scan_digits : Text → ℕ → ℕ
scan_digits [] acc = acc
scan_digits (c ∷ s) acc = elim (is_digit c) [
  | true ↦ scan_digits s (acc * 10 + (c - b'0'))
  | false ↦ acc
]

unfoldable pub unsigned_number : Text → Option ℕ
unfolding scan_digits
unsigned_number [] = none
unsigned_number (c ∷ s) = if is_digit c then some (scan_digits (c ∷ s) 0) else none

unfoldable pub skip_space : Text → Text
skip_space [] = []
skip_space (c ∷ s) = if is_space c then skip_space s else c ∷ s

abbrev map_sign : (ℕ → ℤ) → Option ℕ → Option ℤ
map_sign f none = none
map_sign f (some n) = some (f n)

abbrev signed : Text → Option ℤ
signed [] = none
signed (c ∷ s) =
    if c == b'-'
    then map_sign neg (unsigned_number s)
    else if c == b'+'
    then map_sign pos (unsigned_number s)
    else map_sign pos (unsigned_number (c ∷ s))

-- The number that a text starts with, before it is clamped; `none` where there are no digits.
unfoldable pub leading_number : Text → Option ℤ
unfolding skip_space unsigned_number
leading_number s = signed (skip_space s)

-- `strtol` clamps to the range of `long`.
abbrev clamp_long : ℤ → ℤ
clamp_long (pos n) = if ltb n (2 ^ 63) then pos n else pos (2 ^ 63 - 1)
clamp_long (negsuc n) = if ltb n (2 ^ 63) then negsuc n else negsuc (2 ^ 63 - 1)

abbrev clamp_or_zero : Option ℤ → ℤ
clamp_or_zero none = pos 0
clamp_or_zero (some z) = clamp_long z

unfoldable pub atol : Text → ℤ
unfolding leading_number
atol s = clamp_or_zero (leading_number s)

-- What the standard library throws, what the language leaves undefined, and calls of `exit`.
pub data Error : Type 0 where
  invalid_argument out_of_range undefined out_of_fuel exited : Error

pub data Result {ℓ} (A : Type ℓ) : Type ℓ where
  ok : A → Result A
  err : Error → Result A

infixl 5 ◌>>=◌
abbrev pub ◌>>=◌ {ℓ κ} : {A : Type ℓ} {B : Type κ} → Result A → (A → Result B) → Result B
ok a >>= f = f a
err e >>= f = err e

pub Result-cases {ℓ} :
    {A : Type ℓ} (r : Result A) → ((a : A) × (r ≡ ok a)) ⊎ ((e : Error) × (r ≡ err e))
Result-cases (ok a) = inl (a, refl)
Result-cases (err e) = inr (e, refl)

-- What an equation between results says about the results.
pub ok_inj {ℓ} : {A : Type ℓ} {a b : A} → ok a ≡ ok b → a ≡ b
ok_inj e = ground (arith, e)

pub err_ok {ℓ} : {A : Type ℓ} {x : Error} {a : A} → ◌≡◌ {A = Result A} (err x) (ok a) → ⊥
err_ok e = ground (arith, e)

abbrev fits_int : ℤ → Bool
fits_int (pos n) = ltb n (2 ^ 31)
fits_int (negsuc n) = ltb n (2 ^ 31)

abbrev check_int : Option ℤ → Result ℤ
check_int none = err invalid_argument
check_int (some z) = if fits_int z then ok z else err out_of_range

unfoldable pub stoi : Text → Result ℤ
unfolding leading_number
stoi s = check_int (leading_number s)

abbrev fits_long : ℤ → Bool
fits_long (pos n) = ltb n (2 ^ 63)
fits_long (negsuc n) = ltb n (2 ^ 63)

abbrev check_long : Option ℤ → Result ℤ
check_long none = err invalid_argument
check_long (some z) = if fits_long z then ok z else err out_of_range

unfoldable pub stol : Text → Result ℤ
unfolding leading_number
stol s = check_long (leading_number s)

-- Reading the print of `n` is reading what follows it, with `n` already read.
pub scan_digits-to_string :
    (n : ℕ) (rest : Text) → scan_digits (to_string n ++ rest) 0 ≡ scan_digits rest n
scan_digits-to_string n =
    to_string_ind (λ m s. (rest : Text) → scan_digits (s ++ rest) 0 ≡ scan_digits rest m)
      (λ m h rest. unfold scan_digits in ground arith)
      (λ m s h ih rest.
        rw append_assoc (ih ((b'0' + m % 10) ∷ rest) ∙ (unfold scan_digits in ground arith)))
      n

-- A text that goes on with no digit.
abbrev pub EndsNumber : Text → Type 0
EndsNumber [] = Unit {0}
EndsNumber (c ∷ s) = is_digit c ≡ false

scan_digits-EndsNumber : (rest : Text) (n : ℕ) → EndsNumber rest → scan_digits rest n ≡ n
unfolding scan_digits
scan_digits-EndsNumber [] n h = refl
scan_digits-EndsNumber (c ∷ s) n h = ground arith

leading_number-digits :
    (s rest : Text)
    → IsDigits s
    → 0 < length s
    → leading_number (s ++ rest) ≡ some (pos (scan_digits (s ++ rest) 0))
unfolding leading_number
leading_number-digits [] rest d h = absurd (omega arith)
leading_number-digits (c ∷ s) rest d h = ground arith

pub leading_number-to_string :
    (n : ℕ) (rest : Text) → EndsNumber rest → leading_number (to_string n ++ rest) ≡ some (pos n)
leading_number-to_string n rest h =
    leading_number-digits (to_string n) rest (to_string-IsDigits n) (to_string-nonempty n)
    ∙ rw (scan_digits-to_string n rest, scan_digits-EndsNumber rest n h)

pub stoi-to_string : (n : ℕ) → n < 2 ^ 31 → stoi (to_string n) ≡ ok (pos n)
unfolding stoi
stoi-to_string n h = rw (rw append-nil at (leading_number-to_string n [] tt)) (ground arith)

pub stol-to_string : (n : ℕ) → n < 2 ^ 63 → stol (to_string n) ≡ ok (pos n)
unfolding stol
stol-to_string n h = rw (rw append-nil at (leading_number-to_string n [] tt)) (ground arith)

pub atol-to_string :
    (n : ℕ) (rest : Text) → n < 2 ^ 63 → EndsNumber rest → atol (to_string n ++ rest) ≡ pos n
unfolding atol
atol-to_string n rest h e = rw (leading_number-to_string n rest e) (ground arith)

pub stoi-throws :
    (s : Text) (x : Error) → stoi s ≡ err x → (x ≡ invalid_argument) ⊎ (x ≡ out_of_range)
unfolding stoi
stoi-throws s x h = ground arith
