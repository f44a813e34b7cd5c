-- ===== src/Text/Decimal.antt =====
-- `std::to_string` of an unsigned number, and of a signed one.
use mathlib.Core.WellFounded
use native.Mathlib.Decide.{dec_lt}
use zerosum.Base.{
  ℕ, zero, suc, ◌+◌, ◌/◌, ◌%◌, ◌<◌, ◌≤◌, ◌≡◌, true, false, [], ◌∷◌, ◌++◌, arith, ltb, All,
  All-append, length, length-append, lt_wf,
}
use zerosum.Base.Int.{ℤ, pos, negsuc}
use zerosum.Text.Defs.{Text, is_digit}

digits : ℕ → ℕ → Text
digits zero n = []
digits (suc f) n = elim (ltb n 10) [
  | true ↦ (b'0' + n) ∷ []
  | false ↦ digits f (n / 10) ++ (b'0' + n % 10) ∷ []
]

-- `std::to_string`; a number has no more digits than its successor counts.
unfoldable pub to_string : ℕ → Text
unfolding digits
to_string n = digits (suc n) n

digits_fuel : (f g n : ℕ) → n < f → n < g → digits f n ≡ digits g n
unfolding digits
digits_fuel zero g n h k = absurd (omega arith)
digits_fuel (suc f) zero n h k = absurd (omega arith)
digits_fuel (suc f) (suc g) n h k = ground (arith, digits_fuel f g (n / 10))

pub to_string_small : (n : ℕ) → n < 10 → to_string n ≡ (b'0' + n) ∷ []
unfolding to_string
to_string_small n h = ground arith

pub to_string_step : (n : ℕ) → 10 ≤ n → to_string n ≡ to_string (n / 10) ++ (b'0' + n % 10) ∷ []
unfolding to_string
to_string_step n h = ground (arith, digits_fuel n (suc (n / 10)) (n / 10))

abbrev last_digit : ℕ → Text
last_digit n = (b'0' + n % 10) ∷ []

-- Induction along the decimal digits.
pub to_string_ind {ℓ} :
    (P : ℕ → Text → Type ℓ)
    → ((n : ℕ) → n < 10 → P n ((b'0' + n) ∷ []))
    → ((n : ℕ) (s : Text) → 10 ≤ n → P (n / 10) s → P n (s ++ (b'0' + n % 10) ∷ []))
    → (n : ℕ) → P n (to_string n)
to_string_ind P small step n = WellFounded.induction lt_wf {C = λ m. P m (to_string m)} n λ m ih.
    elim (le_or_lt m) [
      | yes h ↦ rw (to_string_small m h) (small m h)
      | no h ↦
          rw (to_string_step m (omega arith))
            (step m (to_string (m / 10)) (omega arith) (ih (m / 10) (omega arith)))
    ]
  where
    le_or_lt : (m : ℕ) → Dec (m < 10)
    le_or_lt m = dec_lt m 10

abbrev pub IsDigits : Text → Type 0
IsDigits s = All (λ c. is_digit c ≡ true) s

pub to_string-IsDigits : (n : ℕ) → IsDigits (to_string n)
to_string-IsDigits =
    to_string_ind (λ _ s. IsDigits s) (λ n h. (ground arith, tt))
      (λ n s h d. All-append (λ c. is_digit c ≡ true) s _ d (ground arith, tt))

pub to_string-nonempty : (n : ℕ) → 0 < length (to_string n)
to_string-nonempty =
    to_string_ind (λ _ s. 0 < length s) (λ n h. omega arith)
      (λ n s h d. omega (arith, length-append s (last_digit n)))

-- `std::to_string` of a signed number.
unfoldable pub to_string_ℤ : ℤ → Text
to_string_ℤ (pos n) = to_string n
to_string_ℤ (negsuc n) = b'-' ∷ to_string (suc n)
