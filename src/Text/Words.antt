-- ===== src/Text/Words.antt =====
-- `in >> word` for a text until it fails: the words between white space.
use zerosum.Base.{
  ℕ, ◌<◌, ◌≡◌, Bool, not, ◌&&◌, ltb, false, true, List, [], ◌∷◌, ◌++◌, arith, All, length,
  if◌then◌else◌,
}
use zerosum.Text.Defs.{Text, is_space}
use zerosum.Text.Decimal.{IsDigits, to_string, to_string-IsDigits, to_string-nonempty}
use zerosum.Text.Split.{add_to_first}

-- The words behind the first byte of a word.
begin_word : Text → List Text → List Text
begin_word [] ws = ws
begin_word (d ∷ s) ws = if is_space d then [] ∷ ws else ws

unfoldable pub words : Text → List Text
unfolding begin_word add_to_first
words [] = []
words (c ∷ s) = if is_space c then words s else add_to_first c (begin_word s (words s))

abbrev pub IsWord : Text → Type 0
IsWord w = All (λ c. is_space c ≡ false) w × (0 < length w)

abbrev all_visible : Text → Bool
all_visible [] = true
all_visible (c ∷ s) = not (is_space c) && all_visible s

all_visible-All : (s : Text) → all_visible s ≡ true → All (λ c. is_space c ≡ false) s
all_visible-All [] h = tt
all_visible-All (c ∷ s) h = (ground arith, all_visible-All s (ground arith))

-- A text that is written out is a word if a test says so.
abbrev pub is_word : Text → Bool
is_word s = all_visible s && ltb 0 (length s)

pub is_word-IsWord : (s : Text) → is_word s ≡ true → IsWord s
is_word-IsWord s h = (all_visible-All s (ground arith), ground arith)

pub words-space : (w rest : Text) → IsWord w → words (w ++ b' ' ∷ rest) ≡ w ∷ words rest
unfolding words add_to_first begin_word
words-space [] rest h = absurd (omega (arith, h.1))
words-space (c ∷ []) rest h = ground (arith, h.0.0)
words-space (c ∷ (d ∷ w)) rest h =
    ground (arith, h.0.0, h.0.1.0, words-space (d ∷ w) rest (h.0.1, omega arith))

pub words-last : (w : Text) → IsWord w → words w ≡ w ∷ []
unfolding words add_to_first begin_word
words-last [] h = absurd (omega (arith, h.1))
words-last (c ∷ []) h = ground (arith, h.0.0)
words-last (c ∷ (d ∷ w)) h = ground (arith, h.0.0, h.0.1.0, words-last (d ∷ w) (h.0.1, omega arith))

IsDigits-no_space : (s : Text) → IsDigits s → All (λ c. is_space c ≡ false) s
IsDigits-no_space [] d = tt
IsDigits-no_space (c ∷ s) d = (ground (arith, d.0), IsDigits-no_space s d.1)

pub to_string-IsWord : (n : ℕ) → IsWord (to_string n)
to_string-IsWord n = (IsDigits-no_space (to_string n) (to_string-IsDigits n), to_string-nonempty n)
