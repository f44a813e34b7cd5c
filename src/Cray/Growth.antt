-- ===== src/Cray/Growth.antt =====
-- What a counter reports over many readings, and what the readings leave open.
use zerosum.Base.{
  ℕ, ◌+◌, ◌%◌, ◌^◌, ◌<◌, ◌≡◌, refl, Bool, true, false, List, [], ◌∷◌, ◌++◌, some, arith, ltb,
  length, append-nil, ◌∙◌, if◌then◌else◌,
}
use zerosum.Cray.{
  Counter, CrayCounters, advance, extract, unitless_loop, get_unitless, read_counters, location,
  stored,
}
use zerosum.Text.{
  Text, codes, to_string, to_string-IsDigits, Lacks-IsDigits, ok, skip_space,
  leading_number-to_string, leading_number, IsDigits, to_string-nonempty,
}
use zerosum.Utils.Files.{FileSystem}
use zerosum.Utils.Files.Words.{getline_items_word}
use zerosum.Utils.Running.{Fields}

-- The sum of what is reported over readings in a row, and the last entry.
unfoldable pub advance_all : List ℕ → Counter → ℕ × Counter
advance_all [] counter = (0, counter)
advance_all (read ∷ reads) counter =
    let (current, after) = advance read counter in
    let (total, last) = advance_all reads after in (current + total, last)

abbrev pub last_read : List ℕ → ℕ → ℕ
last_read [] first = first
last_read (read ∷ reads) first = last_read reads read

abbrev pub all_words : List ℕ → Bool
all_words [] = true
all_words (read ∷ reads) = if ltb read (2 ^ 64) then all_words reads else false

-- Over any number of readings of 64 bits of a counter that is marked as monotonic, the first value and
-- all that is reported add up to the last reading, modulo 2 ^ 64, also where the counter wraps around.
pub advance_all_total :
    (reads : List ℕ) (counter : Counter)
    → counter.monotonic ≡ true
    → counter.value < 2 ^ 64
    → all_words reads ≡ true
    → (counter.value + (advance_all reads counter).0) % 2 ^ 64 ≡ last_read reads counter.value
unfolding advance_all advance
advance_all_total [] counter m v w = ground arith
advance_all_total (read ∷ reads) counter m v w =
    ground (arith, advance_all_total reads (record counter { value = read }))

extract-digits :
    (s : Text) (old : ℕ) → IsDigits s → 0 < length s → extract s old ≡ stored (leading_number s)
unfolding extract skip_space
extract-digits [] old d h = absurd (omega arith)
extract-digits (c ∷ s) old d h = ground (arith, d.0)

extract-to_string : (n old : ℕ) → n < 2 ^ 64 → extract (to_string n) old ≡ (n, true)
extract-to_string n old h =
    extract-digits (to_string n) old (to_string-IsDigits n) (to_string-nonempty n)
    ∙ rw (rw append-nil at (leading_number-to_string n [] tt)) (ground arith)

pub get_unitless_number :
    (fs : FileSystem) (name rest : Text) (n held : ℕ)
    → fs (location ++ name) ≡ some (to_string n ++ b'\n' ∷ rest)
    → n < 2 ^ 64
    → get_unitless fs name held ≡ ok (n, held + 1)
unfolding get_unitless unitless_loop
get_unitless_number fs name rest n held e h = ground (
  arith,
  e,
  getline_items_word b'\n' (to_string n) rest
      (Lacks-IsDigits b'\n' (to_string n) refl (to_string-IsDigits n)),
  extract-to_string n 0 h,
)

-- Where the files for the freshness and the generation start with a line that is a number of 64 bits,
-- every reading of the counters that returns leaves two more files open.
pub read_counters_open :
    (fs : FileSystem) (c c' : CrayCounters) (fields : Fields) (n m : ℕ) (rest rest' : Text)
    → c.supported ≡ true
    → fs (location ++ codes "freshness") ≡ some (to_string n ++ b'\n' ∷ rest)
    → fs (location ++ codes "generation") ≡ some (to_string m ++ b'\n' ∷ rest')
    → n < 2 ^ 64
    → m < 2 ^ 64
    → read_counters fs c ≡ ok (fields, c')
    → c'.open_files ≡ c.open_files + 2
unfolding read_counters
read_counters_open fs c c' fields n m rest rest' s f g h k e = ground (
  arith,
  s,
  get_unitless_number fs (codes "freshness") rest n c.open_files f h,
  get_unitless_number fs (codes "generation") rest' m (c.open_files + 1) g k,
  e,
)
