-- ===== src/Merge.antt =====
-- src/post-processing/mpi_p2p_merge.cpp: the program that reads the traffic of all ranks from their
-- logs and writes it as four matrices.
pub mod Cells
pub mod Lines
pub mod Sections
pub mod Rows
pub mod Names
use zerosum.Base.{
  ℕ, zero, suc, ◌+◌, ◌-◌, Bool, true, false, List, [], ◌∷◌, ◌++◌, Option, none, some, length,
  get_elem?, get_or, replicate, ltb, if◌then◌else◌,
}
use zerosum.Base.Int.{ℤ, pos, negsuc, to_i32, to_u32, to_u64}
use zerosum.Text.{
  Text, codes, contains, words, getline_items, stol, atol, to_string, pad_left, Result, ok, err,
  ◌>>=◌, undefined,
}
use zerosum.Utils.Files.{FileSystem}

abbrev pub Matrix : Type 0
Matrix = List (List ℕ)

unfoldable pub set_at {ℓ} : {A : Type ℓ} → ℕ → A → List A → List A
set_at i a [] = []
set_at zero a (x ∷ xs) = a ∷ xs
set_at (suc i) a (x ∷ xs) = x ∷ set_at i a xs

-- `data[row][index] = value`, where a negative index is a large `size_t`.
unfoldable pub store : ℕ → ℤ → ℕ → Matrix → Result Matrix
unfolding set_at
store row (negsuc n) value m = err undefined
store row (pos index) value m = elim (get_elem? m row) [
  | none ↦ err undefined
  | some cells ↦
      if ltb index (length cells)
      then ok (set_at row (set_at index value cells) m)
      else err undefined
]

pub record Merged : Type 0 where
  pub sent_count : Matrix
  pub sent_bytes : Matrix
  pub recv_count : Matrix
  pub recv_bytes : Matrix

-- The word that `iss >> …` reads at a place; a variable that nothing is read for stays empty.
abbrev pub word_at : List Text → ℕ → Text
word_at ws i = get_or ws i []

-- The two assignments of a line, of which the right sides come first.
unfoldable pub merge_words : ℕ → List Text → Matrix → Matrix → Result (Matrix × Matrix)
unfolding store
merge_words row ws count bytes = do
  calls ← stol (word_at ws 7)
  rank ← stol (word_at ws 5)
  count' ← store row rank (to_u64 calls) count
  size ← stol (word_at ws 1)
  rank' ← stol (word_at ws 5)
  bytes' ← store row rank' (to_u64 size) bytes
  ok (count', bytes')

merge_sent : ℕ → Text → Merged → Result Merged
unfolding merge_words words
merge_sent row line s =
    if contains (codes "Sent ") line
    then (do
      (count, bytes) ← merge_words row (words line) s.sent_count s.sent_bytes
      ok (record s { sent_count = count; sent_bytes = bytes }))
    else ok s

merge_received : ℕ → Text → Merged → Result Merged
unfolding merge_words words
merge_received row line s =
    if contains (codes "Received ") line
    then (do
      (count, bytes) ← merge_words row (words line) s.recv_count s.recv_bytes
      ok (record s { recv_count = count; recv_bytes = bytes }))
    else ok s

unfoldable pub merge_line : ℕ → Text → Merged → Result Merged
unfolding merge_sent merge_received
merge_line row line s = do s' ← merge_sent row line s; merge_received row line s'

unfoldable pub merge_lines : ℕ → List Text → Merged → Result Merged
unfolding merge_line
merge_lines row [] s = ok s
merge_lines row (line ∷ lines) s = do s' ← merge_line row line s; merge_lines row lines s'

-- The name of the log that is opened for a rank.
unfoldable pub log_of : ℕ → Text
log_of i = codes "zs." ++ (pad_left 3 b'0' (to_string i) ++ codes ".log")

-- A log that cannot be opened is left out.
merge_log : FileSystem → ℕ → Merged → Result Merged
unfolding merge_lines log_of
merge_log fs i s = elim (fs (log_of i)) [
  | none ↦ ok s
  | some content ↦ merge_lines i (getline_items b'\n' content) s
]

-- The loop over the ranks from `i` on, with the rounds that are left.
merge_logs : FileSystem → ℕ → ℕ → Merged → Result Merged
unfolding merge_log
merge_logs fs zero i s = ok s
merge_logs fs (suc rounds) i s = do s' ← merge_log fs i s; merge_logs fs rounds (i + 1) s'

-- The numbers of a row with commas between them.
row_text : List ℕ → Text
row_text [] = []
row_text (n ∷ []) = to_string n
row_text (n ∷ (k ∷ ns)) = to_string n ++ b',' ∷ row_text (k ∷ ns)

unfoldable pub write_vector : Matrix → Text
unfolding row_text
write_vector [] = []
write_vector (cells ∷ rows) = row_text cells ++ b'\n' ∷ write_vector rows

abbrev pub zeros : ℕ → Matrix
zeros nranks = replicate nranks (replicate nranks 0)

-- What `main` has before it writes. Without an argument the usage is printed, and `atoi` gets the
-- null pointer behind the arguments.
unfoldable pub merge : FileSystem → Option Text → Result Merged
unfolding merge_logs
merge fs none = err undefined
merge fs (some argument) =
    let nranks = to_u32 (to_i32 (atol argument)) in
    merge_logs fs nranks 0 (record {
      sent_count = zeros nranks;
      sent_bytes = zeros nranks;
      recv_count = zeros nranks;
      recv_bytes = zeros nranks;
    })
