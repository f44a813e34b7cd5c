-- ===== src/Merge/Names.antt =====
-- The names of the logs that the merging program opens, and those that a run writes.
use zerosum.Base.{
  ℕ, ◌-◌, ◌≤◌, ◌<◌, ◌≡◌, ◌≢◌, refl, ap, false, ◌++◌, length, length-append, arith, drop, replicate,
  length-replicate, Bool-cases, inl, inr, ltb, ◌/◌, ◌∙◌, sym,
}
use zerosum.Merge.{log_of}
use zerosum.Text.{Text, codes, to_string, pad_left, to_string_small, to_string_step}
use zerosum.Utils.Filename.Sorted.{padded, length-padded, get_unique_filename-padded}
use zerosum.Utils.Filename.{Identity, log_filename}

two_digits : (n : ℕ) → n < 100 → length (to_string n) ≤ 2
two_digits n h = elim (Bool-cases (ltb n 10)) [
  | inl e ↦ rw (to_string_small n (ground arith)) (omega arith)
  | inr e ↦
      rw (to_string_step n (ground arith), to_string_small (n / 10) (omega arith)) (omega arith)
]

three_digits : (n : ℕ) → 100 ≤ n → n < 1000 → length (to_string n) ≡ 3
three_digits n h k =
    rw
      (
        to_string_step n (omega arith),
        to_string_step (n / 10) (omega arith),
        to_string_small (n / 10 / 10) (omega arith),
      )
      refl

-- A run of 101 to 1000 ranks with `ZS_USE_PID` off: the program opens the log that each rank writes.
log_filename-log_of :
    (r : Identity)
    → r.use_pid ≡ false
    → r.rank < r.size
    → 100 < r.size
    → r.size ≤ 1000
    → log_filename r ≡ log_of r.rank
unfolding log_filename log_of
log_filename-log_of r f h l k =
    ap (λ s. codes "zs." ++ (s ++ codes ".log"))
      (get_unique_filename-padded r f (omega arith) (omega arith)
        ∙ ap (λ n. pad_left n b'0' (to_string r.rank))
            (three_digits (r.size - 1) (omega arith) (omega arith)))

-- A run of at most 100 ranks with `ZS_USE_PID` off: no rank writes a log of a name that the program
-- opens, for whichever rank.
pub log_filename-ne-log_of :
    (r : Identity) (i : ℕ)
    → r.use_pid ≡ false
    → r.rank < r.size
    → r.size ≤ 100
    → log_filename r ≢ log_of i
unfolding log_filename log_of
log_filename-ne-log_of r i f h k e =
    let n = r.size - 1 in
    let s = pad_left 3 b'0' (to_string i) in
    let zeros : Text = replicate (3 - length (to_string i)) b'0' in
    let same : length (padded n r.rank ++ codes ".log") ≡ length (s ++ codes ".log") = ap length (
      ap (λ t. t ++ codes ".log") (sym (get_unique_filename-padded r f (omega arith) (omega arith)))
      ∙ ap (drop 3) e) in
    omega (
      arith,
      same,
      length-append (padded n r.rank) (codes ".log"),
      length-append s (codes ".log"),
      length-append zeros (to_string i),
      length-replicate {A = ℕ} (3 - length (to_string i)) b'0',
      length-padded n r.rank (omega arith),
      two_digits n (omega arith),
    )
