-- ===== src/Utils/Filename/Sorted.antt =====
-- Padded decimal names are in the order of the numbers.
use zerosum.Base.{
  ℕ, zero, suc, ◌+◌, ◌-◌, ◌*◌, ◌/◌, ◌%◌, ◌^◌, ◌≤◌, ◌<◌, ◌≡◌, refl, ap, sym, ◌∙◌, true, false, [],
  ◌∷◌, ◌++◌, Ordering, arith, length, length-append, replicate, length-replicate, All-append,
  append-nil, Bool-cases, inl, inr, ltb,
}
use zerosum.Text.{
  Text, is_digit, IsDigits, to_string, to_string_ind, to_string_small, to_string_step,
  to_string-IsDigits, scan_digits, scan_digits-to_string, compare_text, pad_left,
}
use zerosum.Utils.Filename.{Identity, last_rank, get_unique_filename}

-- A larger number has no fewer digits.
pub length-to_string_mono : (n m : ℕ) → m ≤ n → length (to_string m) ≤ length (to_string n)
length-to_string_mono =
    to_string_ind (λ n s. (m : ℕ) → m ≤ n → length (to_string m) ≤ length s)
      (λ n h m k. rw (to_string_small m (omega arith)) (omega arith))
      (λ n s h ih m k. elim (Bool-cases (ltb m 10)) [
        | inl e ↦
            rw (to_string_small m (ground arith))
              (omega (arith, length-append s ((b'0' + n % 10) ∷ [])))
        | inr e ↦ rw (to_string_step m (ground arith)) (
            omega (
              arith,
              length-append (to_string (m / 10)) ((b'0' + m % 10) ∷ []),
              length-append s ((b'0' + n % 10) ∷ []),
              ih (m / 10) (omega arith),
            ))
      ])

-- A smaller number in front stays smaller, whatever digits follow both.
scan_digits-lt :
    (s t : Text) (a b : ℕ)
    → IsDigits s
    → IsDigits t
    → length s ≡ length t
    → a < b
    → scan_digits s a < scan_digits t b
unfolding scan_digits
scan_digits-lt [] [] a b d e l h = h
scan_digits-lt [] (y ∷ t) a b d e l h = absurd (omega arith)
scan_digits-lt (x ∷ s) [] a b d e l h = absurd (omega arith)
scan_digits-lt (x ∷ s) (y ∷ t) a b d e l h = ground (
  arith,
  d.0,
  e.0,
  scan_digits-lt s t (a * 10 + (x - b'0')) (b * 10 + (y - b'0')) d.1 e.1 (omega arith),
)

compare_text-scan_digits :
    (s t : Text) (a : ℕ)
    → IsDigits s
    → IsDigits t
    → length s ≡ length t
    → scan_digits s a < scan_digits t a
    → compare_text s t ≡ Ordering.lt
unfolding scan_digits compare_text
compare_text-scan_digits [] [] a d e l h = absurd (omega arith)
compare_text-scan_digits [] (y ∷ t) a d e l h = absurd (omega arith)
compare_text-scan_digits (x ∷ s) [] a d e l h = absurd (omega arith)
compare_text-scan_digits (x ∷ s) (y ∷ t) a d e l h = ground (
  arith,
  d.0,
  e.0,
  scan_digits-lt t s (a * 10 + (y - b'0')) (a * 10 + (x - b'0')) e.1 d.1 (omega arith),
  compare_text-scan_digits s t (a * 10 + (x - b'0')) d.1 e.1 (omega arith),
)

scan_digits-zeros : (k : ℕ) (s : Text) → scan_digits (replicate k b'0' ++ s) 0 ≡ scan_digits s 0
unfolding scan_digits
scan_digits-zeros zero s = refl
scan_digits-zeros (suc k) s = scan_digits-zeros k s

zeros-IsDigits : (k : ℕ) → IsDigits (replicate k b'0')
zeros-IsDigits zero = tt
zeros-IsDigits (suc k) = (refl, zeros-IsDigits k)

module _ (n : ℕ) where
  abbrev pub padded : ℕ → Text
  padded m = pad_left (length (to_string n)) b'0' (to_string m)

  padded-IsDigits : (m : ℕ) → IsDigits (padded m)
  padded-IsDigits m =
      All-append (λ c. is_digit c ≡ true) _ (to_string m) (zeros-IsDigits _) (to_string-IsDigits m)

  pub length-padded : (m : ℕ) → m ≤ n → length (padded m) ≡ length (to_string n)
  length-padded m h = omega (
    arith,
    length-append (replicate (length (to_string n) - length (to_string m)) b'0') (to_string m),
    length-replicate {A = ℕ} (length (to_string n) - length (to_string m)) b'0',
    length-to_string_mono n m h,
  )

  scan_digits-padded : (m : ℕ) → scan_digits (padded m) 0 ≡ m
  scan_digits-padded m =
      scan_digits-zeros _ (to_string m)
      ∙ ap (λ s. scan_digits s 0) (sym (append-nil (to_string m)))
      ∙ scan_digits-to_string m []
      ∙ (unfold scan_digits in refl)

  padded_sorted : (l m : ℕ) → l < m → m ≤ n → compare_text (padded l) (padded m) ≡ Ordering.lt
  padded_sorted l m h k =
      compare_text-scan_digits (padded l) (padded m) 0 (padded-IsDigits l) (padded-IsDigits m)
        (length-padded l (omega arith) ∙ sym (length-padded m k))
        (rw (scan_digits-padded l, scan_digits-padded m) h)

pub get_unique_filename-padded :
    (r : Identity)
    → r.use_pid ≡ false
    → 0 < r.size
    → r.size ≤ 2 ^ 32
    → get_unique_filename r ≡ padded (r.size - 1) r.rank
unfolding get_unique_filename
get_unique_filename-padded r f h k =
    let e : last_rank r.size ≡ r.size - 1 = omega arith in
    ground (arith, f, ap (λ n. padded n r.rank) e)

-- With `ZS_USE_PID` off the log files of a run of up to 2 ^ 32 ranks sort by name as the ranks do: of
-- two ranks below the size of the run the smaller one has the smaller name, and both names have the
-- same length.
pub get_unique_filename_sorted :
    (p q : Identity)
    → p.use_pid ≡ false
    → q.use_pid ≡ false
    → q.size ≡ p.size
    → p.rank < q.rank
    → q.rank < p.size
    → p.size ≤ 2 ^ 32
    → (compare_text (get_unique_filename p) (get_unique_filename q) ≡ Ordering.lt)
      × (length (get_unique_filename p) ≡ length (get_unique_filename q))
get_unique_filename_sorted p q np nq same h k fits =
    let n = p.size - 1 in
    rw
      (
        get_unique_filename-padded p np (omega arith) fits,
        get_unique_filename-padded q nq (omega arith) (omega arith),
        ap (λ (m : ℕ). m - 1) same,
      )
      (
        padded_sorted n p.rank q.rank h (omega arith),
        length-padded n p.rank (omega arith) ∙ sym (length-padded n q.rank (omega arith)),
      )
