-- ===== src/Utils/CpuList/RoundTrip.antt =====
-- The list that the kernel writes, and the one that `toString` writes, are read back.
use zerosum.Base.{
  ℕ, zero, suc, ◌+◌, ◌-◌, ◌^◌, ◌<◌, ◌≤◌, ◌≡◌, ◌≢◌, refl, List, [], ◌∷◌, ◌++◌, append_assoc,
  append-nil, arith, length, length-append, All, All-append,
}
use zerosum.Base.Int.{pos, to_u32, to_u32_small}
use zerosum.Text.{
  Text, to_string, to_string-IsDigits, to_string-nonempty, split_at, split_at-Lacks, split_at-none,
  Lacks, Lacks-IsDigits, stoi-to_string, ok,
}
use zerosum.Utils.CpuList.{
  push_rounds, push_range, parse_token, parse_last, parse_loop, parse_discrete_values,
}

-- One item of the list format of the kernel: a number, or the first and the last of a range.
pub data Item : Type 0 where
  single : ℕ → Item
  range : ℕ → ℕ → Item

abbrev pub show_item : Item → Text
show_item (single n) = to_string n
show_item (range a b) = to_string a ++ b'-' ∷ to_string b

abbrev pub render : List Item → Text
render [] = []
render (i ∷ []) = show_item i
render (i ∷ (j ∷ is)) = show_item i ++ b',' ∷ render (j ∷ is)

-- `n` numbers from `i` on.
abbrev pub count_from : ℕ → ℕ → List ℕ
count_from zero i = []
count_from (suc n) i = i ∷ count_from n (i + 1)

abbrev pub expand : Item → List ℕ
expand (single n) = n ∷ []
expand (range a b) = count_from (b + 1 - a) a

abbrev pub expand_all : List Item → List ℕ
expand_all [] = []
expand_all (i ∷ is) = expand i ++ expand_all is

-- The numbers are `int`s, and the end of a range is not the largest one.
abbrev pub Fits : Item → Type 0
Fits (single n) = n < 2 ^ 31
Fits (range a b) = (a < 2 ^ 31) × (b < 2 ^ 31 - 1)

push_rounds-count_from : (n i : ℕ) → i + n ≤ 2 ^ 32 → push_rounds n (pos i) ≡ count_from n i
unfolding push_rounds to_u32
push_rounds-count_from zero i h = refl
push_rounds-count_from (suc n) i h = ground (arith, push_rounds-count_from n (i + 1))

push_range-count_from :
    (a b : ℕ)
    → a < 2 ^ 31
    → b < 2 ^ 31 - 1
    → push_range (pos a) (pos b) ≡ ok (count_from (b + 1 - a) a)
unfolding push_range
push_range-count_from a b h k =
    ground (arith, push_rounds-count_from (b - a + 1) a, push_rounds-count_from 0 a)

to_string-Lacks : (c n : ℕ) → c < 48 → Lacks c (to_string n)
to_string-Lacks c n h = Lacks-IsDigits c (to_string n) (ground arith) (to_string-IsDigits n)

parse_token-show_item : (i : Item) → Fits i → parse_token (show_item i) ≡ ok (expand i)
unfolding parse_token
parse_token-show_item (single n) h = ground (
  arith,
  split_at-none b'-' (to_string n) (to_string-Lacks b'-' n (omega arith)),
  stoi-to_string n h,
  to_u32_small n,
)
parse_token-show_item (range a b) h = ground (
  arith,
  split_at-Lacks b'-' (to_string a) (to_string b) (to_string-Lacks b'-' a (omega arith)),
  stoi-to_string a h.0,
  stoi-to_string b,
  push_range-count_from a b h.0 h.1,
)

show_item-Lacks : (i : Item) → Lacks b',' (show_item i)
show_item-Lacks (single n) = to_string-Lacks b',' n (omega arith)
show_item-Lacks (range a b) =
    All-append (λ x. x ≢ b',') (to_string a) (b'-' ∷ to_string b)
      (to_string-Lacks b',' a (omega arith)) (omega arith, to_string-Lacks b',' b (omega arith))

show_item_nonempty : (i : Item) → 0 < length (show_item i)
show_item_nonempty (single n) = to_string-nonempty n
show_item_nonempty (range a b) =
    omega (arith, length-append (to_string a) (b'-' ∷ to_string b), to_string-nonempty a)

parse_last-parse_token :
    (s : Text) (result : List ℕ) {values : List ℕ}
    → 0 < length s
    → parse_token s ≡ ok values
    → parse_last s result ≡ ok (result ++ values)
unfolding parse_last
parse_last-parse_token [] result h e = absurd (omega arith)
parse_last-parse_token (c ∷ s) result h e = ground arith

parse_loop-render :
    (is : List Item) (fuel : ℕ) (result : List ℕ)
    → All Fits is
    → length (render is) < fuel
    → parse_loop fuel (render is) result ≡ ok (result ++ expand_all is)
unfolding parse_loop
parse_loop-render is zero result f h = absurd (omega arith)
parse_loop-render [] (suc fuel) result f h = unfold parse_last split_at in rw append-nil
parse_loop-render (i ∷ []) (suc fuel) result f h = ground (
  arith,
  split_at-none b',' (show_item i) (show_item-Lacks i),
  parse_last-parse_token (show_item i) result (show_item_nonempty i) (parse_token-show_item i f.0),
  append-nil (expand i),
)
parse_loop-render (i ∷ (j ∷ is)) (suc fuel) result f h = ground (
  arith,
  split_at-Lacks b',' (show_item i) (render (j ∷ is)) (show_item-Lacks i),
  parse_token-show_item i f.0,
  parse_loop-render (j ∷ is) fuel (result ++ expand i) f.1
      (omega (arith, length-append (show_item i) (b',' ∷ render (j ∷ is)))),
  append_assoc result (expand i) (expand_all (j ∷ is)),
)

-- Every list in the format of the kernel, of numbers and of ranges, is read as the numbers it
-- stands for, in order, if the numbers are below 2 ^ 31 and the ends of ranges below 2 ^ 31 - 1.
pub parse_discrete_values-render :
    (is : List Item) → All Fits is → parse_discrete_values (render is) ≡ ok (expand_all is)
unfolding parse_discrete_values
parse_discrete_values-render is f = parse_loop-render is (length (render is) + 1) [] f (omega arith)
