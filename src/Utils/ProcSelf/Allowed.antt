-- ===== src/Utils/ProcSelf/Allowed.antt =====
-- From the status file of a process to the hardware threads that it may run on.
use zerosum.Base.{
  ◌≡◌, ◌≢◌, refl, ap, ◌∙◌, false, List, [], ◌∷◌, ◌++◌, none, some, arith, All, All-append,
}
use zerosum.Text.{
  Text, starts_with, remove_spaces, ok, to_string, to_string-IsDigits, IsDigits, split_at, is_space,
}
use zerosum.Utils.CpuList.RoundTrip.{
  Item, single, range, show_item, render, expand_all, Fits, parse_discrete_values-render,
}
use zerosum.Utils.CpuList.{parse_discrete_values}
use zerosum.Utils.Files.{FileSystem, second_token}
use zerosum.Utils.Files.Lines.{file_of, with_newlines, IsLine, fgets_pieces-file_of}
use zerosum.Utils.ProcSelf.{cpus_key, value_or, cpus_loop, get_cpus_allowed}

-- Neither white space nor a colon.
abbrev IsPlain : Text → Type 0
IsPlain = All (λ c. (is_space c ≡ false) × (c ≢ b':'))

IsDigits-IsPlain : (s : Text) → IsDigits s → IsPlain s
IsDigits-IsPlain [] d = tt
IsDigits-IsPlain (c ∷ s) d = ((ground (arith, d.0), ground (arith, d.0)), IsDigits-IsPlain s d.1)

IsPlain-append : (s t : Text) → IsPlain s → IsPlain t → IsPlain (s ++ t)
IsPlain-append = All-append (λ c. (is_space c ≡ false) × (c ≢ b':'))

show_item-IsPlain : (i : Item) → IsPlain (show_item i)
show_item-IsPlain (single n) = IsDigits-IsPlain _ (to_string-IsDigits n)
show_item-IsPlain (range a b) =
    IsPlain-append (to_string a) (b'-' ∷ to_string b) (IsDigits-IsPlain _ (to_string-IsDigits a))
      ((refl, omega arith), IsDigits-IsPlain _ (to_string-IsDigits b))

render-IsPlain : (is : List Item) → IsPlain (render is)
render-IsPlain [] = tt
render-IsPlain (i ∷ []) = show_item-IsPlain i
render-IsPlain (i ∷ (j ∷ is)) =
    IsPlain-append (show_item i) (b',' ∷ render (j ∷ is)) (show_item-IsPlain i)
      ((refl, omega arith), render-IsPlain (j ∷ is))

remove_spaces-IsPlain : (s : Text) → IsPlain s → remove_spaces (s ++ b'\n' ∷ []) ≡ s
unfolding remove_spaces
remove_spaces-IsPlain [] h = refl
remove_spaces-IsPlain (c ∷ s) h = ground (arith, remove_spaces-IsPlain s h.1)

split_at-IsPlain : (s : Text) → IsPlain s → split_at b':' (s ++ b'\n' ∷ []) ≡ none
unfolding split_at
split_at-IsPlain [] h = refl
split_at-IsPlain (c ∷ s) h = ground (arith, split_at-IsPlain s h.1)

-- The line of the status file, as proc(5) has it.
abbrev pub cpus_line : List Item → Text
cpus_line is = cpus_key ++ b':' ∷ b'\t' ∷ render is

value_or-cpus_line :
    (is : List Item) (old : Text) → value_or old (cpus_line is ++ b'\n' ∷ []) ≡ render is
unfolding second_token split_at remove_spaces
value_or-cpus_line is old = ground (
  arith,
  split_at-IsPlain (render is) (render-IsPlain is),
  remove_spaces-IsPlain (render is) (render-IsPlain is),
)

-- A line that does not hold the list.
abbrev pub IsOther : Text → Type 0
IsOther l = starts_with cpus_key (l ++ b'\n' ∷ []) ≡ false

cpus_loop-IsOther :
    (ls : List Text) (old : Text) → All IsOther ls → cpus_loop (with_newlines ls) old ≡ old
unfolding cpus_loop
cpus_loop-IsOther [] old h = refl
cpus_loop-IsOther (l ∷ ls) old h = ground (arith, h.0, cpus_loop-IsOther ls old h.1)

cpus_loop-cpus_line :
    (pre post : List Text) (is : List Item) (old : Text)
    → All IsOther pre
    → All IsOther post
    → cpus_loop (with_newlines (pre ++ cpus_line is ∷ post)) old ≡ render is
unfolding cpus_loop starts_with
cpus_loop-cpus_line [] post is old h k =
    ap (cpus_loop (with_newlines post)) (value_or-cpus_line is old)
    ∙ cpus_loop-IsOther post (render is) k
cpus_loop-cpus_line (l ∷ pre) post is old h k =
    ground (arith, h.0, cpus_loop-cpus_line pre post is old h.1 k)

-- Reading the allowed hardware threads of a process: if its status file is made of lines that fit
-- the buffer, just one of them is the line of the list, the others are not read as such a line, and
-- the numbers of the list fit an `int` (ends of ranges: are below the largest), then
-- `getCpusAllowed` followed by `parseDiscreteValues` gives the numbers that the list stands for.
pub parse-get_cpus_allowed :
    (fs : FileSystem) (filename : Text) (pre post : List Text) (is : List Item)
    → fs filename ≡ some (file_of (pre ++ cpus_line is ∷ post))
    → All (IsLine 4095) (pre ++ cpus_line is ∷ post)
    → All IsOther pre
    → All IsOther post
    → All Fits is
    → parse_discrete_values (get_cpus_allowed fs filename) ≡ ok (expand_all is)
unfolding get_cpus_allowed
parse-get_cpus_allowed fs filename pre post is e fit h k f =
    rw (e, get_cpus_allowed)
      (rw (fgets_pieces-file_of 4095 (pre ++ cpus_line is ∷ post) fit)
        (rw (cpus_loop-cpus_line pre post is [] h k) (parse_discrete_values-render is f)))
