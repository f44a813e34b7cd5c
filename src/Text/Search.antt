-- ===== src/Text/Search.antt =====
-- `strncmp(s, p, strlen(p)) == 0`, `find(p)`, `remove_if(isspace)` and words read by `>>`.
use zerosum.Base.{
  ℕ, suc, ◌+◌, Bool, true, false, ◌&&◌, [], ◌∷◌, ◌++◌, Option, none, some, ◌==◌, leb, take, drop,
  if◌then◌else◌,
}
use zerosum.Text.Defs.{Text, is_space}

unfoldable pub starts_with : Text → Text → Bool
starts_with [] s = true
starts_with (p ∷ ps) [] = false
starts_with (p ∷ ps) (c ∷ s) = p == c && starts_with ps s

-- `find(p) != npos`
unfoldable pub contains : Text → Text → Bool
unfolding starts_with
contains p [] = starts_with p []
contains p (c ∷ s) = elim (starts_with p (c ∷ s)) [ true ↦ true | false ↦ contains p s ]

unfoldable pub remove_spaces : Text → Text
remove_spaces [] = []
remove_spaces (c ∷ s) = if is_space c then remove_spaces s else c ∷ remove_spaces s

-- `tolower` in the C locale.
unfoldable pub to_lower : ℕ → ℕ
to_lower c = if leb b'A' c && leb c b'Z' then c + 32 else c

abbrev shift : Option ℕ → Option ℕ
shift none = none
shift (some i) = some (suc i)

-- `find(p)`; `none` is `npos`.
unfoldable pub find_text : Text → Text → Option ℕ
unfolding starts_with
find_text p [] = if starts_with p [] then some 0 else none
find_text p (c ∷ s) = elim (starts_with p (c ∷ s)) [ true ↦ some 0 | false ↦ shift (find_text p s) ]

-- `erase(i, n)`
abbrev pub erase_text : ℕ → ℕ → Text → Text
erase_text i n s = take i s ++ drop (i + n) s
