-- ===== src/Text/Defs.antt =====
-- Bytes, literals, and the order of `std::string`.
use Prim.Native.Char.{code}
use Prim.Native.String.{String}
use zerosum.Base.{
  ℕ, ◌≡◌, refl, Bool, true, false, ◌&&◌, ◌||◌, List, [], ◌∷◌, ◌++◌, compare, Ordering, arith, leb,
  ◌==◌, ◌↔◌, length, ◌-◌, replicate,
}

abbrev pub Text : Type 0
Text = List ℕ

-- The code points of a literal; these are its bytes, since every literal here is ASCII.
abbrev pub codes : String → Text
codes String.[] = []
codes (String.◌∷◌ c s) = code c ∷ codes s

-- `isdigit`
abbrev pub is_digit : ℕ → Bool
is_digit c = leb b'0' c && leb c b'9'

-- `isspace` in the C locale: tab, newline, vertical tab, form feed, carriage return and space.
abbrev pub is_space : ℕ → Bool
is_space c = c == 32 || (leb 9 c && leb c 13)

-- `std::string::compare`: lexicographic, on unsigned bytes.
unfoldable pub compare_text : Text → Text → Ordering
compare_text [] [] = Ordering.eq
compare_text [] (y ∷ ys) = Ordering.lt
compare_text (x ∷ xs) [] = Ordering.gt
compare_text (x ∷ xs) (y ∷ ys) = elim (compare x y) [
  | Ordering.lt ↦ Ordering.lt
  | Ordering.eq ↦ compare_text xs ys
  | Ordering.gt ↦ Ordering.gt
]

abbrev pub same_text : Text → Text → Bool
same_text a b = elim (compare_text a b) [ Ordering.eq ↦ true | _ ↦ false ]

pub compare_text_eq : (a b : Text) → compare_text a b ≡ Ordering.eq → a ≡ b
unfolding compare_text
compare_text_eq [] [] h = refl
compare_text_eq [] (y ∷ ys) h = ground arith
compare_text_eq (x ∷ xs) [] h = ground arith
compare_text_eq (x ∷ xs) (y ∷ ys) h = ground (arith, compare_text_eq xs ys)

pub compare_text_refl : (a : Text) → compare_text a a ≡ Ordering.eq
unfolding compare_text
compare_text_refl [] = refl
compare_text_refl (x ∷ xs) = ground (arith, compare_text_refl xs)

pub compare_text_trans :
    (a b c : Text)
    → compare_text a b ≡ Ordering.lt
    → compare_text b c ≡ Ordering.lt
    → compare_text a c ≡ Ordering.lt
unfolding compare_text
compare_text_trans [] [] c h k = ground arith
compare_text_trans [] (y ∷ ys) [] h k = ground arith
compare_text_trans [] (y ∷ ys) (z ∷ zs) h k = refl
compare_text_trans (x ∷ xs) [] c h k = ground arith
compare_text_trans (x ∷ xs) (y ∷ ys) [] h k = ground arith
compare_text_trans (x ∷ xs) (y ∷ ys) (z ∷ zs) h k = ground (arith, compare_text_trans xs ys zs)

pub compare_text_flip :
    (a b : Text) → (compare_text a b ≡ Ordering.gt) ↔ (compare_text b a ≡ Ordering.lt)
unfolding compare_text
compare_text_flip [] [] = ground arith
compare_text_flip [] (y ∷ ys) = ground arith
compare_text_flip (x ∷ xs) [] = ground arith
compare_text_flip (x ∷ xs) (y ∷ ys) = ground (arith, compare_text_flip xs ys)

-- `std::string(n, c)` put in front so that the text has at least `n` bytes:
-- `tmp.insert(0, n - std::min(n, tmp.size()), c)`.
abbrev pub pad_left : ℕ → ℕ → Text → Text
pad_left n c s = replicate (n - length s) c ++ s
