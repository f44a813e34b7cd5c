-- ===== src/Text/Split.antt =====
-- `find(c)` with the two `substr` around it, and `getline(ss, item, c)` until it fails.
use zerosum.Base.{
  ℕ, ◌<◌, ◌≡◌, ◌≢◌, refl, false, List, [], ◌∷◌, ◌++◌, Option, none, some, arith, ◌==◌,
  if◌then◌else◌, length, All, Option-cases, Bool-cases, Bool, not, ◌&&◌, true, inl, inr,
}
use zerosum.Text.Defs.{Text, is_digit}
use zerosum.Text.Decimal.{IsDigits}

abbrev on_left : ℕ → Option (Text × Text) → Option (Text × Text)
on_left x none = none
on_left x (some (a, b)) = some (x ∷ a, b)

-- What stands before and behind the first `c`; `none` is `npos`.
unfoldable pub split_at : ℕ → Text → Option (Text × Text)
split_at c [] = none
split_at c (x ∷ s) = if x == c then some ([], s) else on_left x (split_at c s)

abbrev pub Lacks : ℕ → Text → Type 0
Lacks c = All (λ x. x ≢ c)

pub split_at-Lacks :
    (c : ℕ) (s rest : Text) → Lacks c s → split_at c (s ++ c ∷ rest) ≡ some (s, rest)
unfolding split_at
split_at-Lacks c [] rest h = ground arith
split_at-Lacks c (x ∷ s) rest h = ground (arith, split_at-Lacks c s rest h.1)

pub split_at-none : (c : ℕ) (s : Text) → Lacks c s → split_at c s ≡ none
unfolding split_at
split_at-none c [] h = refl
split_at-none c (x ∷ s) h = ground (arith, split_at-none c s h.1)

-- The text behind the separator is shorter.
pub split_at_shorter : (c : ℕ) (s a b : Text) → split_at c s ≡ some (a, b) → length b < length s
unfolding split_at
split_at_shorter c [] a b h = ground arith
split_at_shorter c (x ∷ s) a b h = elim (Option-cases (split_at c s)) [
  | inl e ↦ ground arith
  | inr ((p, q), e) ↦ ground (arith, split_at_shorter c s p q e)
]

on_left-parts :
    (c x : ℕ) (o : Option (Text × Text)) (s a b : Text)
    → ((p q : Text) → o ≡ some (p, q) → s ≡ p ++ c ∷ q)
    → on_left x o ≡ some (a, b)
    → x ∷ s ≡ a ++ c ∷ b
on_left-parts c x none s a b h e = ground arith
on_left-parts c x (some (p, q)) s a b h e = ground (arith, h p q refl)

pub split_at-parts : (c : ℕ) (s a b : Text) → split_at c s ≡ some (a, b) → s ≡ a ++ c ∷ b
unfolding split_at
split_at-parts c [] a b h = ground arith
split_at-parts c (x ∷ s) a b h = elim (Bool-cases (x == c)) [
  | inl e ↦ ground (arith, e)
  | inr e ↦
      on_left-parts c x (split_at c s) s a b (λ p q. split_at-parts c s p q) (ground (arith, e))
]

-- The items of `getline`: those behind the first, then the first in front. A text that ends
-- in the separator has no empty item behind it, and an empty text has no item.
unfoldable pub add_to_first : ℕ → List Text → List Text
add_to_first x [] = (x ∷ []) ∷ []
add_to_first x (item ∷ items) = (x ∷ item) ∷ items

unfoldable pub getline_items : ℕ → Text → List Text
unfolding add_to_first
getline_items c [] = []
getline_items c (x ∷ s) =
    if x == c then [] ∷ getline_items c s else add_to_first x (getline_items c s)

pub Lacks-IsDigits : (c : ℕ) (s : Text) → is_digit c ≡ false → IsDigits s → Lacks c s
Lacks-IsDigits c [] h d = tt
Lacks-IsDigits c (x ∷ s) h d = (ground (arith, d.0), Lacks-IsDigits c s h d.1)

-- What stands in front of the first `d`, or everything.
abbrev pub before : ℕ → Text → Text
before d [] = []
before d (c ∷ s) = if c == d then [] else c ∷ before d s

pub getline_items_first :
    (d c : ℕ) (s : Text)
    → (items : List Text) × (getline_items d (c ∷ s) ≡ before d (c ∷ s) ∷ items)
unfolding getline_items add_to_first
getline_items_first d c [] = ([], ground arith)
getline_items_first d c (x ∷ s) =
    let (items, e) = getline_items_first d x s in
    elim (Bool-cases (c == d)) [
      | inl h ↦ (getline_items d (x ∷ s), ground arith)
      | inr h ↦ (items, ground arith)
    ]

-- A text that is written out lacks a byte if a test says so.
abbrev pub lacks : ℕ → Text → Bool
lacks c [] = true
lacks c (x ∷ s) = not (x == c) && lacks c s

pub lacks-Lacks : (c : ℕ) (s : Text) → lacks c s ≡ true → Lacks c s
lacks-Lacks c [] h = tt
lacks-Lacks c (x ∷ s) h = (ground arith, lacks-Lacks c s (ground arith))
