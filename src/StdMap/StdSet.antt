-- ===== src/StdMap/StdSet.antt =====
-- `std::set<uint32_t>`: the elements in ascending order, each once.
use zerosum.Base.{
  ℕ, ◌<◌, ◌≡◌, refl, Bool, true, false, List, [], ◌∷◌, Ordering, compare, arith, ◌==◌, ◌||◌,
}

unfoldable pub insert : ℕ → List ℕ → List ℕ
insert x [] = x ∷ []
insert x (y ∷ s) = elim (compare x y) [
  | Ordering.lt ↦ x ∷ y ∷ s
  | Ordering.eq ↦ y ∷ s
  | Ordering.gt ↦ y ∷ insert x s
]

-- `s.count(x) > 0`
unfoldable pub count : ℕ → List ℕ → Bool
count x [] = false
count x (y ∷ s) = elim (compare x y) [
  | Ordering.lt ↦ false
  | Ordering.eq ↦ true
  | Ordering.gt ↦ count x s
]

-- `for (auto t : v) s.insert(t)`
unfoldable pub insert_all : List ℕ → List ℕ → List ℕ
unfolding insert
insert_all [] s = s
insert_all (x ∷ xs) s = insert_all xs (insert x s)

pub count-insert : (x y : ℕ) (s : List ℕ) → count y (insert x s) ≡ (y == x || count y s)
unfolding count insert
count-insert x y [] = ground arith
count-insert x y (z ∷ s) = ground (arith, count-insert x y s)

abbrev pub elem : ℕ → List ℕ → Bool
elem y [] = false
elem y (x ∷ xs) = y == x || elem y xs

-- The set holds what it held and the elements of the list.
pub count-insert_all :
    (xs s : List ℕ) (y : ℕ) → count y (insert_all xs s) ≡ (elem y xs || count y s)
unfolding insert_all
count-insert_all [] s y = refl
count-insert_all (x ∷ xs) s y =
    ground (arith, count-insert_all xs (insert x s) y, count-insert x y s)

-- Ascending, above `n`.
abbrev pub IsAbove : ℕ → List ℕ → Type 0
IsAbove n [] = Unit {0}
IsAbove n (x ∷ s) = (n < x) × IsAbove x s

abbrev pub IsAscending : List ℕ → Type 0
IsAscending [] = Unit {0}
IsAscending (x ∷ s) = IsAbove x s

insert-IsAbove : (n x : ℕ) (s : List ℕ) → n < x → IsAbove n s → IsAbove n (insert x s)
unfolding insert
insert-IsAbove n x [] h a = (h, tt)
insert-IsAbove n x (y ∷ s) h a = ground (arith, insert-IsAbove y x s)

insert-IsAscending : (x : ℕ) (s : List ℕ) → IsAscending s → IsAscending (insert x s)
unfolding insert
insert-IsAscending x [] a = tt
insert-IsAscending x (y ∷ s) a = ground (arith, insert-IsAbove y x s)

pub insert_all-IsAscending : (xs s : List ℕ) → IsAscending s → IsAscending (insert_all xs s)
unfolding insert_all
insert_all-IsAscending [] s a = a
insert_all-IsAscending (x ∷ xs) s a = insert_all-IsAscending xs _ (insert-IsAscending x s a)
