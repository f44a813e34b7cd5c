-- ===== src/Merge/Cells.antt =====
-- The cells of a matrix, and the entries of a process in a row.
use zerosum.Base.{
  ℕ, zero, suc, ◌^◌, ◌<◌, ◌≡◌, refl, ap, ◌∙◌, true, false, List, [], ◌∷◌, Option, none, some, arith,
  ltb, ◌==◌, ==_iff, if◌then◌else◌, length, get_elem?,
}
use zerosum.Base.Int.{pos, negsuc}
use zerosum.Merge.{Matrix, set_at, store}
use zerosum.Software.Process.{Calls}
use zerosum.StdMap.{int_ord, find, IsMap, find-IsAbove, find-IsAbove_lt, IsAbove-IsMap}
use zerosum.Text.{ok}

pub row_lt : (m : Matrix) (row : ℕ) {cells : List ℕ} → get_elem? m row ≡ some cells → row < length m
row_lt [] row e = ground arith
row_lt (x ∷ m) zero e = omega arith
row_lt (x ∷ m) (suc row) e = omega (arith, row_lt m row e)

pub get_elem?-set_at {ℓ} :
    {A : Type ℓ} (i j : ℕ) (a : A) (xs : List A)
    → get_elem? (set_at i a xs) j
      ≡ (if j == i then (if ltb i (length xs) then some a else none) else get_elem? xs j)
unfolding set_at
get_elem?-set_at i j a [] = ground arith
get_elem?-set_at zero zero a (x ∷ xs) = ground arith
get_elem?-set_at zero (suc j) a (x ∷ xs) = ground arith
get_elem?-set_at (suc i) zero a (x ∷ xs) = ground arith
get_elem?-set_at (suc i) (suc j) a (x ∷ xs) = ground (arith, get_elem?-set_at i j a xs)

pub length-set_at {ℓ} :
    {A : Type ℓ} (i : ℕ) (a : A) (xs : List A) → length (set_at i a xs) ≡ length xs
unfolding set_at
length-set_at i a [] = refl
length-set_at zero a (x ∷ xs) = refl
length-set_at (suc i) a (x ∷ xs) = ap suc (length-set_at i a xs)

pub store-row :
    (m : Matrix) (row i value : ℕ) (cells : List ℕ)
    → get_elem? m row ≡ some cells
    → i < length cells
    → (m' : Matrix) × (store row (pos i) value m ≡ ok m')
      × (get_elem? m' row ≡ some (set_at i value cells))
unfolding store
store-row m row i value cells e h = (
  set_at row (set_at i value cells) m,
  ground (arith, e),
  ground (arith, e, get_elem?-set_at row row (set_at i value cells) m, row_lt m row e),
)

-- Ranks below the number of ranks, and numbers that `std::stol` can read.
abbrev pub AreEntries : ℕ → Calls → Type 0
AreEntries n [] = Unit {0}
AreEntries n ((negsuc r, e) ∷ m) = false ≡ true
AreEntries n ((pos r, (calls, bytes)) ∷ m) =
    (r < n) × (calls < 2 ^ 63) × (bytes < 2 ^ 63) × AreEntries n m

-- A row with the entries of all ranks stored in it.
unfoldable pub fill : (ℕ × ℕ → ℕ) → Calls → List ℕ → List ℕ
fill part [] cells = cells
fill part ((negsuc r, e) ∷ m) cells = fill part m cells
fill part ((pos r, e) ∷ m) cells = fill part m (set_at r (part e) cells)

abbrev pub calls_part : ℕ × ℕ → ℕ
calls_part (calls, bytes) = calls

abbrev pub bytes_part : ℕ × ℕ → ℕ
bytes_part (calls, bytes) = bytes

-- The cell of a rank has its entry, or what it had.
pub get_elem?-fill :
    (part : ℕ × ℕ → ℕ) (n : ℕ) (m : Calls) (cells : List ℕ) (d : ℕ)
    → AreEntries n m
    → IsMap m
    → length cells ≡ n
    → get_elem? (fill part m cells) d
      ≡ elim (find (pos d) m) [ none ↦ get_elem? cells d | some e ↦ some (part e) ]
unfolding fill find
get_elem?-fill part n [] cells d a k l = refl
get_elem?-fill part n ((negsuc r, e) ∷ m) cells d a k l = ground arith
get_elem?-fill part n ((pos r, e) ∷ m) cells d a k l = ground (
  arith,
  get_elem?-fill part n m (set_at r (part e) cells) d a.3 (IsAbove-IsMap (pos r) m k)
      (length-set_at r (part e) cells ∙ l),
  get_elem?-set_at r d (part e) cells,
  int_ord.cmp_eq (pos d) (pos r),
  int_ord.cmp_refl (pos r),
  ==_iff d r,
  a.0,
  l,
  find-IsAbove (pos r) m k,
  find-IsAbove_lt (pos d) (pos r) m,
)

abbrev pub cell : Matrix → ℕ → ℕ → Option ℕ
cell m row d = elim (get_elem? m row) [ none ↦ none | some cells ↦ get_elem? cells d ]

-- The cell behind an entry of a process, or what the cell had without one.
abbrev pub cell_after : (ℕ × ℕ → ℕ) → Calls → ℕ → Option ℕ → Option ℕ
cell_after part m d old = elim (find (pos d) m) [ none ↦ old | some e ↦ some (part e) ]

pub cell-fill :
    (part : ℕ × ℕ → ℕ) (n : ℕ) (m : Calls) (row d : ℕ) (a b : Matrix) (cells : List ℕ)
    → AreEntries n m
    → IsMap m
    → length cells ≡ n
    → get_elem? a row ≡ some cells
    → get_elem? b row ≡ some (fill part m cells)
    → cell b row d ≡ cell_after part m d (cell a row d)
cell-fill part n m row d a b cells es k l e f =
    ground (arith, e, f, get_elem?-fill part n m cells d es k l)
