-- ===== src/Utils/Files/Lines.antt =====
-- A file of complete lines that fit the buffer is read line by line.
use zerosum.Base.{
  ℕ, ◌-◌, ◌<◌, ◌≡◌, refl, ap, subst, ◌∙◌, ◌⊎◌, inl, inr, Bool-cases, ◌||◌, leb, ◌==◌, List, [], ◌∷◌,
  ◌++◌, append_assoc, arith, length, All,
}
use zerosum.Text.{Text, Lacks}
use zerosum.Utils.Files.{read_pieces, fgets_pieces, unless_empty}

-- The lines without their newlines.
abbrev pub file_of : List Text → Text
file_of [] = []
file_of (l ∷ ls) = l ++ b'\n' ∷ file_of ls

abbrev pub with_newlines : List Text → List Text
with_newlines [] = []
with_newlines (l ∷ ls) = (l ++ b'\n' ∷ []) ∷ with_newlines ls

abbrev pub IsLine : ℕ → Text → Type 0
IsLine size l = Lacks b'\n' l × (length l < size)

read_pieces_line :
    (size : ℕ) (l rest line : Text) (left : ℕ)
    → Lacks b'\n' l
    → length l < left
    → read_pieces size left line (l ++ b'\n' ∷ rest)
      ≡ (line ++ (l ++ b'\n' ∷ [])) ∷ read_pieces size size [] rest
unfolding read_pieces
read_pieces_line size [] rest line left h k = ground arith
read_pieces_line size (c ∷ l) rest line left h k = ground (
  arith,
  read_pieces_line size l rest (line ++ c ∷ []) (left - 1) h.1,
  append_assoc line (c ∷ []) (l ++ b'\n' ∷ []),
)

-- In front of any other content.
pub fgets_pieces-file_of_rest :
    (size : ℕ) (ls : List Text) (rest : Text)
    → All (IsLine size) ls
    → fgets_pieces size (file_of ls ++ rest) ≡ with_newlines ls ++ fgets_pieces size rest
unfolding fgets_pieces
fgets_pieces-file_of_rest size [] rest h = refl
fgets_pieces-file_of_rest size (l ∷ ls) rest h =
    ap (read_pieces size size []) (append_assoc l (b'\n' ∷ file_of ls) rest)
    ∙ read_pieces_line size l (file_of ls ++ rest) [] size h.0.0 h.0.1
    ∙ ap (◌∷◌ (l ++ b'\n' ∷ [])) (fgets_pieces-file_of_rest size ls rest h.1)

pub fgets_pieces-file_of :
    (size : ℕ) (ls : List Text)
    → All (IsLine size) ls
    → fgets_pieces size (file_of ls) ≡ with_newlines ls
unfolding fgets_pieces
fgets_pieces-file_of size [] h = unfold read_pieces unless_empty in refl
fgets_pieces-file_of size (l ∷ ls) h =
    read_pieces_line size l (file_of ls) [] size h.0.0 h.0.1
    ∙ ap (◌∷◌ (l ++ b'\n' ∷ [])) (fgets_pieces-file_of size ls h.1)

-- What comes first of a content is where the content starts.
IsStart : Text → List Text → Type 0
IsStart s [] = Unit {0}
IsStart s (p ∷ ps) = (r : Text) × (p ++ r ≡ s)

read_pieces-IsStart :
    (size left : ℕ) (line s : Text) → IsStart (line ++ s) (read_pieces size left line s)
unfolding read_pieces unless_empty IsStart
read_pieces-IsStart size left [] [] = tt
read_pieces-IsStart size left (c ∷ line) [] = ([], refl)
read_pieces-IsStart size left line (c ∷ s) = elim (Bool-cases (c == b'\n' || leb left 1)) [
  | inl e ↦ rw (e, read_pieces) (s, append_assoc line (c ∷ []) s)
  | inr e ↦
      rw (e, read_pieces)
        (subst (λ t. IsStart t (read_pieces size (left - 1) (line ++ c ∷ []) s))
          (append_assoc line (c ∷ []) s) (read_pieces-IsStart size (left - 1) (line ++ c ∷ []) s))
]

IsStart-cases :
    (s : Text) (pieces : List Text)
    → IsStart s pieces
    → (pieces ≡ [])
      ⊎ ((p : Text) × (r : Text) × (ps : List Text) × (pieces ≡ p ∷ ps) × (p ++ r ≡ s))
unfolding IsStart
IsStart-cases s [] h = inl refl
IsStart-cases s (p ∷ ps) (r, e) = inr (p, r, ps, refl, e)

pub fgets_pieces-start :
    (size : ℕ) (s : Text)
    → (fgets_pieces size s ≡ [])
      ⊎ ((p : Text) × (r : Text) × (ps : List Text) × (fgets_pieces size s ≡ p ∷ ps) × (p ++ r ≡ s))
unfolding fgets_pieces
fgets_pieces-start size s =
    IsStart-cases s (read_pieces size size [] s) (read_pieces-IsStart size size [] s)
