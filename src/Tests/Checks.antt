-- ===== src/Tests/Checks.antt =====
-- Boolean forms of the conditions on lines and words, for inputs that are written out.
use zerosum.Base.{ℕ, ◌≡◌, Bool, true, ◌&&◌, ltb, length, List, [], ◌∷◌, All, arith}
use zerosum.Text.{Text, Lacks, lacks, lacks-Lacks}
use zerosum.Utils.Files.Lines.{IsLine}

abbrev pub all_lack : ℕ → List Text → Bool
all_lack c [] = true
all_lack c (s ∷ ss) = lacks c s && all_lack c ss

pub all_lack-All : (c : ℕ) (ss : List Text) → all_lack c ss ≡ true → All (Lacks c) ss
all_lack-All c [] h = tt
all_lack-All c (s ∷ ss) h = (lacks-Lacks c s (ground arith), all_lack-All c ss (ground arith))

abbrev pub are_lines : ℕ → List Text → Bool
are_lines size [] = true
are_lines size (l ∷ ls) = lacks b'\n' l && ltb (length l) size && are_lines size ls

pub are_lines-All : (size : ℕ) (ls : List Text) → are_lines size ls ≡ true → All (IsLine size) ls
are_lines-All size [] h = tt
are_lines-All size (l ∷ ls) h =
    ((lacks-Lacks b'\n' l (ground arith), ground arith), are_lines-All size ls (ground arith))
