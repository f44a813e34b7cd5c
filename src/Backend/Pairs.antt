-- ===== src/Backend/Pairs.antt =====
-- What a map has after a row of calls of `insert`.
use zerosum.Base.{◌≡◌, arith, [], ◌∷◌, Option, none, some, if◌then◌else◌}
use zerosum.Backend.{Pairs, insert_pairs}
use zerosum.StdMap.{text_ord, find, insert, find-insert, is_eq}
use zerosum.Text.{Text, compare_text}
use zerosum.Utils.Running.{Fields}

-- The first value for a name.
abbrev pub first_value : Text → Pairs → Option Text
first_value k [] = none
first_value k ((name, value) ∷ pairs) =
    if is_eq (compare_text k name) then some value else first_value k pairs

abbrev pub or_else {ℓ} : {A : Type ℓ} → Option A → Option A → Option A
or_else none b = b
or_else (some a) b = some a

-- A name has the value that it had, or else the first one that is inserted for it.
pub find-insert_pairs :
    (k : Text) (pairs : Pairs) (fields : Fields)
    → find k (insert_pairs pairs fields) ≡ or_else (find k fields) (first_value k pairs)
unfolding insert_pairs
find-insert_pairs k [] fields = ground arith
find-insert_pairs k ((name, value) ∷ pairs) fields =
    ground
      (arith, find-insert_pairs k pairs (insert name value fields), find-insert name k value fields)
