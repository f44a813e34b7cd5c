-- ===== src/Software/Lwp/Aligned.antt =====
-- src/software.h, class `LWP`: the series of a thread and its steps.
use zerosum.Base.{
  ℕ, ◌<◌, ◌≡◌, List, [], ◌∷◌, some, arith, length, length-append, get_elem?, get_elem?-concat,
}
use zerosum.Software.Lwp.{ThreadType, Lwp, new, update}
use zerosum.StdMap.{text_ord, find, IsMap}
use zerosum.Stats.{Within, add_all_padded_value, add_all_padded_old, add_all_padded-Within}
use zerosum.Text.{Text}
use zerosum.Utils.Running.{Fields}

-- No series has more values than there are steps.
abbrev pub IsAligned : Lwp → Type 0
IsAligned lwp = Within (length lwp.steps) lwp.stat_fields

-- A thread that has just been made, from any map of fields, has samples that line up: no series has
-- more values than there are steps.
pub new-IsAligned :
    (id : ℕ) (allowed : List ℕ) (fields : Fields) (step : ℕ) (type : ThreadType)
    → IsMap fields
    → IsAligned (new id allowed fields step type)
unfolding new find
new-IsAligned id allowed fields step type m j v e =
    let w : Within 0 [] = λ j v e. ground arith in
    omega (arith, add_all_padded-Within 0 fields [] m w j v e)

-- One sample of a thread whose samples line up, with a field `j`: they still line up, and the new
-- step and the value of the field stand at one index, behind all earlier steps, also where the field
-- is new.
pub update-IsAligned :
    (allowed : List ℕ) (fields : Fields) (type : ThreadType) (step : ℕ) (lwp : Lwp) (j x : Text)
    → IsMap fields
    → IsAligned lwp
    → find j fields ≡ some x
    → let after = update allowed fields type step lwp in
      let n = length lwp.steps in
      IsAligned after
      × (get_elem? after.steps n ≡ some step)
      × ((v : List Text) × (find j after.stat_fields ≡ some v) × (get_elem? v n ≡ some x))
unfolding update
update-IsAligned allowed fields type step lwp j x m w e =
    let n = length lwp.steps in
    let (v, f, _, g) = add_all_padded_value n fields lwp.stat_fields j x m w e in
    (
      λ j v e. omega (
        arith,
        length-append lwp.steps (step ∷ []),
        add_all_padded-Within n fields lwp.stat_fields m w j v e,
      ),
      get_elem?-concat lwp.steps step,
      (v, f, g),
    )

-- A sample leaves every value that was taken before at the index where it stood, whether or not the
-- sample has the field.
update_keeps :
    (allowed : List ℕ) (fields : Fields) (type : ThreadType) (step : ℕ) (lwp : Lwp) (j : Text)
    (v : List Text) (i : ℕ)
    → IsMap fields
    → find j lwp.stat_fields ≡ some v
    → i < length v
    → (v' : List Text) × (find j (update allowed fields type step lwp).stat_fields ≡ some v')
      × (get_elem? v' i ≡ get_elem? v i)
unfolding update
update_keeps allowed fields type step lwp j v i m e h =
    let (v', f, same) = add_all_padded_old (length lwp.steps) fields lwp.stat_fields j v m e in
    (v', f, same i h)
