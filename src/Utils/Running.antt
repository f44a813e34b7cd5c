-- ===== src/Utils/Running.antt =====
-- src/utils.cpp, `isRunning`. The static map `priorMinflt` is a state that is passed along, and
-- `fields` is a reference: reading a key that is missing adds it with an empty value.
pub mod Answers
use zerosum.Base.{
  ℕ, ◌<◌, Bool, true, false, not, ◌&&◌, ◌||◌, List, [], ◌∷◌, Option, none, some, ltb, ◌==◌,
  if◌then◌else◌,
}
use zerosum.Base.Int.{ℤ, pos, negsuc, to_u64}
use zerosum.StdMap.{text_ord, Map, find, insert, assign, count, find_or, is_some}
use zerosum.Text.{Text, codes, same_text, atol}

abbrev pub Fields : Type 0
Fields = Map Text Text

-- `fields[key]` as a value.
abbrev pub field : Text → Fields → Text
field key fields = find_or [] key fields

-- `fields[key]` as an effect.
abbrev pub touch : Text → Fields → Fields
touch key fields = insert key [] fields

abbrev pub is_positive : ℤ → Bool
is_positive (pos n) = ltb 0 n
is_positive (negsuc n) = false

pub record Verdict : Type 0 where
  pub fields : Fields
  pub prior_minflt : Map Text ℕ
  pub running : Bool

abbrev pub minflt_of : Fields → ℕ
minflt_of fields = to_u64 (atol (field (codes "minflt") fields))

-- The main thread in the state R: it runs unless its count of minor faults is zero or unchanged.
is_main_running : Fields → Text → Map Text ℕ → Verdict
is_main_running fields tid prior =
    let new = minflt_of fields in
    record {
      fields = touch (codes "minflt") fields;
      prior_minflt = assign tid new prior;
      running = elim (find tid prior) [ none ↦ true | some old ↦ not (new == 0 || old == new) ];
    }

-- Neither R nor t: a thread that is not the main one runs if it used the CPU.
is_user_time_running : Fields → Bool → Map Text ℕ → Verdict
is_user_time_running fields is_main prior =
    if is_main then record { fields = fields; prior_minflt = prior; running = false } else record {
      fields = touch (codes "utime") fields;
      prior_minflt = prior;
      running = is_positive (atol (field (codes "utime") fields));
    }

-- The first argument is the static `deadlock`.
unfoldable pub is_running : Bool → Fields → Text → Bool → Map Text ℕ → Verdict
unfolding is_main_running is_user_time_running
is_running deadlock fields tid is_main prior =
    if not deadlock
    then record { fields = fields; prior_minflt = prior; running = true }
    else if not (count (codes "state") fields)
    then record { fields = fields; prior_minflt = prior; running = false }
    else if same_text (codes "R") (field (codes "state") fields)
    then (if is_main
        then is_main_running fields tid prior
        else record { fields = fields; prior_minflt = prior; running = true })
    else if same_text (codes "t") (field (codes "state") fields)
    then record { fields = fields; prior_minflt = prior; running = true }
    else is_user_time_running fields is_main prior
