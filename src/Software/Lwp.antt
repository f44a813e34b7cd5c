-- ===== src/Software/Lwp.antt =====
-- src/software.h, class `LWP`: a thread of the operating system. The calls of the PerfStubs macros
-- hand each value to another tool and change nothing here; `type_id` is never written.
pub mod Rows
pub mod Aligned
pub mod Report
use zerosum.Base.{
  ℕ, zero, suc, ◌+◌, ◌-◌, max, Bool, true, false, not, ◌&&◌, ◌||◌, List, [], ◌∷◌, ◌++◌, Option,
  none, some, length, get_elem?, drop, take, bit_and, bit_or, ltb, ◌==◌, if◌then◌else◌,
}
use zerosum.Hardware.Values.{values_text, differences_text, first_value}
use zerosum.StdMap.StdSet.{insert_all}
use zerosum.Stats.{StatFields, add_all_padded, Place, csv_row}
use zerosum.Text.{Text, codes, same_text, pad_left, Result, ok, err, ◌>>=◌}
use zerosum.Utils.CpuList.{set_to_string}
use zerosum.Utils.Running.{Fields}

pub data ThreadType : Type 0 where
  main zero_sum open_mp other : ThreadType

-- The values of the enumeration.
abbrev pub bits : ThreadType → ℕ
bits main = 1
bits zero_sum = 2
bits open_mp = 4
bits other = 8

abbrev pub is_other : ThreadType → Bool
is_other other = true
is_other _ = false

pub record Lwp : Type 0 where
  pub id : ℕ
  pub type_bits : ℕ
  pub hwthreads : List ℕ
  pub stat_fields : StatFields
  pub steps : List ℕ

-- The constructor: the step comes fourth, the type fifth.
unfoldable pub new : ℕ → List ℕ → Fields → ℕ → ThreadType → Lwp
new id allowed fields step type = record {
  id = id;
  type_bits = bits type;
  hwthreads = insert_all allowed [];
  stat_fields = add_all_padded 0 fields [];
  steps = step ∷ [];
}

unfoldable pub update : List ℕ → Fields → ThreadType → ℕ → Lwp → Lwp
update allowed fields type step lwp = record lwp {
  type_bits = if is_other type then lwp.type_bits else bit_or lwp.type_bits (bits type);
  hwthreads = insert_all allowed [];
  stat_fields = add_all_padded (length lwp.steps) fields lwp.stat_fields;
  steps = lwp.steps ++ step ∷ [];
}

-- The fields whose values are printed as they are.
abbrev is_state : Text → Bool
is_state name = same_text name (codes "state") || same_text name (codes "processor")

field_line : Text × List Text → Result Text
field_line (name, series) =
    if is_state name then ok (name ++ codes ": " ++ values_text false series ++ b'\n' ∷ []) else do
      previous ← first_value series
      ok (name ++ codes ": " ++ differences_text false previous series ++ b'\n' ∷ [])

field_lines : StatFields → Result Text
unfolding field_line
field_lines [] = ok []
field_lines (sf ∷ fields) = do line ← field_line sf; rest ← field_lines fields; ok (line ++ rest)

unfoldable pub get_fields : Lwp → Result Text
unfolding field_lines
get_fields lwp = field_lines lwp.stat_fields

metric_rows : Place → ℕ → ℕ → ℕ → StatFields → Text
metric_rows place id step i [] = []
metric_rows place id step i ((name, series) ∷ fields) =
    elim (get_elem? series i) [
      | none ↦ []
      | some value ↦ csv_row place step (codes "LWP") (codes "Metric") id name value
    ]
    ++ metric_rows place id step i fields

csv_loop : Place → Lwp → ℕ → List ℕ → Text
unfolding metric_rows
csv_loop place lwp i [] = []
csv_loop place lwp i (step ∷ steps) =
    metric_rows place lwp.id step i lwp.stat_fields ++ csv_loop place lwp (i + 1) steps

unfoldable pub fields_to_csv : Place → ℕ → Lwp → Text × ℕ
unfolding csv_loop
fields_to_csv place i lwp = (csv_loop place lwp i (drop i lwp.steps), max i (length lwp.steps))

-- `type & flag`
abbrev pub has_bit : ℕ → ThreadType → Bool
has_bit type flag = not (bit_and type (bits flag) == 0)

add_label : Bool → Text → Text → Text
add_label wanted label text =
    if wanted then (if ltb 0 (length text) then text ++ b',' ∷ [] else text) ++ label else text

-- The name of the main thread is overwritten where the other bit is set as well.
type_names : ℕ → Text
unfolding add_label
type_names type =
    let named = if has_bit type main then codes "Main" else [] in
    let own = if has_bit type zero_sum then codes "ZeroSum" else named in
    let omp = add_label (has_bit type open_mp) (codes "OpenMP") own in
    add_label (has_bit type other) (codes "Other") omp

unfoldable pub type_to_string : Lwp → Text
unfolding type_names
type_to_string lwp = pad_left 11 b' ' (type_names lwp.type_bits)
