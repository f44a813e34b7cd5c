-- ===== src/Software/Lwp/Rows.antt =====
-- The rows of the CSV that a thread has from an index on.
use zerosum.Base.{
  ℕ, zero, suc, ◌+◌, ◌≡◌, refl, arith, sym, List, [], ◌∷◌, ◌++◌, get_elem?, drop, none, some,
}
use zerosum.Software.Lwp.{Lwp, fields_to_csv, metric_rows, csv_loop}
use zerosum.Stats.{Place, StatFields, csv_row}
use zerosum.Text.{Text, codes}

-- The row of the first sample of each series, and the series behind it.
abbrev pub first_rows : Place → ℕ → ℕ → StatFields → Text
first_rows place id step [] = []
first_rows place id step ((name, []) ∷ fields) = first_rows place id step fields
first_rows place id step ((name, value ∷ series) ∷ fields) =
    csv_row place step (codes "LWP") (codes "Metric") id name value
    ++ first_rows place id step fields

abbrev pub drop_each : ℕ → StatFields → StatFields
drop_each n [] = []
drop_each n ((name, series) ∷ fields) = (name, drop n series) ∷ drop_each n fields

-- All rows of samples: for each step, the first of each series.
abbrev pub sample_rows : Place → ℕ → List ℕ → StatFields → Text
sample_rows place id [] fields = []
sample_rows place id (step ∷ steps) fields =
    first_rows place id step fields ++ sample_rows place id steps (drop_each 1 fields)

drop-none : (n : ℕ) → drop {A = Text} n [] ≡ []
drop-none zero = refl
drop-none (suc n) = refl

drop-drop : (n : ℕ) (series : List Text) → drop 1 (drop n series) ≡ drop (n + 1) series
drop-drop zero series = refl
drop-drop (suc n) [] = sym (drop-none (suc n + 1))
drop-drop (suc n) (x ∷ xs) = ground (arith, drop-drop n xs)

drop_each-drop_each :
    (n : ℕ) (fields : StatFields) → drop_each 1 (drop_each n fields) ≡ drop_each (n + 1) fields
drop_each-drop_each n [] = refl
drop_each-drop_each n ((name, series) ∷ fields) =
    rw (drop-drop n series, drop_each-drop_each n fields) refl

first_row :
    (place : Place) (id step i : ℕ) (name : Text) (series : List Text) (fields : StatFields)
    → elim (get_elem? series i) [
      | none ↦ []
      | some value ↦ csv_row place step (codes "LWP") (codes "Metric") id name value
    ]
        ++ first_rows place id step fields
      ≡ first_rows place id step ((name, drop i series) ∷ fields)
first_row place id step zero name [] fields = refl
first_row place id step (suc i) name [] fields = refl
first_row place id step zero name (x ∷ xs) fields = refl
first_row place id step (suc i) name (x ∷ xs) fields = first_row place id step i name xs fields

metric_rows-first_rows :
    (place : Place) (id step i : ℕ) (fields : StatFields)
    → metric_rows place id step i fields ≡ first_rows place id step (drop_each i fields)
unfolding metric_rows
metric_rows-first_rows place id step i [] = refl
metric_rows-first_rows place id step i ((name, series) ∷ fields) =
    rw (metric_rows-first_rows place id step i fields)
      (first_row place id step i name series (drop_each i fields))

csv_loop-sample_rows :
    (place : Place) (lwp : Lwp) (i : ℕ) (steps : List ℕ)
    → csv_loop place lwp i steps ≡ sample_rows place lwp.id steps (drop_each i lwp.stat_fields)
unfolding csv_loop
csv_loop-sample_rows place lwp i [] = refl
csv_loop-sample_rows place lwp i (step ∷ steps) =
    rw
      (
        metric_rows-first_rows place lwp.id step i lwp.stat_fields,
        csv_loop-sample_rows place lwp (i + 1) steps,
        drop_each-drop_each i lwp.stat_fields,
      )
      refl

-- The rows from an index on are all rows of the samples from there on.
pub fields_to_csv-sample_rows :
    (place : Place) (n : ℕ) (lwp : Lwp)
    → (fields_to_csv place n lwp).0
      ≡ sample_rows place lwp.id (drop n lwp.steps) (drop_each n lwp.stat_fields)
unfolding fields_to_csv
fields_to_csv-sample_rows place n lwp = csv_loop-sample_rows place lwp n (drop n lwp.steps)
