-- ===== src/Backend/Series.antt =====
-- What the GPUs of NVIDIA have after some periods.
use zerosum.Backend.{Pairs, insert_pairs}
use zerosum.Backend.Nvml.{Status, status_pairs, status_fields, get_gpu_status}
use zerosum.Backend.Pairs.{first_value, find-insert_pairs}
use zerosum.Base.{
  ℕ, zero, suc, ◌≡◌, refl, ap, sym, ◌∙◌, arith, true, false, List, [], ◌∷◌, ◌++◌, append-nil,
  append_assoc, map, Option, none, some, length,
}
use zerosum.Base.Int.{next_u32}
use zerosum.Floats.{Floats}
use zerosum.Hardware.Gpu
use zerosum.Hardware.Gpu.{Gpu}
use zerosum.Hardware.Node.{ComputeNode, update_gpu, update_gpus}
use zerosum.StdMap.{text_ord, find, insert, IsMap, insert-IsMap}
use zerosum.Stats.{appended, find-add_all_plain}
use zerosum.Text.{Text, Result, ok, ◌>>=◌}
use zerosum.Utils.Running.{Fields}

pub insert_pairs-IsMap :
    (pairs : Pairs) (fields : Fields) → IsMap fields → IsMap (insert_pairs pairs fields)
unfolding insert_pairs
insert_pairs-IsMap [] fields h = h
insert_pairs-IsMap ((name, value) ∷ pairs) fields h =
    insert_pairs-IsMap pairs (insert name value fields) (insert-IsMap name value fields h)

-- The series of a metric with these values.
abbrev pub series_of : List Text → Option (List Text)
series_of [] = none
series_of (x ∷ xs) = some (x ∷ xs)

appended-series_of :
    (x : Text) (xs : List Text) → appended (some x) (series_of xs) ≡ series_of (xs ++ x ∷ [])
appended-series_of x [] = refl
appended-series_of x (y ∷ xs) = refl

-- Each GPU has the values of its device under `j`, and these steps.
abbrev pub Tracks : Text → (ℕ → List Text) → List ℕ → List Gpu → List ℕ → Type 0
Tracks j values steps [] [] = Unit {0}
Tracks j values steps [] (d ∷ devices) = false ≡ true
Tracks j values steps (g ∷ gpus) [] = false ≡ true
Tracks j values steps (g ∷ gpus) (d ∷ devices) =
    (find j g.stat_fields ≡ series_of (values d))
    × (g.steps ≡ steps)
    × Tracks j values steps gpus devices

Tracks-same :
    (j : Text) (v w : ℕ → List Text) (s t : List ℕ) (gpus : List Gpu) (devices : List ℕ)
    → ((d : ℕ) → v d ≡ w d)
    → s ≡ t
    → Tracks j v s gpus devices
    → Tracks j w t gpus devices
Tracks-same j v w s t [] [] h k r = tt
Tracks-same j v w s t [] (d ∷ devices) h k r = r
Tracks-same j v w s t (g ∷ gpus) [] h k r = r
Tracks-same j v w s t (g ∷ gpus) (d ∷ devices) h k (a, b, r) =
    (a ∙ ap series_of (h d), b ∙ k, Tracks-same j v w s t gpus devices h k r)

-- The steps of this many periods behind a step, in 32 bits.
abbrev pub next_steps : ℕ → ℕ → List ℕ
next_steps zero step = []
next_steps (suc n) step = next_u32 step ∷ next_steps n (next_u32 step)

module _ (fl : Floats) where
  -- Periods in a row, each with what every device says in it.
  unfoldable pub run_periods : List ℕ → List (ℕ → Status fl) → ℕ → ComputeNode → Result ComputeNode
  run_periods devices [] step node = ok node
  run_periods devices (status ∷ periods) step node = do
    node' ← get_gpu_status fl devices status (next_u32 step) node
    run_periods devices periods (next_u32 step) node'

  -- What `j` has in one period.
  abbrev pub value_in : Text → Status fl → Text
  value_in j s = elim (first_value j (status_pairs fl s)) [ none ↦ [] | some x ↦ x ]

  abbrev pub IsMetric : Text → Type 0
  IsMetric j = (s : Status fl) → first_value j (status_pairs fl s) ≡ some (value_in j s)

  abbrev pub values_in : Text → List (ℕ → Status fl) → ℕ → List Text
  values_in j periods d = map (λ status. value_in j (status d)) periods

  update_gpus-Tracks :
      (j : Text) (values : ℕ → List Text) (steps : List ℕ) (status : ℕ → Status fl) (step : ℕ)
      (gpus : List Gpu) (devices : List ℕ)
      → IsMetric j
      → Tracks j values steps gpus devices
      → (read : List Gpu) × (update_gpus gpus (map (λ d. status_fields fl (status d)) devices) step
          ≡ ok read)
        × Tracks j (λ d. values d ++ value_in j (status d) ∷ []) (steps ++ step ∷ []) read devices
  unfolding update_gpus Gpu.update_fields find
  update_gpus-Tracks j values steps status step [] [] m t = ([], refl, tt)
  update_gpus-Tracks j values steps status step [] (d ∷ devices) m t = ground arith
  update_gpus-Tracks j values steps status step (g ∷ gpus) [] m t = ground arith
  update_gpus-Tracks j values steps status step (g ∷ gpus) (d ∷ devices) m (f, s, t) =
      let (read, e, k) = update_gpus-Tracks j values steps status step gpus devices m t in
      let fields = status_fields fl (status d) in
      let has = find-insert_pairs j (status_pairs fl (status d)) [] ∙ m (status d) in
      (
        Gpu.update_fields fields step g ∷ read,
        rw e refl,
        (
          find-add_all_plain fields g.stat_fields j
                (insert_pairs-IsMap (status_pairs fl (status d)) [] tt)
              ∙ rw (has, f) (appended-series_of (value_in j (status d)) (values d)),
          ap (λ l. l ++ step ∷ []) s,
          k,
        ),
      )

  run_periods-from :
      (j : Text) (devices : List ℕ) (periods : List (ℕ → Status fl)) (step : ℕ) (node : ComputeNode)
      (values : ℕ → List Text) (steps : List ℕ)
      → IsMetric j
      → Tracks j values steps node.gpus devices
      → (read : ComputeNode) × (run_periods devices periods step node ≡ ok read)
        × Tracks j
            (λ d. values d ++ values_in j periods d)
            (steps ++ next_steps (length periods) step)
            read.gpus
            devices
  unfolding run_periods get_gpu_status update_gpu
  run_periods-from j devices [] step node values steps m t = (
    node,
    refl,
    Tracks-same j values (λ d. values d ++ []) steps (steps ++ []) node.gpus devices
        (λ d. sym (append-nil (values d))) (sym (append-nil steps)) t,
  )
  run_periods-from j devices (status ∷ periods) step node values steps m t =
      let (read, e, k) =
        update_gpus-Tracks j values steps status (next_u32 step) node.gpus devices m t in
      let now = λ (d : ℕ). values d ++ value_in j (status d) ∷ [] in
      let (last, f, l) =
        run_periods-from j devices periods (next_u32 step) (record node { gpus = read }) now
          (steps ++ next_u32 step ∷ []) m k in
      (
        last,
        rw e f,
        Tracks-same j _ _ _ _ last.gpus devices
            (λ d. append_assoc (values d) (value_in j (status d) ∷ []) (values_in j periods d))
            (append_assoc steps (next_u32 step ∷ []) (next_steps (length periods) (next_u32 step)))
            l,
      )

  -- After any number of periods from a node whose GPUs have no samples yet, one for each device that is
  -- read: each GPU has, under the name of any metric, what its device said in each period, in order,
  -- and the steps of these periods, one for each, which wrap around at 2 ^ 32.
  pub run_periods-Tracks :
      (j : Text) (devices : List ℕ) (periods : List (ℕ → Status fl)) (step : ℕ) (node : ComputeNode)
      → IsMetric j
      → Tracks j (λ d. []) [] node.gpus devices
      → (read : ComputeNode) × (run_periods devices periods step node ≡ ok read)
        × Tracks j (values_in j periods) (next_steps (length periods) step) read.gpus devices
  run_periods-Tracks j devices periods step node m t =
      run_periods-from j devices periods step node (λ d. []) [] m t
