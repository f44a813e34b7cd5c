-- ===== src/Hardware/Node/Labels.antt =====
-- src/zerosum.cpp, `ZeroSum::doPeriodic`, in the build without lm_sensors: the two calls of
-- `updateNodeFields` in one period, and the steps that the rows of the node carry.
use zerosum.Base.{
  ℕ, zero, suc, ◌+◌, ◌*◌, ◌%◌, ◌^◌, ◌/◌, ◌<◌, ◌≡◌, refl, sym, ap, ◌∙◌, List, [], ◌∷◌, ◌++◌,
  append_assoc, append-nil, Bool, true, false, none, some, length, get_elem?, arith,
}
use zerosum.Base.Int.{next_u32}
use zerosum.Hardware.Node.{ComputeNode, new, update_node_fields}
use zerosum.StdMap.{text_ord, find, IsMap}
use zerosum.Stats.{find-add_all_plain, add_all_plain}
use zerosum.Text.{Text}
use zerosum.Utils.Running.{Fields}

-- What `parseNodeInfo` and what the Cray counters return in one period.
pub record Readings : Type 0 where
  pub info : Fields
  pub counters : Fields

unfoldable pub periodic_node : Readings → ℕ → ComputeNode → ComputeNode
periodic_node r step node = update_node_fields r.counters step (update_node_fields r.info step node)

-- Periods in a row; `step++` comes first.
unfoldable pub periods : List Readings → ℕ → ComputeNode → ComputeNode
periods [] step node = node
periods (r ∷ rs) step node = periods rs (next_u32 step) (periodic_node r (next_u32 step) node)

-- In each period `j` has its value of the list, from `parseNodeInfo` alone.
abbrev pub Carries : Text → List Readings → List Text → Type 0
Carries j [] [] = Unit
Carries j [] (x ∷ xs) = false ≡ true
Carries j (r ∷ rs) [] = false ≡ true
Carries j (r ∷ rs) (x ∷ xs) =
    IsMap r.info
    × IsMap r.counters
    × (find j r.info ≡ some x)
    × (find j r.counters ≡ none)
    × Carries j rs xs

periods-series :
    (j : Text) (rs : List Readings) (xs v : List Text) (step : ℕ) (node : ComputeNode)
    → Carries j rs xs
    → find j node.stat_fields ≡ some v
    → find j (periods rs step node).stat_fields ≡ some (v ++ xs)
unfolding periods periodic_node update_node_fields
periods-series j [] [] v step node c e = e ∙ ap some (sym (append-nil v))
periods-series j [] (x ∷ xs) v step node c e = ground arith
periods-series j (r ∷ rs) [] v step node c e = ground arith
periods-series j (r ∷ rs) (x ∷ xs) v step node (mi, mc, fi, fc, c) e =
    let after = periodic_node r (next_u32 step) node in
    let here : find j after.stat_fields ≡ some (v ++ x ∷ []) = ground (
      arith,
      find-add_all_plain r.info node.stat_fields j mi,
      find-add_all_plain r.counters (add_all_plain r.info node.stat_fields) j mc,
    ) in
    periods-series j rs xs (v ++ x ∷ []) (next_u32 step) after c here
    ∙ ap some (append_assoc v (x ∷ []) xs)

twice : ℕ → List Readings → List ℕ
twice step [] = []
twice step (r ∷ rs) = next_u32 step ∷ next_u32 step ∷ twice (next_u32 step) rs

periods-steps :
    (rs : List Readings) (step : ℕ) (node : ComputeNode)
    → (periods rs step node).steps ≡ node.steps ++ twice step rs
unfolding periods periodic_node update_node_fields twice
periods-steps [] step node = sym (append-nil node.steps)
periods-steps (r ∷ rs) step node =
    let s = next_u32 step in
    periods-steps rs s (periodic_node r s node)
    ∙ append_assoc (node.steps ++ s ∷ []) (s ∷ []) (twice s rs)
    ∙ append_assoc node.steps (s ∷ []) (s ∷ twice s rs)

get_elem?-twice :
    (step i : ℕ) (rs : List Readings)
    → i < 2 * length rs
    → get_elem? (twice step rs) i ≡ some ((step + 1 + i / 2) % 2 ^ 32)
unfolding twice
get_elem?-twice step i [] h = absurd (omega arith)
get_elem?-twice step zero (r ∷ rs) h = ground arith
get_elem?-twice step (suc zero) (r ∷ rs) h = ground arith
get_elem?-twice step (suc (suc i)) (r ∷ rs) h =
    get_elem?-twice (next_u32 step) i rs (omega arith) ∙ ap some (omega arith)

find-nil : (j : Text) → find {V = List Text} j [] ≡ none
unfolding find
find-nil j = refl

label :
    (rs : List Readings) (step i : ℕ)
    → step < 2 ^ 32
    → i < 2 * length rs + 1
    → get_elem? (step ∷ twice step rs) i ≡ some ((step + (i + 1) / 2) % 2 ^ 32)
label rs step zero k h = ap some (omega arith)
label rs step (suc i) k h = get_elem?-twice step i rs (omega arith) ∙ ap some (omega arith)

-- From any step below 2 ^ 32, a field that `parseNodeInfo` gives at the start and in every period, and the
-- Cray counters never: its series has one value for the start and one for each period, in order, and
-- the steps have two entries for each period: at index `i`, where the series has the value of period
-- `i`, the steps have the first step and `(i + 1) / 2`, rounded down, more, modulo 2 ^ 32.
pub periods_labels :
    (name j : Text) (ncpus : ℕ) (details : Bool) (first : Fields) (x : Text) (rs : List Readings)
    (xs : List Text) (step i : ℕ)
    → IsMap first
    → find j first ≡ some x
    → Carries j rs xs
    → step < 2 ^ 32
    → i < 2 * length rs + 1
    → let node = periods rs step (update_node_fields first step (new ncpus name details)) in
      (find j node.stat_fields ≡ some (x ∷ xs))
      × (get_elem? node.steps i ≡ some ((step + (i + 1) / 2) % 2 ^ 32))
unfolding update_node_fields new
periods_labels name j ncpus details first x rs xs step i m e c k h =
    let start = update_node_fields first step (new ncpus name details) in
    let here : find j start.stat_fields ≡ some (x ∷ []) =
      ground (arith, find-add_all_plain first [] j m, find-nil j) in
    (
      periods-series j rs xs (x ∷ []) step start c here,
      ap (λ l. get_elem? l i) (periods-steps rs step start) ∙ label rs step i k h,
    )
