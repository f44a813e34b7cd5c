-- ===== src/Utils/Running/Answers.antt =====
-- What `isRunning` answers, over single calls and over two calls in a row.
use Prim.Native.String.{String}
use zerosum.Base.{ℕ, ◌≡◌, Bool, true, false, not, ◌&&◌, ◌||◌, ◌==◌, arith}
use zerosum.StdMap.{text_ord, Map, count, find-assign}
use zerosum.Text.{Text, codes, same_text, atol, compare_text_refl}
use zerosum.Utils.Running.{Fields, field, minflt_of, is_positive, is_running}

abbrev pub has_state : String → Fields → Bool
has_state s fields = same_text (codes s) (field (codes "state") fields)

-- With deadlock detection off every thread counts as running. With it on, a thread other than the
-- main one counts as running exactly if its state is R or t, or if it has used user time; if no
-- state was read it does not. Its counts of minor faults are neither read nor kept.
is_running_other :
    (deadlock : Bool) (fields : Fields) (tid : Text) (prior : Map Text ℕ)
    → let v = is_running deadlock fields tid false prior in
      (v.running ≡ (
        not deadlock
        || (count (codes "state") fields
            && (has_state "R" fields
                || has_state "t" fields
                || is_positive (atol (field (codes "utime") fields))))))
      × (v.prior_minflt ≡ prior)
unfolding is_running
is_running_other deadlock fields tid prior = ground arith

abbrev pub IsInR : Fields → Type 0
IsInR fields = (count (codes "state") fields ≡ true) × (has_state "R" fields ≡ true)

-- The main thread, in the state R in two observations with detection on: at the second one it
-- counts as running exactly if its count of minor faults is not zero and has changed since the
-- first, whatever was observed before and however the first was answered.
pub is_running_main_twice :
    (first second : Fields) (tid : Text) (prior : Map Text ℕ)
    → IsInR first
    → IsInR second
    → (is_running true second tid true (is_running true first tid true prior).prior_minflt).running
      ≡ not (minflt_of second == 0 || minflt_of first == minflt_of second)
unfolding is_running
is_running_main_twice first second tid prior r s =
    ground (arith, find-assign tid tid (minflt_of first) prior, compare_text_refl tid)
