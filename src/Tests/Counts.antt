-- ===== src/Tests/Counts.antt =====
-- Calls of the wrappers for locks, and a parallel region.
use zerosum.Base.{
  ℕ, ◌+◌, ◌-◌, ◌==◌, if◌then◌else◌, ◌%◌, ◌^◌, ◌≡◌, refl, arith, Bool, true, false, List, [], ◌∷◌,
  none, All,
}
use zerosum.Monitor.Counters.Counted.{
  LockCall, lock, try_lock, run_locks, outside_calls, counted, run_locks_lem,
}
use zerosum.Monitor.OpenMp.{get_openmp}
use zerosum.Monitor.OpenMp.Kinds.{IsUnmarked, get_openmp-IsUnmarked}
use zerosum.Software.Lwp
use zerosum.Software.Process
use zerosum.Software.Process.{Process, contains}
use zerosum.StdMap.{nat_ord, find, insert}
use zerosum.Text.{ok, err}
use zerosum.Utils.Files.{FileSystem}
use zerosum.Utils.ProcSelf.{get_thread_stat}

-- Two threads call lock and trylock, and one of them inside of a wrapper.
abbrev lock_calls : List LockCall
lock_calls = lock 101 0 ∷ try_lock 102 0 ∷ lock 101 1 ∷ lock 101 0 ∷ try_lock 101 0 ∷ []

-- The memory for one of them was not clear.
abbrev held : ℕ → ℕ × ℕ
held tid = if tid == 101 then (2 ^ 64 - 1, 7) else (0, 0)

run_locks_lem_example : counted held 101 (run_locks held lock_calls []) ≡ (
  (2 ^ 64 - 1 + outside_calls false 101 lock_calls) % 2 ^ 64,
  (7 + outside_calls true 101 lock_calls) % 2 ^ 64,
)
run_locks_lem_example = run_locks_lem held lock_calls 101 (omega arith) (omega arith)

lock_counts : (outside_calls false 101 lock_calls ≡ 2) × (outside_calls true 101 lock_calls ≡ 1)
lock_counts = (refl, refl)

-- A process before its parallel region, on a system without files.
abbrev before : Process
unfolding Process.new
before = Process.new 100 100 0 1 [] (0 ∷ [])

before-IsUnmarked : IsUnmarked before.threads
unfolding Process.new Lwp.new find insert
before-IsUnmarked t lwp f = ground (arith, nat_ord.cmp_eq t 100, f)

abbrev missing : FileSystem
missing name = none

abbrev is_set : ℕ → ℕ → Bool
is_set lwp cpu = true

abbrev behind : Process
unfolding get_openmp
behind = elim (get_openmp missing false 4 is_set (100 ∷ 101 ∷ []) before) [
  | ok p ↦ p
  | err x ↦ before
]

get_openmp-IsUnmarked_example :
    IsUnmarked behind.threads × All (λ t. contains t behind ≡ true) (100 ∷ 101 ∷ [])
unfolding get_openmp get_thread_stat Process.new
get_openmp-IsUnmarked_example =
    get_openmp-IsUnmarked missing false 4 is_set (100 ∷ 101 ∷ []) before behind before-IsUnmarked
      refl
