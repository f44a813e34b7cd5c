-- ===== src/Monitor/OpenMp.antt =====
-- src/zerosum_openmp.cpp: the threads of OpenMP are added to the process, by the callback of the tool or by
-- a parallel loop in order.
pub mod Kinds
use zerosum.Base.{ℕ, Bool, List, [], ◌∷◌, ◌++◌}
use zerosum.Software.Lwp.{ThreadType, open_mp, bits}
use zerosum.Software.Process.{Process, add}
use zerosum.Text.{codes, to_string, Result, ok, ◌>>=◌}
use zerosum.Utils.CpuList.{get_affinity_list}
use zerosum.Utils.Files.{FileSystem}
use zerosum.Utils.ProcSelf.{get_thread_stat, get_thread_status}

-- `zerosum_thread_begin` on the thread `lwp`, whose mask the system has. The type stands where `add` takes
-- the step, and the type that it takes keeps its default.
unfoldable pub thread_begin : FileSystem → Bool → ℕ → (ℕ → ℕ → Bool) → ℕ → Process → Result Process
thread_begin files add_new ncpus is_set lwp p =
    let stat = codes "/proc/self/task/" ++ to_string lwp ++ codes "/stat" in
    let (text, allowed) = get_affinity_list ncpus (is_set lwp) [] in
    do
      fields ← get_thread_stat files stat
      ok (
          add add_new lwp allowed (get_thread_status files (stat ++ codes "us") fields)
            (bits open_mp) ThreadType.other p)

-- The ordered loop of `getopenmp` over the threads.
unfoldable pub get_openmp :
    FileSystem → Bool → ℕ → (ℕ → ℕ → Bool) → List ℕ → Process → Result Process
unfolding thread_begin
get_openmp files add_new ncpus is_set [] p = ok p
get_openmp files add_new ncpus is_set (lwp ∷ lwps) p = do
  p' ← thread_begin files add_new ncpus is_set lwp p
  get_openmp files add_new ncpus is_set lwps p'
