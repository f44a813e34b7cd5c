-- ===== src/Monitor/OpenMp/Kinds.antt =====
-- The types of the threads that src/zerosum_openmp.cpp adds.
use zerosum.Base.{
  ℕ, ◌≡◌, ap, sym, subst, ◌∙◌, arith, ◌++◌, Bool, true, false, List, [], ◌∷◌, All, some, inl, inr,
  Option-cases,
}
use zerosum.Monitor.OpenMp.{thread_begin, get_openmp}
use zerosum.Software.Lwp
use zerosum.Software.Lwp.{ThreadType, Lwp, open_mp, other, bits, has_bit, update}
use zerosum.Monitor.Seen.{contains-add}
use zerosum.Software.Process.{Process, add, add_thread, contains}
use zerosum.Utils.CpuList.{get_affinity_list}
use zerosum.Utils.ProcSelf.{get_thread_stat, get_thread_status}
use zerosum.StdMap.{nat_ord, Map, find, find-insert, find-assign}
use zerosum.Text.{codes, to_string, ok, Result-cases, ok_inj, err_ok}
use zerosum.Utils.Files.{FileSystem}
use zerosum.Utils.Running.{Fields}

-- No thread counts as one of OpenMP.
abbrev pub IsUnmarked : Map ℕ Lwp → Type 0
IsUnmarked threads =
    (t : ℕ) (lwp : Lwp) → find t threads ≡ some lwp → has_bit lwp.type_bits open_mp ≡ false

add_thread-IsUnmarked :
    (tid : ℕ) (allowed : List ℕ) (fields : Fields) (step : ℕ) (threads : Map ℕ Lwp)
    → IsUnmarked threads
    → IsUnmarked (add_thread tid allowed fields step other threads)
unfolding add_thread Lwp.new update
add_thread-IsUnmarked tid allowed fields step threads u t lwp f =
    elim (Option-cases (find tid threads)) [
      | inl n ↦ ground (
        arith,
        u t lwp,
        nat_ord.cmp_eq t tid,
        find-insert tid t (Lwp.new tid allowed fields (bits other) other) threads,
      )
      | inr (old, s) ↦ ground (
        arith,
        u t lwp,
        u tid old s,
        nat_ord.cmp_eq t tid,
        find-assign tid t (update allowed fields other step old) threads,
      )
    ]

-- What the callback does to the process.
pub record IsBegun (lwp : ℕ) (p p' : Process) : Type 0 where
  pub unmarked : IsUnmarked p.threads → IsUnmarked p'.threads
  pub added : contains lwp p' ≡ true
  pub kept : (t : ℕ) → contains t p ≡ true → contains t p' ≡ true

thread_begin-IsBegun :
    (files : FileSystem) (add_new : Bool) (ncpus : ℕ) (is_set : ℕ → ℕ → Bool) (lwp : ℕ)
    (p p' : Process)
    → thread_begin files add_new ncpus is_set lwp p ≡ ok p'
    → IsBegun lwp p p'
unfolding thread_begin add
thread_begin-IsBegun files add_new ncpus is_set lwp p p' e =
    let stat = codes "/proc/self/task/" ++ to_string lwp ++ codes "/stat" in
    elim (Result-cases (get_thread_stat files stat)) [
      | inl (fields, f) ↦
          let all = get_thread_status files (stat ++ codes "us") fields in
          let allowed = (get_affinity_list ncpus (is_set lwp) []).1 in
          subst (λ q. IsBegun lwp p q) (ok_inj (rw f at e))
            (record {
              unmarked = add_thread-IsUnmarked lwp allowed all (bits open_mp) p.threads;
              added = (contains-add add_new lwp lwp allowed all (bits open_mp) other p).0;
              kept = λ t. (contains-add add_new lwp t allowed all (bits open_mp) other p).1;
            })
      | inr (x, f) ↦ absurd (err_ok (rw f at e))
    ]

get_openmp-kept :
    (files : FileSystem) (add_new : Bool) (ncpus : ℕ) (is_set : ℕ → ℕ → Bool) (lwps : List ℕ)
    (p p' : Process)
    → get_openmp files add_new ncpus is_set lwps p ≡ ok p'
    → (t : ℕ) → contains t p ≡ true
    → contains t p' ≡ true
unfolding get_openmp
get_openmp-kept files add_new ncpus is_set [] p p' e t h = ap (contains t) (sym (ok_inj e)) ∙ h
get_openmp-kept files add_new ncpus is_set (lwp ∷ lwps) p p' e t h =
    elim (Result-cases (thread_begin files add_new ncpus is_set lwp p)) [
      | inl (q, f) ↦
          let begun = thread_begin-IsBegun files add_new ncpus is_set lwp p q f in
          get_openmp-kept files add_new ncpus is_set lwps q p' (rw f at e) t (begun.kept t h)
      | inr (x, f) ↦ absurd (err_ok (rw f at e))
    ]

-- Where the loop over the threads of OpenMP does not throw, each of them is in the process afterwards; and if
-- no thread had the bit of OpenMP before, none has it now, not even those.
pub get_openmp-IsUnmarked :
    (files : FileSystem) (add_new : Bool) (ncpus : ℕ) (is_set : ℕ → ℕ → Bool) (lwps : List ℕ)
    (p p' : Process)
    → IsUnmarked p.threads
    → get_openmp files add_new ncpus is_set lwps p ≡ ok p'
    → IsUnmarked p'.threads × All (λ t. contains t p' ≡ true) lwps
unfolding get_openmp
get_openmp-IsUnmarked files add_new ncpus is_set [] p p' u e =
    (subst (λ q. IsUnmarked q.threads) (ok_inj e) u, tt)
get_openmp-IsUnmarked files add_new ncpus is_set (lwp ∷ lwps) p p' u e =
    elim (Result-cases (thread_begin files add_new ncpus is_set lwp p)) [
      | inl (q, f) ↦
          let begun = thread_begin-IsBegun files add_new ncpus is_set lwp p q f in
          let (unmarked, rest) =
            get_openmp-IsUnmarked files add_new ncpus is_set lwps q p' (begun.unmarked u)
              (rw f at e) in
          (
            unmarked,
            (
              get_openmp-kept files add_new ncpus is_set lwps q p' (rw f at e) lwp begun.added,
              rest,
            ),
          )
      | inr (x, f) ↦ absurd (err_ok (rw f at e))
    ]
