-- ===== src/Utils/Ranks.antt =====
-- src/utils.cpp, `test_for_MPI_local_rank`, `test_for_MPI_comm_rank` and `test_for_MPI_comm_size`:
-- the rank and the size that a launcher left in the environment.
pub mod Slurm
use zerosum.Base.{
  ℕ, zero, suc, ◌+◌, ◌-◌, ◌*◌, ◌^◌, Bool, List, [], ◌∷◌, Option, none, some, ◌==◌, leb, ltb,
  if◌then◌else◌,
}
use zerosum.Base.Int.{ℤ, pos, negsuc, neg, to_i32}
use zerosum.Text.{Text, codes, atol, Result, ok, err, undefined, ◌>>=◌}
use zerosum.Utils.Env.{Environment}

-- `commrank = atol(tmpvar)`, a `long` that is stored in an `int`.
abbrev pub as_int : Text → ℤ
as_int s = to_i32 (atol s)

-- The result of an operation on `long`s, undefined where it does not fit.
abbrev pub as_long : ℤ → Result ℤ
as_long (pos n) = if ltb n (2 ^ 63) then ok (pos n) else err undefined
as_long (negsuc n) = if ltb n (2 ^ 63) then ok (negsuc n) else err undefined

abbrev pub minus_one : ℤ → ℤ
minus_one (pos zero) = negsuc 0
minus_one (pos (suc n)) = pos n
minus_one (negsuc n) = negsuc (suc n)

unfoldable pub ◌*ℤ◌ : ℤ → ℤ → ℤ
◌*ℤ◌ (pos a) (pos b) = pos (a * b)
◌*ℤ◌ (pos a) (negsuc b) = neg (a * suc b)
◌*ℤ◌ (negsuc a) (pos b) = neg (suc a * b)
◌*ℤ◌ (negsuc a) (negsuc b) = pos (suc a * suc b)

-- `if (tmpvar != NULL) { return f(tmpvar); }`, then the rest of the function.
abbrev pub when_set {ℓ} : {A : Type ℓ} → Option Text → (Text → A) → A → A
when_set none f rest = rest
when_set (some s) f rest = f s

abbrev pub when_both {ℓ} : {A : Type ℓ} → Option Text → Option Text → (Text → Text → A) → A → A
when_both (some s) (some t) f rest = f s t
when_both none t f rest = rest
when_both (some s) none f rest = rest

unfoldable pub test_for_mpi_local_rank : Environment → ℤ → ℤ
test_for_mpi_local_rank getenv commrank = when_set (getenv (codes "PMI_LOCAL_RANK")) as_int (
    when_set (getenv (codes "PALS_LOCAL_RANKID")) as_int (
      when_set (getenv (codes "OMPI_COMM_WORLD_LOCAL_RANK")) as_int
        (when_set (getenv (codes "SLURM_LOCALID")) as_int commrank)))

abbrev pub read_int : Text → Result ℤ
read_int s = ok (as_int s)

-- `commrank = atol(tmpvar) - 1`
abbrev pub read_previous : Text → Result ℤ
read_previous s = do previous ← as_long (minus_one (atol s)); ok (to_i32 previous)

unfoldable pub test_for_mpi_comm_rank : Environment → ℤ → Result ℤ
test_for_mpi_comm_rank getenv commrank = when_set (getenv (codes "PMI_RANK")) read_int (
    when_set (getenv (codes "ALPS_APP_PE")) read_int (
      when_set (getenv (codes "PALS_RANKID")) read_int (
        when_set (getenv (codes "CRAY_PMI_RANK")) read_int (
          when_set (getenv (codes "OMPI_COMM_WORLD_RANK")) read_int (
            when_set (getenv (codes "PBS_TASKNUM")) read_int (
              when_set (getenv (codes "PBS_O_TASKNUM")) read_previous
                (when_set (getenv (codes "SLURM_PROCID")) read_int (ok commrank))))))))

-- `commsize = atol(tmpvar) * atol(tmpvar2)`
abbrev pub as_product : Text → Text → Result ℤ
as_product s t = do product ← as_long (◌*ℤ◌ (atol s) (atol t)); ok (to_i32 product)

unfoldable pub test_for_mpi_comm_size : Environment → ℤ → Result ℤ
test_for_mpi_comm_size getenv commsize = when_set (getenv (codes "PMI_SIZE")) read_int (
    when_set (getenv (codes "CRAY_PMI_SIZE")) read_int (
      when_set (getenv (codes "PALS_SIZE")) read_int (
        when_set (getenv (codes "OMPI_COMM_WORLD_SIZE")) read_int (
          when_set (getenv (codes "PBS_NP")) read_int (
            when_both (getenv (codes "PBS_NUM_NODES")) (getenv (codes "PBS_NUM_PPN")) as_product (
              when_set (getenv (codes "SLURM_NPROCS")) read_int (
                when_set (getenv (codes "SLURM_NTASKS")) read_int (
                  when_both (getenv (codes "SLURM_JOB_NUM_NODES"))
                    (getenv (codes "SLURM_TASKS_PER_NODE")) as_product (ok commsize)))))))))
