-- ===== src/Utils/Ranks/Slurm.antt =====
-- The number of ranks that `test_for_MPI_comm_size` takes from the last variables of Slurm.
use zerosum.Base.{
  ℕ, ◌+◌, ◌*◌, ◌≡◌, Bool, false, not, ◌||◌, ◌==◌, if◌then◌else◌, List, [], ◌∷◌, ◌++◌, none, some,
}
use zerosum.Text.{Text, codes, to_string}
use zerosum.Utils.Env.{Environment}

-- How Slurm writes the tasks of nodes in a row: their number, and how many nodes have it.
abbrev pub times_text : ℕ → Text
times_text k = if k == 1 then [] else codes "(x" ++ (to_string k ++ codes ")")

abbrev pub more_text : List (ℕ × ℕ) → Text
more_text [] = []
more_text ((m, k) ∷ groups) = b',' ∷ (to_string m ++ (times_text k ++ more_text groups))

abbrev pub node_count : List (ℕ × ℕ) → ℕ
node_count [] = 0
node_count ((m, k) ∷ groups) = k + node_count groups

abbrev pub task_count : List (ℕ × ℕ) → ℕ
task_count [] = 0
task_count ((m, k) ∷ groups) = m * k + task_count groups

-- Some node has another number of tasks.
abbrev pub differs : ℕ → List (ℕ × ℕ) → Bool
differs m [] = false
differs m ((t, k) ∷ groups) = not (t == m) || differs m groups

-- A job of Slurm with these tasks on its nodes, for which no variable with the size itself is set.
pub record IsSlurm (getenv : Environment) (m k : ℕ) (groups : List (ℕ × ℕ)) : Type 0 where
  pub nodes : getenv (codes "SLURM_JOB_NUM_NODES") ≡ some (to_string (k + node_count groups))
  pub tasks :
      getenv (codes "SLURM_TASKS_PER_NODE")
      ≡ some (to_string m ++ (times_text k ++ more_text groups))
  pub no_pmi : getenv (codes "PMI_SIZE") ≡ none
  pub no_cray : getenv (codes "CRAY_PMI_SIZE") ≡ none
  pub no_pals : getenv (codes "PALS_SIZE") ≡ none
  pub no_open_mpi : getenv (codes "OMPI_COMM_WORLD_SIZE") ≡ none
  pub no_pbs : getenv (codes "PBS_NP") ≡ none
  pub no_pbs_nodes : getenv (codes "PBS_NUM_NODES") ≡ none
  pub no_nprocs : getenv (codes "SLURM_NPROCS") ≡ none
  pub no_ntasks : getenv (codes "SLURM_NTASKS") ≡ none
