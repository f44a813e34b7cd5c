-- ===== src/Tests/Lists.antt =====
-- The lists of hardware threads, the options, the ranks and the names of the log files.
use zerosum.Base.{
  ℕ, ◌+◌, ◌≡◌, ◌&&◌, ◌||◌, ◌==◌, refl, Bool, false, List, [], ◌∷◌, none, some, arith, Ordering,
  length, ltb, if◌then◌else◌,
}
use zerosum.Base.Int.{pos, to_u32, to_i32}
use zerosum.StdMap.StdSet.{elem}
use zerosum.Text.{
  split_at, stoi, atol, codes, same_text, compare_text, to_string, ok, err, undefined,
}
use zerosum.Utils.CpuList.{parse_discrete_values, get_affinity_list}
use zerosum.Utils.CpuList.RoundTrip.{
  Item, single, range, render, expand_all, parse_discrete_values-render,
}
use zerosum.Utils.CpuList.Sets.{get_affinity_list_agrees}
use zerosum.Utils.CpuList.Total.{Ends, parse_discrete_values_total}
use zerosum.Utils.Env.{Environment}
use zerosum.Utils.Filename.{Identity, get_unique_filename}
use zerosum.Utils.Filename.Sorted.{get_unique_filename_sorted}
use zerosum.Utils.Ranks.{test_for_mpi_local_rank, test_for_mpi_comm_rank}

abbrev items : List Item
items = range 0 3 ∷ single 8 ∷ range 12 13 ∷ []

parse_discrete_values_run :
    parse_discrete_values (codes "0-3,8,12-13") ≡ ok (0 ∷ 1 ∷ 2 ∷ 3 ∷ 8 ∷ 12 ∷ 13 ∷ [])
unfolding parse_discrete_values split_at stoi to_u32
parse_discrete_values_run = refl

parse_discrete_values-render_example : parse_discrete_values (render items) ≡ ok (expand_all items)
parse_discrete_values-render_example =
    parse_discrete_values-render items
      ((omega arith, omega arith), (omega arith, ((omega arith, omega arith), tt)))

parse_discrete_values_total_example :
    Ends (codes "5-2147483647") (parse_discrete_values (codes "5-2147483647"))
parse_discrete_values_total_example = parse_discrete_values_total (codes "5-2147483647")

endless : parse_discrete_values (codes "5-2147483647") ≡ err undefined
unfolding parse_discrete_values split_at stoi
endless = refl

abbrev numbers : List ℕ
numbers = 1 ∷ 7 ∷ 64 ∷ []

abbrev even_mask : ℕ → Bool
even_mask i = (i == 0) || (i == 2) || (i == 9)

get_affinity_list_agrees_example :
    (parse_discrete_values (get_affinity_list 4 even_mask []).0
      ≡ ok (get_affinity_list 4 even_mask []).1)
    × ((y : ℕ) → elem y (get_affinity_list 4 even_mask []).1 ≡ (even_mask y && ltb y 4))
get_affinity_list_agrees_example = get_affinity_list_agrees 4 even_mask (omega arith)

-- A job of four ranks of which this one is the third, with a period of five seconds.
abbrev job : Environment
job name =
    if same_text name (codes "ZS_PERIOD")
    then some (to_string 5)
    else if same_text name (codes "SLURM_PROCID")
    then some (to_string 2)
    else none

period_set : job (codes "ZS_PERIOD") ≡ some (to_string 5)
unfolding compare_text
period_set = refl

-- A job of Slurm with seven tasks, two on each of three nodes and one on the fourth.
abbrev uneven : Environment
uneven name =
    if same_text name (codes "SLURM_JOB_NUM_NODES")
    then some (to_string 4)
    else if same_text name (codes "SLURM_TASKS_PER_NODE")
    then some (codes "2(x3),1")
    else none

-- The local rank, and the rank, of a process of PBS.
abbrev task : Environment
task name =
    if same_text name (codes "PBS_O_TASKNUM")
    then some (codes "3")
    else if same_text name (codes "SLURM_LOCALID")
    then some (codes "1")
    else none

task_ranks :
    (test_for_mpi_local_rank task (pos 9) ≡ pos 1)
    × (test_for_mpi_comm_rank task (pos 9) ≡ ok (pos 2))
unfolding test_for_mpi_local_rank test_for_mpi_comm_rank compare_text atol to_i32
task_ranks = (refl, refl)

abbrev rank_of : ℕ → Identity
rank_of rank = record {
  use_pid = false;
  max_pid = 4194304;
  pid = 1000 + rank;
  hostname = codes "node1";
  size = 12;
  rank = rank;
}

get_unique_filename_sorted_example :
    (compare_text (get_unique_filename (rank_of 9)) (get_unique_filename (rank_of 10))
      ≡ Ordering.lt)
    × (length (get_unique_filename (rank_of 9)) ≡ length (get_unique_filename (rank_of 10)))
get_unique_filename_sorted_example =
    get_unique_filename_sorted (rank_of 9) (rank_of 10) refl refl refl (omega arith) (omega arith)
      (omega arith)
