-- ===== src/Tests/Threads.antt =====
-- The watch over the threads, the process, and the traffic that it records.
use zerosum.Base.{
  ℕ, ◌≡◌, refl, true, false, not, ◌&&◌, ◌||◌, ◌==◌, leb, List, [], ◌∷◌, none, some, length, take,
}
use zerosum.Base.Int.{ℤ, pos, to_u32}
use zerosum.Monitor.{
  Settings, World, State, watch, get_pthreads, sample_threads, sample_thread, take_thread,
  add_calls,
}
use zerosum.Monitor.Deadlock.{quiet_after, all_quiet, watch_signals}
use zerosum.Monitor.Seen.{visible, has, get_pthreads_seen}
use zerosum.Software.Lwp
use zerosum.Software.Lwp.{Lwp, update, main, zero_sum, open_mp, other, has_bit}
use zerosum.Software.Process.{Process, new, add, add_thread, contains}
use zerosum.Software.Process.Kinds.{Call, add_all, main_never_named}
use zerosum.StdMap.{nat_ord, int_ord, text_ord, find, insert, assign}
use zerosum.Text.{Text, codes, ok, atol, split_at, starts_with, compare_text}
use zerosum.Utils.CpuList.{parse_discrete_values}
use zerosum.Utils.ProcSelf.{get_thread_stat, get_cpus_allowed, get_thread_status}
use zerosum.Utils.Running.{Fields, minflt_of, is_running}
use zerosum.Utils.Running.Answers.{IsInR, is_running_main_twice}

abbrev samples : List ℕ
samples = 1 ∷ 0 ∷ 1 ∷ 4 ∷ []

watch_signals_example :
    (watch true (pos 3) 1 (quiet_after (pos 3) (0 ∷ 1 ∷ 4 ∷ []))).1
    ≡ (leb 3 (length samples) && all_quiet (take 3 samples))
watch_signals_example = watch_signals 3 1 (0 ∷ 1 ∷ 4 ∷ [])

abbrev process : Process
process = new 100 100 0 4 [] (0 ∷ 1 ∷ [])

abbrev calls : List (ℤ × ℕ)
calls = (pos 1, 512) ∷ (pos 2, 64) ∷ (pos 1, 8) ∷ []

abbrev history : List Call
history =
    record { tid = 101; allowed = 1 ∷ []; fields = []; step = 1; type = zero_sum }
    ∷ record { tid = 101; allowed = 1 ∷ []; fields = []; step = 2; type = zero_sum }
    ∷ []

abbrev async_thread : Lwp
async_thread = update (1 ∷ []) [] zero_sum 2 (Lwp.new 101 (1 ∷ []) [] 2 other)

async_found : find 101 (add_all false history process).threads ≡ some async_thread
unfolding add_all add add_thread new find insert assign Lwp.new update
async_found = refl

main_never_named_example :
    (has_bit async_thread.type_bits main ≡ false) × (has_bit async_thread.type_bits other ≡ true)
main_never_named_example =
    main_never_named false history 100 100 0 4 [] (0 ∷ 1 ∷ []) refl 101 async_thread async_found

abbrev main_fields : Text → Fields
main_fields faults = (codes "minflt", faults) ∷ (codes "state", codes "R") ∷ []

in_r : (faults : Text) → IsInR (main_fields faults)
unfolding find compare_text
in_r faults = (refl, refl)

is_running_main_twice_example :
    (is_running true
      (main_fields (codes "6"))
      (codes "100")
      true
      (is_running true (main_fields (codes "5")) (codes "100") true []).prior_minflt).running
    ≡ not (
        minflt_of (main_fields (codes "6")) == 0
        || minflt_of (main_fields (codes "5")) == minflt_of (main_fields (codes "6")))
is_running_main_twice_example =
    is_running_main_twice (main_fields (codes "5")) (main_fields (codes "6")) (codes "100") []
      (in_r (codes "5")) (in_r (codes "6"))

abbrev settings : Settings
settings = record { detect = true; duration = pos 5; add_new = false; async_tid = 101 }

-- No file can be opened: each thread is added with the counts of its calls alone.
abbrev world : World
world = record {
  files = λ name. none;
  tasks = some (codes "." ∷ codes "100" ∷ codes "101" ∷ []);
  counters = λ tid. (0, 0);
  step = 1;
}

abbrev before_sample : State
before_sample = record { process = process; prior_minflt = []; quiet = 0 }

abbrev names : List Text
names = codes "." ∷ codes "100" ∷ codes "101" ∷ []

abbrev no_calls : Fields
no_calls = add_calls (0, 0) []

-- Both threads count as not running, since no state could be read.
abbrev after_sample : State
after_sample = record {
  process = add false 101 [] no_calls 1 zero_sum (add false 100 [] no_calls 1 other process);
  prior_minflt = [];
  quiet = 1;
}

sampled : get_pthreads settings world before_sample ≡ ok (after_sample, false)
unfolding get_pthreads sample_threads sample_thread take_thread watch get_thread_stat
    get_cpus_allowed get_thread_status parse_discrete_values is_running starts_with atol find to_u32
    split_at
sampled = refl

listed : contains 101 process || has 101 (visible names) ≡ true
unfolding starts_with atol to_u32 contains find insert new
listed = refl

get_pthreads_seen_example : contains 101 after_sample.process ≡ true
get_pthreads_seen_example =
    get_pthreads_seen settings world names before_sample after_sample false 101 refl sampled listed
