-- ===== src/Tests/Files.antt =====
-- The files of /proc, as texts in the format of proc(5).
use zerosum.Base.{
  ℕ, zero, suc, true, false, ◌≡◌, refl, List, [], ◌∷◌, ◌++◌, map, some, arith, replicate,
}
use zerosum.StdMap.{text_ord, find}
use zerosum.Tests.Checks.{all_lack-All, are_lines, are_lines-All}
use zerosum.Text.{lacks-Lacks, Text, codes, ok, starts_with, to_string}
use zerosum.Utils.CpuList.{parse_discrete_values}
use zerosum.Utils.CpuList.RoundTrip.{Item, single, range, expand_all}
use zerosum.Utils.Files.{FileSystem}
use zerosum.Utils.Files.Lines.{file_of}
use zerosum.Utils.Files.Words.{spaced}
use zerosum.Utils.ProcSelf.{cpus_key, get_cpus_allowed, get_thread_stat}
use zerosum.Utils.ProcSelf.Allowed.{cpus_line, parse-get_cpus_allowed}
use zerosum.Utils.ProcSelf.Shifted.{get_thread_stat_shifted}
use zerosum.Utils.ProcStat.{parse_proc_stat, print_whole}
use zerosum.Utils.ProcStat.Totals.{
  CpuTimes, IsCounter, show_times, fields_of, parse_proc_stat-show_times, fields_of_total,
}
use zerosum.Utils.Running.{Fields}

abbrev allowed : List Item
allowed = range 0 3 ∷ single 8 ∷ []

abbrev status_lines : List Text
status_lines = codes "Name:\tapp" ∷ cpus_line allowed ∷ codes "Mems_allowed:\t1" ∷ []

abbrev status_fs : FileSystem
status_fs name = some (file_of status_lines)

status_lines_fit : are_lines 4095 status_lines ≡ true
unfolding to_string
status_lines_fit = ground arith

other_name : starts_with cpus_key (codes "Name:\tapp" ++ b'\n' ∷ []) ≡ false
unfolding starts_with
other_name = refl

other_mems : starts_with cpus_key (codes "Mems_allowed:\t1" ++ b'\n' ∷ []) ≡ false
unfolding starts_with
other_mems = refl

parse-get_cpus_allowed_example :
    parse_discrete_values (get_cpus_allowed status_fs (codes "/proc/self/status"))
    ≡ ok (expand_all allowed)
parse-get_cpus_allowed_example =
    parse-get_cpus_allowed status_fs (codes "/proc/self/status") (codes "Name:\tapp" ∷ [])
      (codes "Mems_allowed:\t1" ∷ []) allowed refl
      (are_lines-All 4095 status_lines status_lines_fit) (other_name, tt) (other_mems, tt)
      ((omega arith, omega arith), (omega arith, tt))

-- The words of a line of stat behind the name and the state.
abbrev more : List Text
more = replicate 36 (codes "0")

abbrev plain_words : List Text
plain_words = codes "101" ∷ codes "(app)" ∷ codes "S" ∷ more

abbrev tmux_words : List Text
tmux_words = codes "101" ∷ (b'(' ∷ codes "tmux:") ∷ (codes "server" ++ b')' ∷ []) ∷ codes "S" ∷ more

abbrev file_with : List Text → FileSystem
file_with words name = some (file_of (spaced words (codes "17") ∷ []))

get_thread_stat_shifted_example :
    (f : Fields) × (get_thread_stat (file_with tmux_words) (codes "stat") ≡ ok f)
    × (find (codes "state") f ≡ some (codes "server" ++ b')' ∷ []))
get_thread_stat_shifted_example =
    get_thread_stat_shifted (file_with tmux_words) (codes "stat") (codes "101") (codes "tmux:")
      (codes "server") (codes "S") more (codes "17") refl
      (lacks-Lacks b'\n' (spaced tmux_words (codes "17")) refl, omega arith)
      (all_lack-All b' ' tmux_words refl) (lacks-Lacks b' ' (codes "17") refl) (omega arith)

abbrev times : ℕ → CpuTimes
times id = record {
  id = id;
  user = 500;
  nice = 7;
  system = 60;
  idle = 9000;
  iowait = 4;
  irq = 2;
  softirq = 3;
  steal = 1;
  guest = 20;
  guest_nice = 5;
}

times_counters : (id : ℕ) → IsCounter (times id)
times_counters id = record {
  user_fits = omega arith;
  nice_fits = omega arith;
  system_fits = omega arith;
  idle_fits = omega arith;
  iowait_fits = omega arith;
  irq_fits = omega arith;
  softirq_fits = omega arith;
  steal_fits = omega arith;
  guest_fits = omega arith;
  guest_nice_fits = omega arith;
}

abbrev both : List CpuTimes
both = times 0 ∷ times 1 ∷ []

abbrev stat_lines : List Text
stat_lines = (codes "cpu " ++ codes " 1 2 3") ∷ map show_times both

stat_lines_fit : are_lines 126 stat_lines ≡ true
unfolding to_string
stat_lines_fit = ground arith

-- The line of the interrupts has some thousand bytes.
abbrev interrupts : ℕ → Text
interrupts zero = b'\n' ∷ codes "ctxt 88\n"
interrupts (suc n) = b' ' ∷ b'0' ∷ interrupts n

abbrev other_lines : Text
other_lines = codes "intr 8123" ++ interrupts 700

no_cpu : starts_with (codes "cpu") other_lines ≡ false
unfolding starts_with
no_cpu = refl

abbrev stat_fs : FileSystem
stat_fs name = some (file_of stat_lines ++ other_lines)

parse_proc_stat-show_times_example : parse_proc_stat stat_fs ≡ ok (map fields_of both)
parse_proc_stat-show_times_example =
    parse_proc_stat-show_times stat_fs (codes " 1 2 3") both other_lines refl
      (are_lines-All 126 stat_lines stat_lines_fit) (times_counters 0, (times_counters 1, tt))
      no_cpu

fields_of_total_example : find (codes "total_time") (fields_of (times 0)) ≡ some (print_whole 9577)
fields_of_total_example =
    fields_of_total (times 0) (omega arith) (omega arith) (omega arith) (omega arith) (omega arith)
