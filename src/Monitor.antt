-- ===== src/Monitor.antt =====
-- src/zerosum_pthreads.cpp, `ZeroSum::getpthreads`: one sample of the threads of the process. The
-- static variables are a state that is passed along. The list that the operating system gives for
-- a thread (`getAffinityList`) is computed there as well and not used.
pub mod Deadlock
pub mod Seen
pub mod Environment
pub mod Others
pub mod Counters
pub mod OpenMp
use zerosum.Base.{
  ℕ, suc, ◌+◌, Bool, true, false, List, [], ◌∷◌, ◌++◌, Option, none, some, ltb, leb, ◌==◌,
  if◌then◌else◌,
}
use zerosum.Base.Int.{ℤ, pos, negsuc, to_u32}
use zerosum.Software.Lwp.{ThreadType, zero_sum, other}
use zerosum.Software.Process.{Process, add}
use zerosum.StdMap.{text_ord, Map, insert}
use zerosum.Text.{Text, codes, atol, to_string, starts_with, Result, ok, err, ◌>>=◌}
use zerosum.Utils.CpuList.{parse_discrete_values}
use zerosum.Utils.Files.{FileSystem}
use zerosum.Utils.ProcSelf.{get_cpus_allowed, get_thread_stat, get_thread_status}
use zerosum.Utils.Running.{Fields, is_running}

-- `ZS_DETECT_DEADLOCK`, `ZS_DEADLOCK_DURATION`, `ZS_ADD_NEW_HWT`, and the thread of ZeroSum.
pub record Settings : Type 0 where
  pub detect : Bool
  pub duration : ℤ
  pub add_new : Bool
  pub async_tid : ℕ

-- What a sample reads: the files, the names in the directory of the threads, the calls of lock and
-- of trylock that a thread has made, and the step.
pub record World : Type 0 where
  pub files : FileSystem
  pub tasks : Option (List Text)
  pub counters : ℕ → ℕ × ℕ
  pub step : ℕ

pub record Sample : Type 0 where
  pub process : Process
  pub prior_minflt : Map Text ℕ
  pub running : ℕ

pub record State : Type 0 where
  pub process : Process
  pub prior_minflt : Map Text ℕ
  pub quiet : ℕ

abbrev pub lwp_of : Text → ℕ
lwp_of name = to_u32 (atol name)

-- `atol(ep->d_name) == process.id`
abbrev pub is_id : ℤ → ℕ → Bool
is_id (pos n) id = n == id
is_id (negsuc n) id = false

abbrev pub is_hidden : Text → Bool
is_hidden name = starts_with (codes ".") name

abbrev pub type_of : Settings → ℕ → ThreadType
type_of settings lwp = if lwp == settings.async_tid then zero_sum else other

abbrev pub add_calls : ℕ × ℕ → Fields → Fields
add_calls (locks, trylocks) fields =
    insert (codes "pthread trylock calls") (to_string trylocks)
      (insert (codes "pthread lock calls") (to_string locks) fields)

abbrev pub stat_file : Text → Text
stat_file name = codes "/proc/self/task/" ++ name ++ codes "/stat"

abbrev pub status_file : Text → Text
status_file name = stat_file name ++ codes "us"

-- What the body does with the fields and the list of CPUs that it has read.
unfoldable pub take_thread : Settings → World → Text → Fields → List ℕ → Sample → Sample
take_thread settings w name fields allowed s =
    let lwp = lwp_of name in
    let v =
      is_running settings.detect fields name (is_id (atol name) s.process.id) s.prior_minflt in
    let all = add_calls (w.counters lwp) (get_thread_status w.files (status_file name) v.fields) in
    record {
      process = add settings.add_new lwp allowed all w.step (type_of settings lwp) s.process;
      prior_minflt = v.prior_minflt;
      running = if v.running then s.running + 1 else s.running;
    }

-- The body of the loop for a name that is not hidden.
unfoldable pub sample_thread : Settings → World → Text → Sample → Result Sample
unfolding take_thread
sample_thread settings w name s = do
  fields ← get_thread_stat w.files (stat_file name)
  allowed ← parse_discrete_values (get_cpus_allowed w.files (status_file name))
  ok (take_thread settings w name fields allowed s)

unfoldable pub sample_threads : Settings → World → List Text → Sample → Result Sample
unfolding sample_thread
sample_threads settings w [] s = ok s
sample_threads settings w (name ∷ names) s =
    if is_hidden name
    then sample_threads settings w names s
    else (do s' ← sample_thread settings w name s; sample_threads settings w names s')

abbrev pub is_reached : ℤ → ℕ → Bool
is_reached (pos d) quiet = leb d quiet
is_reached (negsuc d) quiet = true

-- The new value of `deadlock_detected_seconds`, and whether the process is signalled.
unfoldable pub watch : Bool → ℤ → ℕ → ℕ → ℕ × Bool
watch detect duration running quiet =
    if detect
    then (let next = if leb running 1 then quiet + 1 else 0 in (next, is_reached duration next))
    else (quiet, false)

unfoldable pub get_pthreads : Settings → World → State → Result (State × Bool)
unfolding sample_threads watch
get_pthreads settings w s = elim w.tasks [
  | none ↦ ok (s, false)
  | some names ↦ do
    t ←
        sample_threads settings w names
          (record { process = s.process; prior_minflt = s.prior_minflt; running = 0 })
    let (quiet, signalled) = watch settings.detect settings.duration t.running s.quiet
    ok (record { process = t.process; prior_minflt = t.prior_minflt; quiet = quiet }, signalled)
]
