-- ===== src/Software/Process/Report.antt =====
-- src/software.h, class `Process`: the texts that it prints. `snprintf(buffer, 1024, …)` keeps 1023
-- bytes; `mpi` says whether ZeroSum is built with MPI.
use zerosum.Base.{ℕ, suc, Bool, [], ◌∷◌, ◌++◌, take, drop, length, ltb, if◌then◌else◌}
use zerosum.Base.Int.{ℤ, pos, negsuc, of_u32}
use zerosum.Floats.{Floats}
use zerosum.Hardware.Node.{ComputeNode}
use zerosum.Hardware.Node.Report as NodeReport
use zerosum.Software.Lwp.{Lwp}
use zerosum.Software.Lwp.Report.{print_d, to_string_lwp}
use zerosum.Software.Lwp.Report as LwpReport
use zerosum.Software.Process.{Process, Calls}
use zerosum.StdMap.{Map}
use zerosum.Text.{Text, codes, to_string, to_string_ℤ, pad_left, Result, ok, ◌>>=◌}
use zerosum.Utils.CpuList.{set_to_string}

-- `%03d`: the sign counts.
unfoldable pub print_03 : ℤ → Text
print_03 (pos n) = pad_left 3 b'0' (to_string n)
print_03 (negsuc n) = b'-' ∷ pad_left 2 b'0' (to_string (suc n))

abbrev pub print_rank : ℕ → Text
print_rank n = print_03 (of_u32 n)

environment_lines : Map Text Text → Text
environment_lines [] = []
environment_lines ((name, value) ∷ env) =
    name ++ codes " = " ++ value ++ b'\n' ∷ environment_lines env

unfoldable pub sent_lines : Calls → Text
sent_lines [] = []
sent_lines ((dest, (calls, bytes)) ∷ m) =
    codes "Sent "
    ++ to_string bytes
    ++ codes " bytes to rank "
    ++ to_string_ℤ dest
    ++ codes " in "
    ++ to_string calls
    ++ codes " calls\n"
    ++ sent_lines m

unfoldable pub recv_lines : Calls → Text
recv_lines [] = []
recv_lines ((source, (calls, bytes)) ∷ m) =
    codes "Received "
    ++ to_string bytes
    ++ codes " bytes from rank "
    ++ to_string_ℤ source
    ++ codes " in "
    ++ to_string calls
    ++ codes " calls\n"
    ++ recv_lines m

unfoldable pub traffic : Bool → Process → Text
unfolding sent_lines recv_lines
traffic mpi p =
    if mpi
    then codes "\nP2P Communication Summary:\n"
      ++ sent_lines p.sent_bytes
      ++ recv_lines p.recv_bytes
    else []

-- `toLog` and `toString` print the same.
unfoldable pub to_log : Bool → Text → Process → Text
unfolding environment_lines traffic print_03
to_log mpi host p =
    take 1023 (
      codes "MPI "
      ++ print_rank p.rank
      ++ codes " - SEC 0 - Node "
      ++ host
      ++ codes " - PID "
      ++ print_d p.id
      ++ codes "\n")
    ++ take 1023 (
        codes "MPI "
        ++ print_rank p.rank
        ++ codes " - SEC 1 - Node "
        ++ host
        ++ codes " - CPUs allowed: ["
        ++ set_to_string p.hwthreads
        ++ codes "]\n")
    ++ environment_lines p.environment
    ++ traffic mpi p
    ++ (if mpi then b'\n' ∷ [] else [])

thread_lines : Bool → Map ℕ Lwp → Result Text
thread_lines shutdown [] = ok []
thread_lines shutdown ((tid, lwp) ∷ threads) = do
  line ← to_string_lwp shutdown lwp
  rest ← thread_lines shutdown threads
  ok (line ++ rest)

-- `nthreads` is the static counter: threads in front of it have been printed. The loop runs where
-- the counter is below the number of threads.
unfoldable pub log_threads : Bool → ℕ → Process → Result (Text × ℕ)
unfolding thread_lines
log_threads shutdown nthreads p =
    let seen = if shutdown then 0 else nthreads in
    let head = if shutdown then codes "\n\n\t *** Final thread summary: *** \n\n" else [] in
    let total = length p.threads in
    if ltb seen total
    then (do lines ← thread_lines shutdown (drop seen p.threads); ok (head ++ lines, total))
    else ok (head, total)

module _ (fl : Floats) where
  thread_summaries : Map ℕ Lwp → Result Text
  thread_summaries [] = ok []
  thread_summaries ((tid, lwp) ∷ threads) = do
    line ← LwpReport.get_summary fl lwp
    rest ← thread_summaries threads
    ok (line ++ b'\n' ∷ rest)

  -- The build without `USE_HWLOC`.
  unfoldable pub get_summary : Bool → Bool → ComputeNode → Process → Result Text
  unfolding traffic print_03 thread_summaries
  get_summary mpi details node p =
      if details
      then (do
        lwps ← thread_summaries p.threads
        hardware ← NodeReport.get_summary fl p.hwthreads node
        ok (
            codes "\nProcess Summary:\n"
            ++ take 1023 (
                codes "MPI "
                ++ print_rank p.rank
                ++ codes " - PID "
                ++ print_d p.id
                ++ codes " - Node "
                ++ node.name
                ++ codes " - CPUs allowed: ["
                ++ set_to_string p.hwthreads
                ++ codes "]\n")
            ++ codes "\nLWP (thread) Summary:\n"
            ++ lwps
            ++ hardware
            ++ traffic mpi p))
      else ok (
          take 1023 (
            codes "PID "
            ++ print_d p.id
            ++ codes " - "
            ++ p.executable
            ++ codes " - CPUs allowed: ["
            ++ set_to_string p.hwthreads
            ++ codes "]\n")
          ++ traffic mpi p)
