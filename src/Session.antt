-- ===== src/Session.antt =====
-- src/zerosum.cpp: what the asynchronous thread does in one period, on the state of `ZeroSum`, in the
-- build with MPI and without hwloc, ZeroMQ, lm_sensors and a library for GPUs. `ZS_VERBOSE` is off.
-- What goes to the terminal is left out.
pub mod Pinned
pub mod Start
pub mod Worker
pub mod Kept
pub mod Closed
pub mod Ends
use zerosum.Base.{
  ℕ, ◌+◌, ◌*◌, Bool, true, false, List, [], ◌∷◌, ◌++◌, Option, none, some, ◌==◌, ltb, if◌then◌else◌,
}
use zerosum.Base.Int.{next_u32, ℤ, pos, negsuc, to_i32}
use zerosum.Cray.{CrayCounters, read_counters}
use zerosum.Floats.{Floats}
use zerosum.Hardware.Node
use zerosum.Hardware.Node.{ComputeNode, update_fields, update_node_fields}
use zerosum.Hardware.Node.Report.{report_memory, to_string_node}
use zerosum.Monitor.{Settings, World, State, get_pthreads}
use zerosum.Software.Process.{Process}
use zerosum.Software.Process.Report.{to_log, log_threads}
use zerosum.Text.{Text, codes, to_string, to_string_ℤ, Result, ok, err, ◌>>=◌}
use zerosum.Utils.Files.{FileSystem}
use zerosum.Utils.Filename.{Identity, log_filename}
use zerosum.Utils.ProcStat.{parse_proc_stat, parse_node_info}

-- The stream `logfile`, with its name and what has been written.
pub data Log : Type 0 where
  unopened : Log
  opened closed : (name content : Text) → Log

-- The members of `ZeroSum`, with `done` of `doOnce` and `nthreads` of `logThreads`, and the number of
-- signals that were sent.
pub record Session : Type 0 where
  pub done : Bool
  pub step : ℕ
  pub log : Log
  pub node : ComputeNode
  pub threads : State
  pub nthreads : ℕ
  pub cray : CrayCounters
  pub signals : ℕ

-- The settings: `ZS_DETAILS`, `ZS_ENABLE_LOG`, `ZS_PERIOD`, `ZS_MONITOR_LOG` with its timeout.
pub record Config : Type 0 where
  pub monitor : Settings
  pub details : Bool
  pub enable_log : Bool
  pub period : ℕ
  pub monitor_log : Bool
  pub monitor_timeout : ℤ

-- What the calls of one round answer: whether MPI is ready, with the rank and the size, the name of the
-- node and its number of hardware threads, the files, whether the stop file is there, the age of the
-- file that is watched, and the clock.
pub record Input : Type 0 where
  pub ready : Bool
  pub identity : Identity
  pub ncpus : ℕ
  pub files : FileSystem
  pub tasks : Option (List Text)
  pub counters : ℕ → ℕ × ℕ
  pub stop_file : Bool
  pub log_age : Option ℤ
  pub timed_out : Bool
  pub expired : Bool

-- `timeDifference > duration`
abbrev pub is_above : ℤ → ℤ → Bool
is_above (pos a) (pos b) = ltb b a
is_above (pos a) (negsuc b) = true
is_above (negsuc a) (pos b) = false
is_above (negsuc a) (negsuc b) = ltb a b

-- `logfile << …`, which has no effect on a stream that is not open.
abbrev pub write : Text → Log → Log
write text unopened = unopened
write text (opened name content) = opened name (content ++ text)
write text (closed name content) = closed name content

abbrev pub is_open : Log → Bool
is_open (opened name content) = true
is_open _ = false

abbrev pub close : Log → Log
close unopened = unopened
close (opened name content) = closed name content
close (closed name content) = closed name content

abbrev process_of : Session → Process
process_of s = s.threads.process

-- `process.toString()`
abbrev process_text : Session → Text
process_text s = to_log true s.node.name (process_of s)

abbrev pub log_line : Text → Session → Session
log_line text s = record s { log = write text s.log }

-- `pthread_kill(this->process.id, SIGQUIT)`
abbrev pub signal : Session → Session
signal s = record s { signals = s.signals + 1 }

module _ (fl : Floats) where
  unfoldable pub finalize_log : Session → Result Session
  finalize_log s =
      if is_open s.log
      then (do
        (threads, n) ← log_threads true s.nthreads (process_of s)
        hardware ← to_string_node fl (process_of s).hwthreads s.node
        ok (record s {
          log = close (write (threads ++ hardware ++ process_text s) s.log);
          nthreads = n;
        }))
      else ok s

  -- `finalizeLog` and the signal behind it.
  unfoldable pub abort : Session → Result Session
  unfolding finalize_log
  abort s = do s' ← finalize_log s; ok (signal s')

  -- The part about the log of the application.
  abbrev pub freshness : Config → ℤ → Session → Result Session
  freshness c age s =
      let noted =
        if (process_of s).rank == 0
        then log_line (codes "logfile time freshness: " ++ to_string_ℤ age ++ codes " seconds\n") s
        else s in
      if is_above age c.monitor_timeout then abort noted else ok noted

  unfoldable pub check_for_stop : Config → Input → Session → Result Session
  unfolding abort
  check_for_stop c i s = do
    s' ← if i.stop_file then abort s else ok s
    (if c.monitor_log
        then elim i.log_age [ none ↦ ok s' | some age ↦ freshness c age s' ]
        else ok s')

  -- What `getpthreads` writes about threads that do not run, with the counter behind the sample.
  abbrev pub quiet_line : Config → ℕ → Session → Session
  quiet_line c quiet s =
      if c.monitor.detect
      then (if quiet == 0
          then s
          else log_line
              (codes "All threads sleeping for "
                ++ to_string_ℤ (to_i32 (pos (quiet * c.period)))
                ++ codes " seconds...?\n")
              s)
      else s

  abbrev pub deadlock_lines : Config → Session → Session
  deadlock_lines c s =
      log_line
        (codes "Deadlock detected! Aborting!\nThread "
          ++ to_string c.monitor.async_tid
          ++ codes " signalling "
          ++ to_string (process_of s).id
          ++ codes "\n")
        s

  unfoldable pub sample : Config → Input → Session → Result Session
  unfolding get_pthreads abort
  sample c i s = elim i.tasks [
    | none ↦ ok s
    | some names ↦ do
      (threads, deadlock) ←
          get_pthreads c.monitor
            (record { files = i.files; tasks = i.tasks; counters = i.counters; step = s.step })
            s.threads
      let noted = quiet_line c threads.quiet (record s { threads = threads })
      if deadlock then abort (deadlock_lines c noted) else ok noted
  ]

  -- The updates of the node.
  unfoldable pub measure : Input → Session → Result Session
  measure i s = do
    stat ← parse_proc_stat i.files
    node ← update_fields stat s.step s.node
    (counters, cray) ← read_counters i.files s.cray
    ok (record s {
      node =
          update_node_fields counters s.step
            (update_node_fields (parse_node_info i.files) s.step node);
      cray = cray;
    })

  unfoldable pub do_periodic : Config → Input → Session → Result Session
  unfolding sample measure check_for_stop
  do_periodic c i s = do
    s1 ← sample c i (record s { step = next_u32 s.step })
    s2 ← measure i s1
    memory ← report_memory fl s2.node
    check_for_stop c i (log_line memory s2)

-- The rank, the size and the node are set before the log gets its name.
unfoldable pub do_once : Config → Input → Session → Bool × Session
do_once c i s =
    if s.done
    then (true, s)
    else if i.ready
    then (let process = record s.threads.process {
      rank = i.identity.rank;
      size = i.identity.size;
    } in
        let node = Node.new i.ncpus i.identity.hostname c.details in
        let log =
          if c.enable_log
          then opened (log_filename i.identity) (to_log true node.name process)
          else s.log in
        (
          true,
          record s {
            done = true;
            log = log;
            threads = record s.threads { process = process };
            node = update_node_fields (parse_node_info i.files) s.step node;
          },
        ))
    else (false, s)
