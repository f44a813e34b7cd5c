-- ===== src/Tests/Sessions.antt =====
-- A run of the asynchronous thread that is stopped.
use zerosum.Base.{◌+◌, ◌≤◌, ◌≡◌, ◌⊎◌, refl, true, false, [], ◌∷◌, none}
use zerosum.Base.Int.{pos}
use zerosum.Cray.{read_counters}
use zerosum.Hardware.Node
use zerosum.Hardware.Node.{update_fields}
use zerosum.Hardware.Node.Report.{report_memory, to_string_node}
use zerosum.Session.{Log, opened, unopened, closed, Session, Config, Input}
use zerosum.Session.Closed.{closed_stays}
use zerosum.Session.Ends.{run_worker, CanThrow, worker_ends}
use zerosum.Session.Worker.{
  with_process, Worker, testing, trying, sampling, waiting, checking, ended, active, System, works,
  sends, Reach, here, next, advance,
}
use zerosum.Software.Process
use zerosum.Software.Process.{record_sent_bytes}
use zerosum.Software.Process.Report.{log_threads}
use zerosum.Tests.Objects.{whole}
use zerosum.Text.{Text, codes, to_string, Error, ok, err}
use zerosum.Utils.Files.{FileSystem}
use zerosum.Utils.Filename.{log_filename}
use zerosum.Utils.ProcStat.{parse_proc_stat, parse_node_info}
use zerosum.Stats.{add_all_plain, add_all_padded}
use zerosum.StdMap.{insert}
use zerosum.Software.Lwp
use zerosum.Software.Lwp.Report.{to_string_lwp}

abbrev pub config : Config
config = record {
  monitor = record { detect = true; duration = pos 5; add_new = false; async_tid = 101 };
  details = false;
  enable_log = true;
  period = 1;
  monitor_log = false;
  monitor_timeout = pos 300;
}

abbrev no_files : FileSystem
no_files name = none

abbrev input : Input
input = record {
  ready = true;
  identity = record {
    use_pid = false;
    max_pid = 4194304;
    pid = 100;
    hostname = codes "node1";
    size = 2;
    rank = 1;
  };
  ncpus = 0;
  files = no_files;
  tasks = none;
  counters = λ tid. (0, 0);
  stop_file = false;
  log_age = none;
  timed_out = true;
  expired = true;
}

abbrev pub session : Session
session = record {
  done = false;
  step = 0;
  log = unopened;
  node = Node.new 0 (codes "node1") false;
  threads = record { process = Process.new 100 100 0 1 [] []; prior_minflt = []; quiet = 0 };
  nthreads = 0;
  cray = record { supported = false; previous = []; generation = 0; freshness = 0; open_files = 0 };
  signals = 0;
}

worker_ends_example :
    let r = run_worker whole false config (input ∷ (input ∷ (input ∷ []))) (trying false) session in
    ((x : Error) × (r ≡ err x) × CanThrow whole config session x)
    ⊎ ((s' : Session) × (r ≡ ok (ended, s')) × (s'.step ≤ session.step + 1))
worker_ends_example = worker_ends whole config input input input [] (trying false) session

abbrev begun : System
begun = record {
  working = true;
  do_shutdown = true;
  worker = trying false;
  caller = active;
  session = session;
}

-- The state behind one step of the asynchronous thread.
abbrev after : Worker → Session → Session
unfolding advance
after w s = elim (advance whole true config input w s) [ ok (w', s') ↦ s' | err x ↦ s ]

-- The log is opened, the sample is taken, and after the time is over the log is closed.
abbrev opening : Session
opening = after (trying false) session

abbrev sampled : Session
sampled = after (sampling true) opening

abbrev closing : Session
closing = after (checking true) sampled

abbrev placed : Worker → Session → System
placed w s = record begun { worker = w; session = s }

run_to_close : Reach whole config begun (placed (testing true) closing)
unfolding advance parse_proc_stat update_fields Node.update_node_fields Node.new read_counters
    report_memory add_all_plain parse_node_info log_threads Process.new insert to_string_lwp
    Lwp.get_fields Lwp.new add_all_padded to_string_node
run_to_close =
    next
      (next
        (next
          (next (next here (works input begun (trying true) opening refl))
            (works input (placed (trying true) opening) (sampling true) opening refl))
          (works input (placed (sampling true) opening) (waiting true) sampled refl))
        (works input (placed (waiting true) sampled) (checking true) sampled refl))
      (works input (placed (checking true) sampled) (testing true) closing refl)

abbrev content_of : Log → Text
content_of unopened = []
content_of (opened name content) = content
content_of (closed name content) = content

closing_closed : closing.log ≡ closed (codes "zs.1.log") (content_of closing.log)
unfolding advance parse_proc_stat update_fields Node.update_node_fields Node.new read_counters
    report_memory add_all_plain parse_node_info log_threads Process.new insert to_string_lwp
    Lwp.get_fields Lwp.new add_all_padded to_string_node log_filename to_string
closing_closed = refl

-- A message is sent behind the end of the log.
abbrev later : System
later = with_process (record_sent_bytes (pos 0) 64) (placed (testing true) closing)

closed_stays_example : later.session.log ≡ closed (codes "zs.1.log") (content_of closing.log)
closed_stays_example =
    closed_stays whole config begun (placed (testing true) closing) later (codes "zs.1.log")
      (content_of closing.log) refl run_to_close closing_closed
      (next here (sends (placed (testing true) closing) (pos 0) 64))
