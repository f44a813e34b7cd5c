-- ===== src/Session/Start.antt =====
-- src/zerosum.cpp, the constructor `ZeroSum::ZeroSum`, in the build with OpenMP and without its tool interface.
-- The handlers of signals are another state (Signals). The instance is static, so that what no
-- constructor sets is zero.
use zerosum.Base.{
  ℕ, ◌≡◌, refl, ap, sym, Bool, false, List, [], ◌∷◌, Option, if◌then◌else◌, Bool-cases, inl, inr,
}
use zerosum.Cray.{CrayCounters}
use zerosum.Hardware.Node.{ComputeNode, update_fields}
use zerosum.Monitor.OpenMp.{thread_begin, get_openmp}
use zerosum.Monitor.Others.{get_proc_status}
use zerosum.Session.{Session, Config, unopened}
use zerosum.Software.Process.{Process}
use zerosum.Text.{Text, Result, ok, ◌>>=◌, Result-cases, ok_inj, err_ok}
use zerosum.Utils.CpuList.{get_affinity_list}
use zerosum.Utils.Files.{FileSystem}
use zerosum.Utils.Running.{Fields}
use zerosum.Utils.ProcStat.{parse_proc_stat}

abbrev pub zero_node : ComputeNode
zero_node = record {
  name = [];
  ncpus = 0;
  hw_threads = [];
  gpus = [];
  do_details = false;
  stat_fields = [];
  steps = [];
}

-- What the calls of the constructor answer: the thread and the process, the files, the names in /proc,
-- whether `ZS_USE_OPENMP` is set, and the masks and the threads of the parallel region.
pub record Launch : Type 0 where
  pub tid : ℕ
  pub pid : ℕ
  pub files : FileSystem
  pub names : Option (List Text)
  pub use_openmp : Bool
  pub is_set : ℕ → ℕ → Bool
  pub lwps : List ℕ

-- The members as they are before the asynchronous thread starts.
abbrev pub session_of : ℕ → ComputeNode → Process → CrayCounters → Session
session_of step node process cray = record {
  done = false;
  step = step;
  log = unopened;
  node = node;
  threads = record { process = process; prior_minflt = []; quiet = 0 };
  nthreads = 0;
  cray = cray;
  signals = 0;
}

-- The process, the others on the node, the node, and the step.
unfoldable pub initialize : Config → Launch → CrayCounters → Result (Session × List Process)
unfolding get_proc_status get_openmp
initialize c l cray = do
  (process, others) ← get_proc_status l.files l.tid l.pid 0 c.details l.names
  stat ← parse_proc_stat l.files
  node ← update_fields stat 0 zero_node
  (if l.use_openmp
      then (do
        process' ← get_openmp l.files c.monitor.add_new node.ncpus l.is_set l.lwps process
        ok (session_of 1 node process' cray, others))
      else ok (session_of 0 node process cray, others))

thread_begin-blind :
    (files : FileSystem) (add_new : Bool) (f g : ℕ → ℕ → Bool) (lwp : ℕ) (p : Process)
    → thread_begin files add_new 0 f lwp p ≡ thread_begin files add_new 0 g lwp p
unfolding thread_begin get_affinity_list
thread_begin-blind files add_new f g lwp p = refl

get_openmp-blind :
    (files : FileSystem) (add_new : Bool) (f g : ℕ → ℕ → Bool) (lwps : List ℕ) (p : Process)
    → get_openmp files add_new 0 f lwps p ≡ get_openmp files add_new 0 g lwps p
unfolding get_openmp
get_openmp-blind files add_new f g [] p = refl
get_openmp-blind files add_new f g (lwp ∷ lwps) p =
    elim (Result-cases (thread_begin files add_new 0 g lwp p)) [
      | inl (p', e) ↦
          rw (thread_begin-blind files add_new f g lwp p, e)
            (get_openmp-blind files add_new f g lwps p')
      | inr (x, e) ↦ rw (thread_begin-blind files add_new f g lwp p, e) refl
    ]

update_zero_node : (stat : List Fields) → update_fields stat 0 zero_node ≡ ok zero_node
unfolding update_fields
update_zero_node stat = refl

-- Where the constructor does not throw, the node is still the one without hardware threads, so that the counters
-- of /proc/stat that it has read are in no series; and the masks of the threads of OpenMP have no effect,
-- since each is read for no hardware thread at all.
pub initialize_blind :
    (c : Config) (l : Launch) (cray : CrayCounters) (is_set : ℕ → ℕ → Bool)
    → (initialize c l cray ≡ initialize c (record l { is_set = is_set }) cray)
      × ((s : Session) (others : List Process)
          → initialize c l cray ≡ ok (s, others)
          → s.node ≡ zero_node)
unfolding initialize
initialize_blind c l cray is_set =
    elim (Result-cases (get_proc_status l.files l.tid l.pid 0 c.details l.names)) [
      | inl ((process, others), a) ↦ elim (Result-cases (parse_proc_stat l.files)) [
        | inl (stat, b) ↦ elim (Bool-cases l.use_openmp) [
          | inl d ↦
              let same =
                get_openmp-blind l.files c.monitor.add_new l.is_set is_set l.lwps process in
              elim (Result-cases (get_openmp l.files c.monitor.add_new 0 is_set l.lwps process)) [
                | inl (p, g) ↦ (
                  rw (a, b, d, update_zero_node stat, same, g) refl,
                  λ s others' e. sym (
                      ap (λ r. r.0.node)
                        (ok_inj (rw (a, b, d, update_zero_node stat, same, g) at e))),
                )
                | inr (x, g) ↦ (
                  rw (a, b, d, update_zero_node stat, same, g) refl,
                  λ s others' e.
                      absurd (err_ok (rw (a, b, d, update_zero_node stat, same, g) at e)),
                )
              ]
          | inr d ↦ (
            rw (a, b, d, update_zero_node stat) refl,
            λ s others' e.
                sym (ap (λ r. r.0.node) (ok_inj (rw (a, b, d, update_zero_node stat) at e))),
          )
        ]
        | inr (x, b) ↦ (rw (a, b) refl, λ s others' e. absurd (err_ok (rw (a, b) at e)))
      ]
      | inr (x, a) ↦ (rw a refl, λ s others' e. absurd (err_ok (rw a at e)))
    ]
