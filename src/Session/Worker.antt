-- ===== src/Session/Worker.antt =====
-- src/zerosum.cpp: `threadedFunction` as steps of the asynchronous thread, `shutdown` and `handleCrash`
-- as steps of the others, and their interleavings. What throws in a thread ends the program, so there
-- is no step behind it.
use zerosum.Base.{ℕ, ◌≡◌, Bool, true, false, ◌&&◌, not, if◌then◌else◌}
use zerosum.Base.Int.{ℤ}
use zerosum.Floats.{Floats}
use zerosum.Session.{
  Session, Config, Input, write, is_open, finalize_log, abort, do_periodic, do_once,
}
use zerosum.Software.Process.{Process, record_sent_bytes, record_recv_bytes}
use zerosum.Software.Process.Report.{log_threads}
use zerosum.Text.{Result, ok, ◌>>=◌}

-- Where the asynchronous thread stands: at the test of the outer loop, of the inner one, before the
-- sample, in the wait, behind it, and at the end. The flag is `initialized`.
pub data Worker : Type 0 where
  testing trying sampling waiting checking : Bool → Worker
  ended : Worker

-- A thread that calls `shutdown`: before it, in `join`, before the last `finalizeLog`, and behind.
pub data Caller : Type 0 where
  active joining finishing stopped : Caller

pub record System : Type 0 where
  pub working : Bool
  pub do_shutdown : Bool
  pub worker : Worker
  pub caller : Caller
  pub session : Session

abbrev pub with_process : (Process → Process) → System → System
with_process f z = record z {
  session = record z.session {
    threads = record z.session.threads { process = f z.session.threads.process };
  };
}

module _ (fl : Floats) where
  -- The sample and `process.logThreads()`.
  unfoldable pub take_sample : Config → Input → Session → Result Session
  unfolding do_periodic
  take_sample c i s = do
    s' ← do_periodic fl c i s
    (if is_open s'.log
        then (do
          (text, n) ← log_threads false s'.nthreads s'.threads.process
          ok (record s' { log = write text s'.log; nthreads = n }))
        else ok s')

  unfoldable pub advance : Bool → Config → Input → Worker → Session → Result (Worker × Session)
  unfolding take_sample abort do_once
  advance working c i (testing b) s = ok (if working then trying b else ended, s)
  advance working c i (trying b) s =
      let (tried, s') = do_once c i s in
      ok (if not b && working then (trying tried, s') else (sampling b, s))
  advance working c i (sampling b) s =
      if b then (do s' ← take_sample c i s; ok (waiting b, s')) else ok (waiting b, s)
  advance working c i (waiting b) s =
      ok (if working then (if i.timed_out then checking b else waiting b) else ended, s)
  advance working c i (checking b) s =
      if i.expired then (do s' ← abort fl s; ok (testing b, s')) else ok (testing b, s)
  advance working c i ended s = ok (ended, s)

  -- `join` goes on where the asynchronous thread has ended. A crash and the traffic come at any time.
  pub data Step (c : Config) : System → System → Type 0 where
    works :
        (i : Input) (z : System) (w : Worker) (s : Session)
        → advance z.working c i z.worker z.session ≡ ok (w, s)
        → Step c z (record z { worker = w; session = s })
    stops :
        (z : System)
        → z.caller ≡ active
        → z.do_shutdown ≡ true
        → Step c z (record z { working = false; caller = joining })
    returns :
        (z : System)
        → z.caller ≡ active
        → z.do_shutdown ≡ false
        → Step c z (record z { caller = stopped })
    joins :
        (z : System)
        → z.caller ≡ joining
        → z.worker ≡ ended
        → Step c z (record z { caller = finishing })
    finishes :
        (z : System) (s : Session)
        → z.caller ≡ finishing
        → finalize_log fl z.session ≡ ok s
        → Step c z (record z { caller = stopped; session = s })
    crashes : (z : System) → Step c z (record z { do_shutdown = false })
    sends :
        (z : System) (rank : ℤ) (bytes : ℕ)
        → Step c z (with_process (record_sent_bytes rank bytes) z)
    receives :
        (z : System) (rank : ℤ) (bytes : ℕ)
        → Step c z (with_process (record_recv_bytes rank bytes) z)

  pub data Reach (c : Config) (z : System) : System → Type 0 where
    here : Reach c z z
    next : {u v : System} → Reach c z u → Step c u v → Reach c z v
