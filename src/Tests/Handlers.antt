-- ===== src/Tests/Handlers.antt =====
-- A table of handlers, a signal in the middle of a run, and what stands around `main`.
use zerosum.Base.{
  ℕ, ◌≡◌, refl, ◌&&◌, ◌||◌, not, ltb, Bool, true, false, List, [], ◌∷◌, Option, some, none, ◌==◌,
  if◌then◌else◌,
}
use zerosum.Preload.{libc_start_main, started, failed, runs_main}
use zerosum.Preload.Scripts.{
  run_all, is_parse, is_shutdown, is_main, how_many, any_monitored, run_all_lem,
}
use zerosum.Session.{write, opened}
use zerosum.Session.Worker.{active, System, sampling, Reach}
use zerosum.Signals.{
  Handler, zero_sum, foreign, my_signals, Registry, register_signal_handler, Crash, exited,
  backtrace_text, signal_message, custom_signal_handler_advanced,
}
use zerosum.Signals.Ended.{IsSkipped, custom_signal_handler_advanced_ends}
use zerosum.Signals.Saved.{
  Laws, occurrences, saved_handler, installed_handler, register_signal_handler_lem,
}
use zerosum.Software.Process
use zerosum.StdMap.{nat_ord, find}
use zerosum.Tests.Objects.{whole}
use zerosum.Tests.Sessions.{config, session}
use zerosum.Text.{Text, codes, compare_text}

abbrev Handlers : Type 0
Handlers = ℕ → Handler

-- The numbers of signals but SIGKILL and SIGSTOP.
abbrev takes : ℕ → Bool
takes s = ltb 0 s && ltb s 65 && not (s == 9 || s == 19)

abbrev sigaction : ℕ → Handler → Handlers → Option Handler × Handlers
sigaction s h t =
    (if takes s then some (t s) else none, if takes s then (λ k. if k == s then h else t k) else t)

abbrev handler_of : Handlers → ℕ → Handler
handler_of t k = t k

sigaction-Laws : Laws sigaction takes handler_of
sigaction-Laws = record {
  answers = λ s h t n. rw n refl;
  fails = λ s h t n. rw n refl;
  installs = λ s h t k n. rw n refl;
}

-- Each signal has a handler of the program.
abbrev handlers : Handlers
handlers k = foreign k

abbrev registry : Registry
registry = record { once = false; other_handlers = [] }

register_signal_handler_lem_example :
    let (r', t') = register_signal_handler sigaction registry handlers in
    (t' 11 ≡ installed_handler (occurrences 11 my_signals) (foreign 11))
    × (find 11 r'.other_handlers
        ≡ saved_handler (occurrences 11 my_signals) (find 11 registry.other_handlers) (foreign 11))
    × (find 6 r'.other_handlers ≡ some zero_sum)
    × (register_signal_handler sigaction r' t' ≡ (r', t'))
register_signal_handler_lem_example =
    register_signal_handler_lem sigaction takes handler_of sigaction-Laws 11 registry handlers refl
      refl refl

abbrev fault : Crash
fault = record {
  sig = 11;
  signal_text = codes "Segmentation fault";
  errnum = 2;
  error_text = codes "No such file or directory";
  errno = 2;
  frames = codes "handler" ∷ codes "main" ∷ [];
}

abbrev running : System
running = record {
  working = true;
  do_shutdown = true;
  worker = sampling true;
  caller = active;
  session = record session { done = true; log = opened (codes "zs.1.log") [] };
}

custom_signal_handler_advanced_ends_example :
    (z' : System) × (custom_signal_handler_advanced registry fault running ≡ exited 11 z')
    × (z'.session.log
        ≡ write (signal_message 0 fault) (write (backtrace_text fault.frames) running.session.log))
    × ((v : System) → Reach whole config z' v → IsSkipped v)
unfolding Process.new
custom_signal_handler_advanced_ends_example =
    custom_signal_handler_advanced_ends whole registry fault config running refl

abbrev programs : List Text
programs = codes "/bin/bash" ∷ codes "./app" ∷ codes "tcsh" ∷ codes "./app" ∷ []

run_all_lem_example :
    (how_many is_main (run_all programs false) ≡ 4)
    × (how_many is_parse (run_all programs false) ≡ (if any_monitored programs then 1 else 0))
    × (how_many is_shutdown (run_all programs false) ≡ (if any_monitored programs then 1 else 0))
run_all_lem_example = run_all_lem programs

-- The first call starts the program and each later one fails.
start_twice :
    let (first, e) =
      libc_start_main true (codes "/bin/bash") (record { start = false; main = false }) in
    (first ≡ started (runs_main ∷ [])) × ((libc_start_main true (codes "./app") e).0 ≡ failed)
unfolding libc_start_main compare_text
start_twice = (refl, refl)
