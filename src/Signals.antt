-- ===== src/Signals.antt =====
-- src/error_handling.cpp: the handlers of signals, and what the handler does to the state of `ZeroSum`.
-- `sigaction` is a call of the system, a parameter here; so are the texts of the frames, of the signal
-- and of the error. What goes to the terminal is left out, and so is `MPI_Abort`: it stands under
-- `USE_MPI`, which no build file of the repository defines.
pub mod Saved
pub mod Ended
use zerosum.Base.{
  ℕ, Bool, true, false, List, [], ◌∷◌, ◌++◌, Option, none, some, ◌==◌, if◌then◌else◌,
}
use zerosum.Session.{write, log_line}
use zerosum.Session.Worker.{System}
use zerosum.StdMap.{nat_ord, Map, assign, find_or}
use zerosum.Text.{Text, codes, to_string}

-- `struct sigaction` by what it calls: ZeroSum, or what another part of the program has set. The struct
-- that is cleared is `foreign 0`.
pub data Handler : Type 0 where
  zero_sum : Handler
  foreign : ℕ → Handler

-- `mysignals`, with the numbers of Linux: SIGHUP, SIGINT, SIGQUIT, SIGILL, SIGIOT, SIGBUS, SIGFPE, SIGKILL,
-- SIGSEGV, SIGABRT, SIGTERM, SIGXCPU, SIGXFSZ. Two of them have one number.
abbrev pub my_signals : List ℕ
my_signals = 1 ∷ 2 ∷ 3 ∷ 4 ∷ 6 ∷ 7 ∷ 8 ∷ 9 ∷ 11 ∷ 6 ∷ 15 ∷ 24 ∷ 25 ∷ []

-- The static variables `once` and `other_handlers`.
pub record Registry : Type 0 where
  pub once : Bool
  pub other_handlers : Map ℕ Handler

module _ {Table : Type 0} (sigaction : ℕ → Handler → Table → Option Handler × Table) where
  -- The loop: where the call fails, `old` is what it was before.
  unfoldable pub register_loop : List ℕ → Handler → Map ℕ Handler → Table → Map ℕ Handler × Table
  register_loop [] old others t = (others, t)
  register_loop (s ∷ signals) old others t =
      let (answer, t') = sigaction s zero_sum t in
      let old' : Handler = elim answer [ none ↦ old | some h ↦ h ] in
      register_loop signals old' (assign s old' others) t'

  unfoldable pub register_signal_handler : Registry → Table → Registry × Table
  unfolding register_loop
  register_signal_handler r t =
      if r.once
      then (r, t)
      else (let (others, t') = register_loop my_signals (foreign 0) r.other_handlers t in
          (record { once = true; other_handlers = others }, t'))

-- What a signal comes with: its number and text, `errno` at the start of the handler with its text, and
-- where the message is put together, and the frames.
pub record Crash : Type 0 where
  pub sig : ℕ
  pub signal_text : Text
  pub errnum : ℕ
  pub error_text : Text
  pub errno : ℕ
  pub frames : List Text

abbrev pub frame_lines : List Text → Text
frame_lines [] = []
frame_lines (f ∷ frames) = f ++ b'\n' ∷ frame_lines frames

-- The first frame is left out.
abbrev pub backtrace_text : List Text → Text
backtrace_text frames =
    codes "\nBACKTRACE (backtrace_symbols):\n\n"
    ++ elim frames [ [] ↦ [] | ◌∷◌ f rest ↦ frame_lines rest ]
    ++ codes "\n"

abbrev pub signal_message : ℕ → Crash → Text
signal_message rank c =
    codes "\n********* Node "
    ++ to_string rank
    ++ codes " "
    ++ c.signal_text
    ++ codes " *********\n\n"
    ++ (if c.errnum == 0
        then []
        else codes "\nValue of errno: "
          ++ to_string c.errno
          ++ codes "\n\nError string: "
          ++ c.error_text)
    ++ codes "\n***************************************\n\n\n"

-- A call has come back, has ended the program with a code, or goes on in the handler of another part.
pub data Outcome : Type 0 where
  returned : System → Outcome
  exited : ℕ → System → Outcome
  continued : Handler → System → Outcome

-- `handleCrash`
unfoldable pub handle_crash : System → System
handle_crash z = record z { do_shutdown = false }

unfoldable pub custom_signal_handler : Crash → System → Outcome
unfolding handle_crash
custom_signal_handler c z =
    let rank = z.session.threads.process.rank in
    let s1 = log_line (backtrace_text c.frames) z.session in
    let s2 = log_line (signal_message rank c) s1 in
    exited c.sig (handle_crash (record z { session = s2 }))

unfoldable pub custom_signal_handler_advanced : Registry → Crash → System → Outcome
unfolding custom_signal_handler
custom_signal_handler_advanced r c z = elim (custom_signal_handler c z) [
  | returned z' ↦ continued (find_or (foreign 0) c.sig r.other_handlers) z'
  | exited code z' ↦ exited code z'
  | continued h z' ↦ continued h z'
]
