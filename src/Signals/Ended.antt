-- ===== src/Signals/Ended.antt =====
-- The state behind a signal that ZeroSum handles.
use zerosum.Base.{◌≡◌, refl, ◌⊎◌, inl, inr, arith, false}
use zerosum.Floats.{Floats}
use zerosum.Session.{Config, write}
use zerosum.Session.Worker.{
  active, stopped, System, Step, works, stops, returns, joins, finishes, crashes, sends, receives,
  Reach, here, next,
}
use zerosum.Signals.{
  Registry, Crash, exited, backtrace_text, signal_message, custom_signal_handler_advanced,
}

-- `shutdown` is left at its first line, before or behind it.
abbrev pub IsSkipped : System → Type 0
IsSkipped z = (z.do_shutdown ≡ false) × ((z.caller ≡ active) ⊎ (z.caller ≡ stopped))

module _ (fl : Floats) where
  Step-IsSkipped : {c : Config} {u v : System} → Step fl c u v → IsSkipped u → IsSkipped v
  Step-IsSkipped (works i z w s e) h = h
  Step-IsSkipped (stops z a b) h = ground (arith, b, h.0)
  Step-IsSkipped (returns z a b) h = (h.0, inr refl)
  Step-IsSkipped (joins z a b) h = ground (arith, a, h.1)
  Step-IsSkipped (finishes z s a e) h = ground (arith, a, h.1)
  Step-IsSkipped (crashes z) h = (refl, h.1)
  Step-IsSkipped (sends z rank bytes) h = h
  Step-IsSkipped (receives z rank bytes) h = h

  Reach-IsSkipped : {c : Config} {u v : System} → Reach fl c u v → IsSkipped u → IsSkipped v
  Reach-IsSkipped here h = h
  Reach-IsSkipped (next r k) h = Step-IsSkipped k (Reach-IsSkipped r h)

  -- Whatever handlers were saved, a signal that comes before the call of `shutdown` ends the program with
  -- its number, so that no other handler is called; the trace and the message go behind what an open
  -- log has, and a closed log gets nothing. In every interleaving from there, `shutdown` is left at
  -- its first line: it never joins the asynchronous thread and never ends the log.
  pub custom_signal_handler_advanced_ends :
      (r : Registry) (signal : Crash) (c : Config) (z : System)
      → z.caller ≡ active
      → (z' : System) × (custom_signal_handler_advanced r signal z ≡ exited signal.sig z')
        × (z'.session.log
            ≡ write
                (signal_message z.session.threads.process.rank signal)
                (write (backtrace_text signal.frames) z.session.log))
        × ((v : System) → Reach fl c z' v → IsSkipped v)
  unfolding custom_signal_handler_advanced
  custom_signal_handler_advanced_ends r signal c z a =
      (_, refl, refl, λ v reach. Reach-IsSkipped reach (refl, inl a))
