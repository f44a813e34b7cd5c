-- ===== src/Session/Kept.antt =====
-- What the operations leave as it is: the step outside of a period, a log that is closed, and one that
-- was never opened.
use zerosum.Base.{
  List, ℕ, ◌==◌, Option, ◌≡◌, refl, ◌∙◌, subst, arith, Bool, true, false, none, some, inl, inr,
  Bool-cases, if◌then◌else◌, Option-cases,
}
use zerosum.Base.Int.{ℤ, next_u32}
use zerosum.Cray.{CrayCounters, read_counters}
use zerosum.Floats.{Floats}
use zerosum.Hardware.Node.{ComputeNode, update_fields}
use zerosum.Monitor.{World, State, get_pthreads}
use zerosum.Session.{
  unopened, closed, Session, Config, Input, log_line, is_above, freshness, quiet_line,
  deadlock_lines, finalize_log, abort, check_for_stop, sample, measure, do_periodic,
}
use zerosum.Text.{Text, Result, ok, ◌>>=◌, Result-cases, ok_inj, err_ok}
use zerosum.Utils.ProcStat.{parse_proc_stat}

-- One log may be followed by the other.
pub record IsKept (s s' : Session) : Type 0 where
  pub same_step : s'.step ≡ s.step
  pub same_done : s'.done ≡ s.done
  pub stays_unopened : s.log ≡ unopened → s'.log ≡ unopened
  pub stays_closed : (n c : Text) → s.log ≡ closed n c → s'.log ≡ closed n c

pub IsKept-refl : (s : Session) → IsKept s s
IsKept-refl s = record {
  same_step = refl;
  same_done = refl;
  stays_unopened = λ e. e;
  stays_closed = λ n c e. e;
}

pub IsKept-trans : {s t u : Session} → IsKept s t → IsKept t u → IsKept s u
IsKept-trans h k = record {
  same_step = k.same_step ∙ h.same_step;
  same_done = k.same_done ∙ h.same_done;
  stays_unopened = λ e. k.stays_unopened (h.stays_unopened e);
  stays_closed = λ n c e. k.stays_closed n c (h.stays_closed n c e);
}

-- An operation that keeps all this where it does not throw.
abbrev pub Keeps : (Session → Result Session) → Type 0
Keeps f = (s s' : Session) → f s ≡ ok s' → IsKept s s'

-- A bind that succeeds has a first part that succeeds.
pub bind-IsKept :
    {A : Type 0} (r : Result A) (f : A → Result Session) {s s' : Session}
    → ((a : A) → r ≡ ok a → f a ≡ ok s' → IsKept s s')
    → (r >>= f) ≡ ok s'
    → IsKept s s'
bind-IsKept r f k e = elim (Result-cases r) [
  | inl (a, h) ↦ k a h (ground (arith, h, e))
  | inr (x, h) ↦ ground (arith, h, e)
]

pub write-IsKept : (text : Text) (s : Session) → IsKept s (log_line text s)
write-IsKept text s = record {
  same_step = refl;
  same_done = refl;
  stays_unopened = λ e. rw e refl;
  stays_closed = λ n c e. rw e refl;
}

pub IsKept-ok : {s t : Session} → ok s ≡ ok t → IsKept s t
IsKept-ok {s} e = subst (IsKept s) (ok_inj e) (IsKept-refl s)

module _ (fl : Floats) where
  pub finalize_log-Keeps : Keeps (finalize_log fl)
  unfolding finalize_log
  finalize_log-Keeps s s' e = record {
    same_step = ground (arith, e);
    same_done = ground (arith, e);
    stays_unopened = λ u. ground (arith, e, u);
    stays_closed = λ n c u. ground (arith, e, u);
  }

  pub abort-Keeps : Keeps (abort fl)
  unfolding abort
  abort-Keeps s s' e = elim (Result-cases (finalize_log fl s)) [
    | inl (t, a) ↦ IsKept-trans (finalize_log-Keeps s t a) (record {
      same_step = ground (arith, a, e);
      same_done = ground (arith, a, e);
      stays_unopened = λ u. ground (arith, a, e, u);
      stays_closed = λ n c u. ground (arith, a, e, u);
    })
    | inr (x, a) ↦ ground (arith, a, e)
  ]

  if_abort-IsKept :
      (b : Bool) (s s' : Session) → (if b then abort fl s else ok s) ≡ ok s' → IsKept s s'
  if_abort-IsKept true s s' e = abort-Keeps s s' e
  if_abort-IsKept false s s' e = IsKept-ok e

  if_write-IsKept :
      (b : Bool) (text : Text) (s : Session) → IsKept s (if b then log_line text s else s)
  if_write-IsKept true text s = write-IsKept text s
  if_write-IsKept false text s = IsKept-refl s

  freshness-Keeps : (c : Config) (age : ℤ) → Keeps (freshness fl c age)
  freshness-Keeps c age s s' e =
      IsKept-trans (if_write-IsKept (s.threads.process.rank == 0) _ s)
        (if_abort-IsKept (is_above age c.monitor_timeout) _ s' e)

  age-IsKept :
      (c : Config) (age : Option ℤ) (s s' : Session)
      → elim age [ none ↦ ok s | some a ↦ freshness fl c a s ] ≡ ok s'
      → IsKept s s'
  age-IsKept c none s s' e = IsKept-ok e
  age-IsKept c (some a) s s' e = freshness-Keeps c a s s' e

  if_age-IsKept :
      (b : Bool) (c : Config) (age : Option ℤ) (s s' : Session)
      → (if b then elim age [ none ↦ ok s | some a ↦ freshness fl c a s ] else ok s) ≡ ok s'
      → IsKept s s'
  if_age-IsKept true c age s s' e = age-IsKept c age s s' e
  if_age-IsKept false c age s s' e = IsKept-ok e

  pub check_for_stop-Keeps : (c : Config) (i : Input) → Keeps (check_for_stop fl c i)
  unfolding check_for_stop
  check_for_stop-Keeps c i s s' e =
      bind-IsKept _ _
        (λ t h k.
          IsKept-trans (if_abort-IsKept i.stop_file s t h)
            (if_age-IsKept c.monitor_log c i.log_age t s' k))
        e

  quiet_line-IsKept : (c : Config) (quiet : ℕ) (s : Session) → IsKept s (quiet_line fl c quiet s)
  quiet_line-IsKept c quiet s = elim (Bool-cases c.monitor.detect) [
    | inl h ↦ elim (Bool-cases (quiet == 0)) [
      | inl k ↦ rw (h, k) (IsKept-refl s)
      | inr k ↦ rw (h, k) (write-IsKept _ s)
    ]
    | inr h ↦ rw h (IsKept-refl s)
  ]

  deadlock-IsKept :
      (b : Bool) (c : Config) (s s' : Session)
      → (if b then abort fl (deadlock_lines fl c s) else ok s) ≡ ok s'
      → IsKept s s'
  deadlock-IsKept true c s s' e =
      IsKept-trans (write-IsKept _ s) (abort-Keeps (deadlock_lines fl c s) s' e)
  deadlock-IsKept false c s s' e = IsKept-ok e

  threads-IsKept : (s : Session) (m : State) → IsKept s (record s { threads = m })
  threads-IsKept s m = record {
    same_step = refl;
    same_done = refl;
    stays_unopened = λ e. e;
    stays_closed = λ n c e. e;
  }

  node-IsKept :
      (s : Session) (n : ComputeNode) (k : CrayCounters)
      → IsKept s (record s { node = n; cray = k })
  node-IsKept s n k = record {
    same_step = refl;
    same_done = refl;
    stays_unopened = λ e. e;
    stays_closed = λ n c e. e;
  }

  pub sample-Keeps : (c : Config) (i : Input) → Keeps (sample fl c i)
  unfolding sample
  sample-Keeps c i s s' e = elim (Option-cases i.tasks) [
    | inl h ↦ IsKept-ok (ground (arith, h, e))
    | inr (names, h) ↦ elim (Result-cases (get_pthreads c.monitor (observed names) s.threads)) [
      | inl ((m, deadlock), k) ↦ IsKept-trans (threads-IsKept s m) (
          IsKept-trans (quiet_line-IsKept c m.quiet (record s { threads = m })) (
            deadlock-IsKept deadlock c (quiet_line fl c m.quiet (record s { threads = m })) s'
              (rw (h, k) at e)))
      | inr (x, k) ↦ absurd (err_ok (rw (h, k) at e))
    ]
  ]
    where
      observed : List Text → World
      observed names = record {
        files = i.files;
        tasks = some names;
        counters = i.counters;
        step = s.step;
      }

  pub measure-Keeps : (i : Input) → Keeps (measure fl i)
  unfolding measure
  measure-Keeps i s s' e = elim (Result-cases (parse_proc_stat i.files)) [
    | inl (stat, a) ↦ elim (Result-cases (update_fields stat s.step s.node)) [
      | inl (node, b) ↦ elim (Result-cases (read_counters i.files s.cray)) [
        | inl ((counters, cray), c) ↦
            IsKept-trans (node-IsKept s _ _) (IsKept-ok (rw (a, b, c) at e))
        | inr (x, c) ↦ absurd (err_ok (rw (a, b, c) at e))
      ]
      | inr (x, b) ↦ absurd (err_ok (rw (a, b) at e))
    ]
    | inr (x, a) ↦ absurd (err_ok (rw a at e))
  ]

  -- A period takes one step.
  pub do_periodic-IsKept :
      (c : Config) (i : Input) (s s' : Session)
      → do_periodic fl c i s ≡ ok s'
      → IsKept (record s { step = next_u32 s.step }) s'
  unfolding do_periodic
  do_periodic-IsKept c i s s' e =
      bind-IsKept _ _
        (λ t h k. IsKept-trans (sample-Keeps c i _ t h) (
          bind-IsKept _ _
            (λ u h k. IsKept-trans (measure-Keeps i t u h) (
              bind-IsKept _ _
                (λ m h k. IsKept-trans (write-IsKept m u) (check_for_stop-Keeps c i _ s' k)) k))
            k))
        e
