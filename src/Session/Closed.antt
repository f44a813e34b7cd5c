-- ===== src/Session/Closed.antt =====
-- The log over any interleaving of the threads.
use zerosum.Base.{
  ℕ, ◌≡◌, refl, ap, subst, ◌∙◌, ◌⊎◌, inl, inr, arith, Bool, true, false, ◌&&◌, not, Bool-cases,
}
use zerosum.Floats.{Floats}
use zerosum.Monitor.{State}
use zerosum.Base.Int.{next_u32}
use zerosum.Session.{
  unopened, closed, Session, Config, Input, write, is_open, abort, do_periodic, do_once,
}
use zerosum.Session.Kept.{
  IsKept, IsKept-ok, IsKept-trans, abort-Keeps, finalize_log-Keeps, do_periodic-IsKept,
}
use zerosum.Session.Worker.{
  Worker, testing, trying, sampling, waiting, checking, ended, System, take_sample, advance, Step,
  works, stops, returns, joins, finishes, crashes, sends, receives, Reach, here, next,
}
use zerosum.Software.Process.Report.{log_threads}
use zerosum.Text.{Text, Result, ok, Result-cases, ok_inj, err_ok}

-- The log is opened by `doOnce` alone.
abbrev pub IsOrdered : Session → Type 0
IsOrdered s = (s.log ≡ unopened) ⊎ (s.done ≡ true)

-- What every step of the interleaving has in common.
pub record IsNext (s s' : Session) : Type 0 where
  pub stays_ordered : IsOrdered s → IsOrdered s'
  pub stays_closed : (n t : Text) → IsOrdered s → s.log ≡ closed n t → s'.log ≡ closed n t

IsNext-refl : (s : Session) → IsNext s s
IsNext-refl s = record { stays_ordered = λ o. o; stays_closed = λ n t o e. e }

IsNext-trans : {s t u : Session} → IsNext s t → IsNext t u → IsNext s u
IsNext-trans h k = record {
  stays_ordered = λ o. k.stays_ordered (h.stays_ordered o);
  stays_closed = λ n t o e. k.stays_closed n t (h.stays_ordered o) (h.stays_closed n t o e);
}

IsOrdered-IsKept : {s s' : Session} → IsKept s s' → IsOrdered s → IsOrdered s'
IsOrdered-IsKept h (inl e) = inl (h.stays_unopened e)
IsOrdered-IsKept h (inr e) = inr (h.same_done ∙ e)

IsKept-IsNext : {s s' : Session} → IsKept s s' → IsNext s s'
IsKept-IsNext h = record {
  stays_ordered = IsOrdered-IsKept h;
  stays_closed = λ n t o e. h.stays_closed n t e;
}

do_once-IsNext : (c : Config) (i : Input) (s : Session) → IsNext s (do_once c i s).1
unfolding do_once
do_once-IsNext c i s = record {
  stays_ordered = λ o. elim (Bool-cases s.done) [
    | inl e ↦ inr (ground (arith, e))
    | inr e ↦ elim (Bool-cases i.ready) [
      | inl f ↦ inr (ground (arith, e, f))
      | inr f ↦ elim o [ inl a ↦ inl (ground (arith, e, f, a)) | inr a ↦ ground (arith, e, a) ]
    ]
  ];
  stays_closed = λ n t o h. elim o [ inl a ↦ ground (arith, a, h) | inr a ↦ ground (arith, a, h) ];
}

-- The state behind a step that does not throw.
ended_in :
    {w w' : Worker} {s t s' : Session}
    → IsNext s t
    → ◌≡◌ {A = Result (Worker × Session)} (ok (w, t)) (ok (w', s'))
    → IsNext s s'
ended_in {s} h e = subst (IsNext s) (ap (λ p. p.1) (ok_inj e)) h

write_log-IsKept :
    (text : Text) (n : ℕ) (s : Session)
    → IsKept s (record s { log = write text s.log; nthreads = n })
write_log-IsKept text n s = record {
  same_step = refl;
  same_done = refl;
  stays_unopened = λ e. rw e refl;
  stays_closed = λ n c e. rw e refl;
}

module _ (fl : Floats) where
  -- The sample takes a step, and what it writes goes behind the rest.
  pub take_sample-IsKept :
      (c : Config) (i : Input) (s s' : Session)
      → take_sample fl c i s ≡ ok s'
      → IsKept (record s { step = next_u32 s.step }) s'
  unfolding take_sample
  take_sample-IsKept c i s s' e = elim (Result-cases (do_periodic fl c i s)) [
    | inl (t, a) ↦
        IsKept-trans (do_periodic-IsKept fl c i s t a) (elim (Bool-cases (is_open t.log)) [
          | inl o ↦ elim (Result-cases (log_threads false t.nthreads t.threads.process)) [
            | inl ((text, n), b) ↦
                IsKept-trans (write_log-IsKept text n t) (IsKept-ok (rw (a, o, b) at e))
            | inr (x, b) ↦ absurd (err_ok (rw (a, o, b) at e))
          ]
          | inr o ↦ IsKept-ok (rw (a, o) at e)
        ])
    | inr (x, a) ↦ absurd (err_ok (rw a at e))
  ]

  step-IsNext : (s s' : Session) → IsKept (record s { step = next_u32 s.step }) s' → IsNext s s'
  step-IsNext s s' h =
      IsNext-trans (record { stays_ordered = λ o. o; stays_closed = λ n t o e. e })
        (IsKept-IsNext h)

  advance-IsNext :
      (working : Bool) (c : Config) (i : Input) (w w' : Worker) (s s' : Session)
      → advance fl working c i w s ≡ ok (w', s')
      → IsNext s s'
  unfolding advance
  advance-IsNext working c i (testing b) w' s s' e = ended_in (IsNext-refl s) e
  advance-IsNext working c i (trying b) w' s s' e = elim (Bool-cases (not b && working)) [
    | inl a ↦ ended_in (do_once-IsNext c i s) (rw a at e)
    | inr a ↦ ended_in (IsNext-refl s) (rw a at e)
  ]
  advance-IsNext working c i (sampling true) w' s s' e =
      elim (Result-cases (take_sample fl c i s)) [
        | inl (t, a) ↦ ended_in (step-IsNext s t (take_sample-IsKept c i s t a)) (rw a at e)
        | inr (x, a) ↦ absurd (err_ok (rw a at e))
      ]
  advance-IsNext working c i (sampling false) w' s s' e = ended_in (IsNext-refl s) e
  advance-IsNext working c i (waiting b) w' s s' e = ended_in (IsNext-refl s) e
  advance-IsNext working c i (checking b) w' s s' e = elim (Bool-cases i.expired) [
    | inl a ↦ elim (Result-cases (abort fl s)) [
      | inl (t, k) ↦ ended_in (IsKept-IsNext (abort-Keeps fl s t k)) (rw (a, k) at e)
      | inr (x, k) ↦ absurd (err_ok (rw (a, k) at e))
    ]
    | inr a ↦ ended_in (IsNext-refl s) (rw a at e)
  ]
  advance-IsNext working c i ended w' s s' e = ended_in (IsNext-refl s) e

  threads-IsNext : (s : Session) (m : State) → IsNext s (record s { threads = m })
  threads-IsNext s m = record { stays_ordered = λ o. o; stays_closed = λ n t o e. e }

  Step-IsNext : {c : Config} {u v : System} → Step fl c u v → IsNext u.session v.session
  Step-IsNext {c} (works i z w s e) = advance-IsNext z.working c i z.worker w z.session s e
  Step-IsNext (stops z a b) = IsNext-refl z.session
  Step-IsNext (returns z a b) = IsNext-refl z.session
  Step-IsNext (joins z a b) = IsNext-refl z.session
  Step-IsNext (finishes z s a e) = IsKept-IsNext (finalize_log-Keeps fl z.session s e)
  Step-IsNext (crashes z) = IsNext-refl z.session
  Step-IsNext (sends z rank bytes) = threads-IsNext z.session _
  Step-IsNext (receives z rank bytes) = threads-IsNext z.session _

  Reach-IsNext : {c : Config} {u v : System} → Reach fl c u v → IsNext u.session v.session
  Reach-IsNext {c} {u} here = IsNext-refl u.session
  Reach-IsNext (next r k) = IsNext-trans (Reach-IsNext r) (Step-IsNext k)

  -- From a state in which the log was not opened yet, by any interleaving of the asynchronous thread,
  -- a thread that calls `shutdown`, crashes and traffic: once the log is closed, it stays closed and
  -- its content stays as it is, whatever comes afterwards.
  pub closed_stays :
      (c : Config) (z u v : System) (name content : Text)
      → z.session.log ≡ unopened
      → Reach fl c z u
      → u.session.log ≡ closed name content
      → Reach fl c u v
      → v.session.log ≡ closed name content
  closed_stays c z u v name content e r f k =
      (Reach-IsNext k).stays_closed name content ((Reach-IsNext r).stays_ordered (inl e)) f
