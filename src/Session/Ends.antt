-- ===== src/Session/Ends.antt =====
-- The asynchronous thread behind the call of `shutdown`.
use zerosum.Base.{
  ◌+◌, ◌≤◌, ◌≡◌, refl, ◌⊎◌, inl, inr, arith, Bool, true, false, List, [], ◌∷◌, Bool-cases,
}
use zerosum.Floats.{Floats}
use zerosum.Session.{Session, Config, Input, abort}
use zerosum.Session.Closed.{take_sample-IsKept}
use zerosum.Session.Kept.{abort-Keeps}
use zerosum.Session.Worker.{
  Worker, testing, trying, sampling, waiting, checking, ended, take_sample, advance,
}
use zerosum.Text.{Error, Result, ok, err, ◌>>=◌, Result-cases}

module _ (fl : Floats) where
  -- Steps of the asynchronous thread in a row, with what each reads.
  unfoldable pub run_worker :
      Bool → Config → List Input → Worker → Session → Result (Worker × Session)
  unfolding advance
  run_worker working c [] w s = ok (w, s)
  run_worker working c (i ∷ inputs) w s = do
    (w', s') ← advance fl working c i w s
    run_worker working c inputs w' s'

  -- What can throw: a sample, or the end of the log when the time is over.
  abbrev pub CanThrow : Config → Session → Error → Type 0
  CanThrow c s x = ((i : Input) × (take_sample fl c i s ≡ err x)) ⊎ (abort fl s ≡ err x)

  -- The thread has ended, at most one step on, or one of these has thrown.
  abbrev Ends : Config → Result (Worker × Session) → Session → Type 0
  Ends c r s =
      ((x : Error) × (r ≡ err x) × CanThrow c s x)
      ⊎ ((s' : Session) × (r ≡ ok (ended, s')) × (s'.step ≤ s.step + 1))

  stays_ended :
      (c : Config) (inputs : List Input) (s : Session)
      → run_worker false c inputs ended s ≡ ok (ended, s)
  unfolding run_worker
  stays_ended c [] s = refl
  stays_ended c (i ∷ inputs) s = stays_ended c inputs s

  testing_ends :
      (c : Config) (i : Input) (inputs : List Input) (b : Bool) (s : Session)
      → run_worker false c (i ∷ inputs) (testing b) s ≡ ok (ended, s)
  unfolding run_worker
  testing_ends c i inputs b s = stays_ended c inputs s

  waiting_ends :
      (c : Config) (i : Input) (inputs : List Input) (b : Bool) (s : Session)
      → run_worker false c (i ∷ inputs) (waiting b) s ≡ ok (ended, s)
  unfolding run_worker
  waiting_ends c i inputs b s = stays_ended c inputs s

  sampling-Ends :
      (c : Config) (i j : Input) (inputs : List Input) (b : Bool) (s : Session)
      → Ends c (run_worker false c (i ∷ (j ∷ inputs)) (sampling b) s) s
  unfolding run_worker
  sampling-Ends c i j inputs false s = inr (s, waiting_ends c j inputs false s, omega arith)
  sampling-Ends c i j inputs true s = elim (Result-cases (take_sample fl c i s)) [
    | inl (t, e) ↦
        let kept = take_sample-IsKept fl c i s t e in
        inr (t, rw e (waiting_ends c j inputs true t), omega (arith, kept.same_step))
    | inr (x, e) ↦ inl (x, rw e refl, inl (i, e))
  ]

  checking-Ends :
      (c : Config) (i j : Input) (inputs : List Input) (b : Bool) (s : Session)
      → Ends c (run_worker false c (i ∷ (j ∷ inputs)) (checking b) s) s
  unfolding run_worker
  checking-Ends c i j inputs b s = elim (Bool-cases i.expired) [
    | inl a ↦ elim (Result-cases (abort fl s)) [
      | inl (t, e) ↦
          let kept = abort-Keeps fl s t e in
          inr (t, rw (a, e) (testing_ends c j inputs b t), omega (arith, kept.same_step))
      | inr (x, e) ↦ inl (x, rw (a, e) refl, inr e)
    ]
    | inr a ↦ inr (s, rw a (testing_ends c j inputs b s), omega arith)
  ]

  trying-Ends :
      (c : Config) (i j k : Input) (inputs : List Input) (b : Bool) (s : Session)
      → Ends c (run_worker false c (i ∷ (j ∷ (k ∷ inputs))) (trying b) s) s
  unfolding run_worker
  trying-Ends c i j k inputs true s = sampling-Ends c j k inputs true s
  trying-Ends c i j k inputs false s = sampling-Ends c j k inputs false s

  -- Once `shutdown` has set the flag, wherever the asynchronous thread stands and whatever it reads:
  -- after three of its own steps, of which at most one is a sample, it has ended and stays so, or a
  -- sample or the end of the log has thrown, which ends the program.
  pub worker_ends :
      (c : Config) (i j k : Input) (inputs : List Input) (w : Worker) (s : Session)
      → let r = run_worker false c (i ∷ (j ∷ (k ∷ inputs))) w s in
        ((x : Error) × (r ≡ err x) × CanThrow c s x)
        ⊎ ((s' : Session) × (r ≡ ok (ended, s')) × (s'.step ≤ s.step + 1))
  worker_ends c i j k inputs (testing b) s =
      inr (s, testing_ends c i (j ∷ (k ∷ inputs)) b s, omega arith)
  worker_ends c i j k inputs (trying b) s = trying-Ends c i j k inputs b s
  worker_ends c i j k inputs (sampling b) s = sampling-Ends c i j (k ∷ inputs) b s
  worker_ends c i j k inputs (waiting b) s =
      inr (s, waiting_ends c i (j ∷ (k ∷ inputs)) b s, omega arith)
  worker_ends c i j k inputs (checking b) s = checking-Ends c i j (k ∷ inputs) b s
  worker_ends c i j k inputs ended s =
      inr (s, stays_ended c (i ∷ (j ∷ (k ∷ inputs))) s, omega arith)
