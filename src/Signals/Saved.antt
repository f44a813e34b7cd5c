-- ===== src/Signals/Saved.antt =====
-- What the loop over the signals saves and installs.
use zerosum.Base.{
  ℕ, zero, suc, ◌≡◌, refl, ap, ◌∙◌, sym, arith, Bool, true, false, List, [], ◌∷◌, Option, none,
  some, ◌==◌, if◌then◌else◌, Bool-cases, inl, inr,
}
use zerosum.Signals.{
  Handler, zero_sum, foreign, my_signals, Registry, register_loop, register_signal_handler,
}
use zerosum.StdMap.{nat_ord, Map, find, assign, find-assign}

-- What `sigaction` is documented to do, by the handler that the table has for a signal, and by the
-- numbers that it takes: it answers with the old handler and installs the new one, and fails with
-- `EINVAL` for all other numbers, such as SIGKILL, SIGSTOP and what is no signal.
pub record Laws {Table : Type 0} (sigaction : ℕ → Handler → Table → Option Handler × Table)
    (takes : ℕ → Bool) (handler_of : Table → ℕ → Handler) : Type 0 where
  pub answers :
      (s : ℕ) (h : Handler) (t : Table)
      → takes s ≡ true
      → (sigaction s h t).0 ≡ some (handler_of t s)
  pub fails : (s : ℕ) (h : Handler) (t : Table) → takes s ≡ false → sigaction s h t ≡ (none, t)
  pub installs :
      (s : ℕ) (h : Handler) (t : Table) (k : ℕ)
      → takes s ≡ true
      → handler_of (sigaction s h t).1 k ≡ (if k == s then h else handler_of t k)

abbrev pub occurrences : ℕ → List ℕ → ℕ
occurrences k [] = 0
occurrences k (s ∷ signals) = if k == s then suc (occurrences k signals) else occurrences k signals

-- What is saved for a signal: nothing new, its handler, or ZeroSum's own where it comes twice.
abbrev pub saved_handler : ℕ → Option Handler → Handler → Option Handler
saved_handler zero before h = before
saved_handler (suc zero) before h = some h
saved_handler (suc (suc n)) before h = some zero_sum

abbrev pub installed_handler : ℕ → Handler → Handler
installed_handler zero h = h
installed_handler (suc n) h = zero_sum

saved_step :
    (b : Bool) (n : ℕ) (before : Option Handler) (h : Handler)
    → saved_handler n (if b then some h else before) (if b then zero_sum else h)
      ≡ saved_handler (if b then suc n else n) before h
saved_step true zero before h = refl
saved_step true (suc zero) before h = refl
saved_step true (suc (suc n)) before h = refl
saved_step false n before h = refl

installed_step :
    (b : Bool) (n : ℕ) (h : Handler)
    → installed_handler n (if b then zero_sum else h) ≡ installed_handler (if b then suc n else n) h
installed_step true zero h = refl
installed_step true (suc n) h = refl
installed_step false n h = refl

find-assign_own :
    (s k : ℕ) (own : ℕ → Handler) (others : Map ℕ Handler)
    → find k (assign s (own s) others) ≡ (if k == s then some (own k) else find k others)
find-assign_own s k own others = ground (arith, find-assign s k (own s) others)

find-assign_other :
    (k s : ℕ) (h : Handler) (others : Map ℕ Handler)
    → (k == s) ≡ false
    → find k (assign s h others) ≡ find k others
find-assign_other k s h others n = ground (arith, find-assign s k h others, n)

module _ {Table : Type 0} (sigaction : ℕ → Handler → Table → Option Handler × Table)
    (takes : ℕ → Bool) (handler_of : Table → ℕ → Handler)
    (laws : Laws sigaction takes handler_of) where
  abbrev IsRight : ℕ → List ℕ → Handler → Map ℕ Handler → Table → Type 0
  IsRight k signals old others t =
      (find k (register_loop sigaction signals old others t).0
        ≡ saved_handler (occurrences k signals) (find k others) (handler_of t k))
      × (handler_of (register_loop sigaction signals old others t).1 k
          ≡ installed_handler (occurrences k signals) (handler_of t k))

  taken :
      (k s : ℕ) (signals : List ℕ) (old : Handler) (others : Map ℕ Handler) (t : Table)
      → takes s ≡ true
      → IsRight k signals
          (handler_of t s)
          (assign s (handler_of t s) others)
          (sigaction s zero_sum t).1
      → IsRight k (s ∷ signals) old others t
  unfolding register_loop
  taken k s signals old others t m (saved, installed) =
      let now = laws.answers s zero_sum t m in
      let next = laws.installs s zero_sum t k m in
      let own = find-assign_own s k (handler_of t) others in
      (
        rw (now, register_loop)
            (saved
              ∙ rw (own, next)
                  (saved_step (k == s) (occurrences k signals) (find k others) (handler_of t k))),
        rw (now, register_loop)
            (installed
              ∙ rw next (installed_step (k == s) (occurrences k signals) (handler_of t k))),
      )

  ne_taken : (k s : ℕ) → takes k ≡ true → takes s ≡ false → (k == s) ≡ false
  ne_taken k s n f = elim (Bool-cases (k == s)) [
    | inl e ↦
        let same : k ≡ s = ground (arith, e) in
        let differs : true ≡ false = sym n ∙ (ap takes same ∙ f) in absurd (cc)
    | inr e ↦ e
  ]

  failed :
      (k s : ℕ) (signals : List ℕ) (old : Handler) (others : Map ℕ Handler) (t : Table)
      → takes k ≡ true
      → takes s ≡ false
      → IsRight k signals old (assign s old others) t
      → IsRight k (s ∷ signals) old others t
  unfolding register_loop
  failed k s signals old others t n f (saved, installed) =
      let now = laws.fails s zero_sum t f in
      let differs = ne_taken k s n f in
      let other = find-assign_other k s old others differs in
      (
        rw (now, register_loop) (rw differs (saved ∙ rw other refl)),
        rw (now, register_loop) (rw differs installed),
      )

  register_loop_lem :
      (k : ℕ) (signals : List ℕ) (old : Handler) (others : Map ℕ Handler) (t : Table)
      → takes k ≡ true
      → IsRight k signals old others t
  unfolding register_loop
  register_loop_lem k [] old others t n = (refl, refl)
  register_loop_lem k (s ∷ signals) old others t n = elim (Bool-cases (takes s)) [
    | inr f ↦
        failed k s signals old others t n f
          (register_loop_lem k signals old (assign s old others) t n)
    | inl e ↦ taken k s signals old others t e (
        register_loop_lem k signals (handler_of t s) (assign s (handler_of t s) others)
          (sigaction s zero_sum t).1 n)
  ]

  -- After `register_signal_handler` is called for the first time, for each signal that `sigaction` takes,
  -- and it takes SIGABRT: the signals of the list have ZeroSum's handler, and all others the one that
  -- they had. A signal that stands in the list once has its old handler saved, and SIGABRT, which the
  -- list has under two names, has ZeroSum's own. Calling it again changes nothing.
  pub register_signal_handler_lem :
      (k : ℕ) (r : Registry) (t : Table)
      → takes k ≡ true
      → takes 6 ≡ true
      → r.once ≡ false
      → let (r', t') = register_signal_handler sigaction r t in
        (handler_of t' k ≡ installed_handler (occurrences k my_signals) (handler_of t k))
        × (find k r'.other_handlers
            ≡ saved_handler (occurrences k my_signals) (find k r.other_handlers) (handler_of t k))
        × (find 6 r'.other_handlers ≡ some zero_sum)
        × (register_signal_handler sigaction r' t' ≡ (r', t'))
  unfolding register_signal_handler
  register_signal_handler_lem k r t n six first =
      let (saved, installed) = register_loop_lem k my_signals (foreign 0) r.other_handlers t n in
      let abort = (register_loop_lem 6 my_signals (foreign 0) r.other_handlers t six).0 in
      (rw first installed, rw first saved, rw first abort, rw first refl)
