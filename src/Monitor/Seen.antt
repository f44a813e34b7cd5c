-- ===== src/Monitor/Seen.antt =====
-- Which threads a sample leaves in the process.
use zerosum.Base.{
  ℕ, ◌+◌, ◌≡◌, Bool, true, false, ◌||◌, ◌≤◌, ◌==◌, List, [], ◌∷◌, some, subst, Option-cases,
  Bool-cases, arith, inl, inr, if◌then◌else◌,
}
use zerosum.Monitor.{
  State, get_pthreads, is_id, add_calls, type_of, take_thread, stat_file, status_file, Settings,
  World, Sample, lwp_of, is_hidden, sample_thread, sample_threads,
}
use zerosum.Software.Lwp
use zerosum.Software.Lwp.{ThreadType, Lwp, other, update, bits}
use zerosum.Software.Process.{Process, add, contains}
use zerosum.StdMap.{nat_ord, find, find-insert, find-assign}
use zerosum.Text.{Text, ok, Result-cases, atol}
use zerosum.Utils.CpuList.{parse_discrete_values}
use zerosum.Utils.ProcSelf.{get_cpus_allowed, get_thread_stat, get_thread_status}
use zerosum.Utils.Running.{Fields, is_running}

pub contains-add :
    (n : Bool) (tid u : ℕ) (a : List ℕ) (f : Fields) (k : ℕ) (t : ThreadType) (p : Process)
    → (contains tid (add n tid a f k t p) ≡ true)
      × (contains u p ≡ true → contains u (add n tid a f k t p) ≡ true)
unfolding contains add
contains-add n tid u a f k t p = elim (Option-cases (find tid p.threads)) [
  | inl e ↦ ground (
    arith,
    nat_ord.cmp_eq u tid,
    nat_ord.cmp_refl tid,
    find-insert tid tid (Lwp.new tid a f (bits t) other) p.threads,
    find-insert tid u (Lwp.new tid a f (bits t) other) p.threads,
  )
  | inr (l, e) ↦ ground (
    arith,
    nat_ord.cmp_eq u tid,
    nat_ord.cmp_refl tid,
    find-assign tid tid (update a f t k l) p.threads,
    find-assign tid u (update a f t k l) p.threads,
  )
]

-- What one thread of the loop does to the process.
Extends : ℕ → Sample → Sample → Type 0
Extends lwp s s' =
    (contains lwp s'.process ≡ true)
    × ((u : ℕ) → contains u s.process ≡ true → contains u s'.process ≡ true)
    × (s'.running ≤ s.running + 1)

take_thread-Extends :
    (settings : Settings) (w : World) (name : Text) (fields : Fields) (allowed : List ℕ)
    (s : Sample)
    → Extends (lwp_of name) s (take_thread settings w name fields allowed s)
unfolding take_thread Extends
take_thread-Extends settings w name fields allowed s =
    let lwp = lwp_of name in
    let v =
      is_running settings.detect fields name (is_id (atol name) s.process.id) s.prior_minflt in
    let all = add_calls (w.counters lwp) (get_thread_status w.files (status_file name) v.fields) in
    let type = type_of settings lwp in
    (
      (contains-add settings.add_new lwp lwp allowed all w.step type s.process).0,
      λ u. (contains-add settings.add_new lwp u allowed all w.step type s.process).1,
      ground arith,
    )

sample_thread-Extends :
    (settings : Settings) (w : World) (name : Text) (s s' : Sample)
    → sample_thread settings w name s ≡ ok s'
    → Extends (lwp_of name) s s'
unfolding sample_thread
sample_thread-Extends settings w name s s' e =
    elim (Result-cases (get_thread_stat w.files (stat_file name))) [
      | inr (x, f) ↦ ground arith
      | inl (fields, f) ↦
          elim (Result-cases
            (parse_discrete_values (get_cpus_allowed w.files (status_file name)))) [
              | inr (x, g) ↦ ground arith
              | inl (allowed, g) ↦
                  let made : take_thread settings w name fields allowed s ≡ s' = ground arith in
                  subst (Extends (lwp_of name) s) made
                    (take_thread-Extends settings w name fields allowed s)
            ]
    ]

-- The threads that a list of names stands for.
abbrev pub visible : List Text → List ℕ
visible [] = []
visible (name ∷ names) = if is_hidden name then visible names else lwp_of name ∷ visible names

abbrev pub has : ℕ → List ℕ → Bool
has u [] = false
has u (x ∷ xs) = (u == x) || has u xs

sample_threads-keep :
    (settings : Settings) (w : World) (names : List Text) (s s' : Sample) (u : ℕ)
    → sample_threads settings w names s ≡ ok s'
    → contains u s.process || has u (visible names) ≡ true
    → contains u s'.process ≡ true
unfolding sample_threads Extends
sample_threads-keep settings w [] s s' u e h = ground arith
sample_threads-keep settings w (name ∷ names) s s' u e h = elim (Bool-cases (is_hidden name)) [
  | inl f ↦ ground (arith, sample_threads-keep settings w names s s' u)
  | inr f ↦ elim (Result-cases (sample_thread settings w name s)) [
    | inr (x, g) ↦ ground arith
    | inl (r, g) ↦
        let (own, kept, _) = sample_thread-Extends settings w name s r g in
        ground (arith, own, kept u, sample_threads-keep settings w names r s' u)
  ]
]

-- A sample that finds the directory of the threads and does not throw: every thread that the
-- directory lists is known to the process afterwards, and every thread that was known before still
-- is, whether it has ended or not.
pub get_pthreads_seen :
    (settings : Settings) (w : World) (names : List Text) (s s' : State) (signalled : Bool) (u : ℕ)
    → w.tasks ≡ some names
    → get_pthreads settings w s ≡ ok (s', signalled)
    → contains u s.process || has u (visible names) ≡ true
    → contains u s'.process ≡ true
unfolding get_pthreads
get_pthreads_seen settings w names s s' signalled u t e h =
    let start : Sample = record {
      process = s.process;
      prior_minflt = s.prior_minflt;
      running = 0;
    } in
    elim (Result-cases (sample_threads settings w names start)) [
      | inr (x, f) ↦ ground arith
      | inl (r, f) ↦ ground (arith, sample_threads-keep settings w names start r u f h)
    ]
