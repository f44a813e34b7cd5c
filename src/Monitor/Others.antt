-- ===== src/Monitor/Others.antt =====
-- src/zerosum_process.cpp, `ZeroSum::getOtherProcesses`: the processes that may run on the hardware
-- threads of this one.
use zerosum.Base.{
  ℕ, ◌≡◌, subst, Bool, true, false, ◌&&◌, ◌||◌, List, [], ◌∷◌, ◌++◌, Option, none, some, inl, inr,
  arith, Bool-cases, Option-cases, All, All-append, if◌then◌else◌, ==_iff,
}
use zerosum.Base.Int.{ℤ, to_u32}
use zerosum.Monitor.{is_hidden, is_id}
use zerosum.Software.Process.{Process, new}
use zerosum.StdMap.{text_ord, insert}
use zerosum.StdMap.StdSet.{count, elem, count-insert_all}
use zerosum.Text.{
  Text, codes, is_digit, to_string, stol, Result, ok, ◌>>=◌, Result-cases, ok_inj, err_ok,
}
use zerosum.Utils.CpuList.{parse_discrete_values}
use zerosum.Utils.Files.{FileSystem}
use zerosum.Utils.ProcSelf.{get_cpus_allowed, get_thread_stat, get_thread_status}
use zerosum.Utils.Running.{Fields}

-- `all_of(pid.begin(), pid.end(), ::isdigit)`
abbrev is_number : Text → Bool
is_number [] = true
is_number (c ∷ name) = is_digit c && is_number name

-- The loop over the list that is allowed.
unfoldable pub overlaps : List ℕ → List ℕ → Bool
overlaps [] hwthreads = false
overlaps (hwt ∷ allowed) hwthreads =
    let rest = overlaps allowed hwthreads in if count hwt hwthreads then true else rest

-- The object for a process that was found, made by the thread `tid`.
other_process : FileSystem → ℕ → Text → ℤ → List ℕ → Result Process
other_process files tid name id allowed = do
  fields ← get_thread_stat files (codes "/proc/" ++ name ++ codes "/stat")
  ok (
      new tid (to_u32 id) 0 1
        (get_thread_status files (codes "/proc/" ++ name ++ codes "/status") fields) allowed)

-- The body of the loop for a name that is a number.
take_other : FileSystem → ℕ → Process → Text → Result (List Process)
unfolding overlaps other_process
take_other files tid own name = do
  id ← stol name
  (if is_id id own.id then ok [] else (do
    allowed ←
        parse_discrete_values (get_cpus_allowed files (codes "/proc/" ++ name ++ codes "/status"))
    (if overlaps allowed own.hwthreads
        then (do p ← other_process files tid name id allowed; ok (p ∷ []))
        else ok [])))

-- `otherProcesses` behind the loop over the names in `/proc`.
unfoldable pub get_other_processes :
    FileSystem → ℕ → Process → List Text → List Process → Result (List Process)
unfolding take_other
get_other_processes files tid own [] others = ok others
get_other_processes files tid own (name ∷ names) others =
    if is_hidden name || (if is_number name then false else true)
    then get_other_processes files tid own names others
    else (do
      found ← take_other files tid own name
      get_other_processes files tid own names (others ++ found))

with_others : FileSystem → ℕ → Process → List Text → Result (Process × List Process)
unfolding get_other_processes
with_others files tid process listed = do
  others ← get_other_processes files tid process listed []
  ok (process, others)

-- src/zerosum.cpp, `getProcStatus`: this process, found by the thread `tid`, and the others.
unfoldable pub get_proc_status :
    FileSystem → ℕ → ℕ → ℕ → Bool → Option (List Text) → Result (Process × List Process)
unfolding with_others
get_proc_status files tid pid step details names = do
  allowed ← parse_discrete_values (get_cpus_allowed files (codes "/proc/self/status"))
  fields ← get_thread_stat files (codes "/proc/self/stat")
  let all =
      insert (codes "step") (to_string step)
        (get_thread_status files (codes "/proc/self/status") fields)
  let process = new tid pid 0 1 all allowed
  (if details
      then elim names [
        | none ↦ ok (process, [])
        | some listed ↦ with_others files tid process listed
      ]
      else ok (process, []))

-- A hardware thread that both may use.
abbrev pub IsSharing : Process → Process → Type 0
IsSharing own p = (y : ℕ) × (count y own.hwthreads ≡ true) × (count y p.hwthreads ≡ true)

overlaps-elem :
    (allowed hwthreads : List ℕ)
    → overlaps allowed hwthreads ≡ true
    → (y : ℕ) × (count y hwthreads ≡ true) × (elem y allowed ≡ true)
unfolding overlaps
overlaps-elem [] hwthreads e = ground arith
overlaps-elem (h ∷ allowed) hwthreads e = elim (Bool-cases (count h hwthreads)) [
  | inl a ↦ (h, a, ground (arith, ==_iff h h))
  | inr a ↦
      let (y, b, c) = overlaps-elem allowed hwthreads (ground (arith, a, e)) in
      (y, b, ground (arith, c))
]

new-IsSharing :
    (own : Process) (tid id : ℕ) (fields : Fields) (allowed : List ℕ)
    → overlaps allowed own.hwthreads ≡ true
    → IsSharing own (new tid id 0 1 fields allowed)
unfolding new
new-IsSharing own tid id fields allowed e =
    let (y, a, b) = overlaps-elem allowed own.hwthreads e in
    (y, a, ground (arith, b, count-insert_all allowed [] y))

take_other-IsSharing :
    (files : FileSystem) (tid : ℕ) (own : Process) (name : Text) (found : List Process)
    → take_other files tid own name ≡ ok found
    → All (IsSharing own) found
unfolding take_other other_process
take_other-IsSharing files tid own name found e = elim (Result-cases (stol name)) [
  | inl (id, a) ↦ elim (Bool-cases (is_id id own.id)) [
    | inl b ↦ subst (All (IsSharing own)) (ok_inj (rw (a, b) at e)) tt
    | inr b ↦ elim (Result-cases (parse_discrete_values (get_cpus_allowed files status))) [
      | inl (allowed, c) ↦ elim (Bool-cases (overlaps allowed own.hwthreads)) [
        | inl d ↦ elim (Result-cases (get_thread_stat files stat)) [
          | inl (fields, f) ↦ subst (All (IsSharing own)) (ok_inj (rw (a, b, c, d, f) at e)) (
            new-IsSharing own tid (to_u32 id) (get_thread_status files status fields) allowed d,
            tt,
          )
          | inr (x, f) ↦ absurd (err_ok (rw (a, b, c, d, f) at e))
        ]
        | inr d ↦ subst (All (IsSharing own)) (ok_inj (rw (a, b, c, d) at e)) tt
      ]
      | inr (x, c) ↦ absurd (err_ok (rw (a, b, c) at e))
    ]
  ]
  | inr (x, a) ↦ absurd (err_ok (rw a at e))
]
  where
    status : Text
    status = codes "/proc/" ++ name ++ codes "/status"

    stat : Text
    stat = codes "/proc/" ++ name ++ codes "/stat"

found-IsSharing :
    (files : FileSystem) (tid : ℕ) (own : Process) (names : List Text) (others found : List Process)
    → All (IsSharing own) others
    → get_other_processes files tid own names others ≡ ok found
    → All (IsSharing own) found
unfolding get_other_processes
found-IsSharing files tid own [] others found h e = subst (All (IsSharing own)) (ok_inj e) h
found-IsSharing files tid own (name ∷ names) others found h e =
    elim (Bool-cases (is_hidden name || (if is_number name then false else true))) [
      | inl a ↦ found-IsSharing files tid own names others found h (rw a at e)
      | inr a ↦ elim (Result-cases (take_other files tid own name)) [
        | inl (more, b) ↦
            found-IsSharing files tid own names (others ++ more) found
              (All-append (IsSharing own) others more h
                (take_other-IsSharing files tid own name more b))
              (rw (a, b) at e)
        | inr (x, b) ↦ absurd (err_ok (rw (a, b) at e))
      ]
    ]

listed-IsSharing :
    (files : FileSystem) (tid : ℕ) (own process : Process) (listed : List Text)
    (others : List Process)
    → with_others files tid own listed ≡ ok (process, others)
    → All (IsSharing process) others
unfolding with_others
listed-IsSharing files tid own process listed others e =
    elim (Result-cases (get_other_processes files tid own listed [])) [
      | inl (found, a) ↦
          subst (λ r. All (IsSharing r.0) r.1) (ok_inj (rw a at e))
            (found-IsSharing files tid own listed [] found tt a)
      | inr (x, a) ↦ absurd (err_ok (rw a at e))
    ]

-- What `getProcStatus` gives, if it does not throw: each of the other processes may run on a hardware
-- thread that this process may use too, whatever the names and the files in /proc are.
pub others_share :
    (files : FileSystem) (tid pid step : ℕ) (details : Bool) (names : Option (List Text))
    (process : Process) (others : List Process)
    → get_proc_status files tid pid step details names ≡ ok (process, others)
    → All (IsSharing process) others
unfolding get_proc_status
others_share files tid pid step details names process others e =
    elim (Result-cases
      (parse_discrete_values (get_cpus_allowed files (codes "/proc/self/status")))) [
        | inl (allowed, a) ↦ elim (Result-cases (get_thread_stat files (codes "/proc/self/stat"))) [
          | inl (fields, b) ↦ elim (Bool-cases details) [
            | inl c ↦ elim (Option-cases names) [
              | inl d ↦ subst (λ r. All (IsSharing r.0) r.1) (ok_inj (rw (a, b, c, d) at e)) tt
              | inr (listed, d) ↦
                  listed-IsSharing files tid _ process listed others (rw (a, b, c, d) at e)
            ]
            | inr c ↦ subst (λ r. All (IsSharing r.0) r.1) (ok_inj (rw (a, b, c) at e)) tt
          ]
          | inr (x, b) ↦ absurd (err_ok (rw (a, b) at e))
        ]
        | inr (x, a) ↦ absurd (err_ok (rw a at e))
      ]
