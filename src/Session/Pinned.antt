-- ===== src/Session/Pinned.antt =====
-- src/utils.cpp, `setThreadAffinity`, and the start of `threadedFunction` of src/zerosum.cpp, which calls it:
-- where the asynchronous thread runs. The mask is what `sched_getaffinity` answers; a call that fails
-- leaves it as it is, and is not modelled.
use zerosum.Base.{
  ℕ, ◌<◌, ◌≤◌, ◌^◌, ◌≡◌, refl, ap, ◌∙◌, arith, Bool, true, List, [], ◌∷◌, none, some, ◌==◌, length,
  if◌then◌else◌, Bool-cases, inl, inr,
}
use zerosum.Base.Int.{ℤ, pos, negsuc, to_i32, to_i32_small}
use zerosum.Software.Process.{Process, get_max_hwt, last}
use zerosum.StdMap.StdSet.{count, IsAbove, IsAscending}
use zerosum.Text.{Text, codes, Result, ok, err, undefined}
use zerosum.Utils.Env.{Environment, parse_int}

-- `cpu_set_t`
abbrev pub Mask : Type 0
Mask = ℕ → Bool

-- `CPU_ISSET` finds no negative number in a mask.
unfoldable pub set_thread_affinity : ℤ → Mask → Mask
set_thread_affinity (pos core) mask = if mask core then (λ k. k == core) else mask
set_thread_affinity (negsuc core) mask = mask

-- The last element of an empty set is undefined.
unfoldable pub pin_worker : Environment → Process → Mask → Result Mask
unfolding get_max_hwt parse_int set_thread_affinity
pin_worker getenv p mask = elim (get_max_hwt p) [
  | none ↦ err undefined
  | some hwt ↦
      ok (set_thread_affinity (parse_int getenv (codes "ZS_ASYNC_CORE") (to_i32 (pos hwt))) mask)
]

set_thread_affinity-subset :
    (core : ℤ) (mask : Mask) (k : ℕ) → set_thread_affinity core mask k ≡ true → mask k ≡ true
unfolding set_thread_affinity
set_thread_affinity-subset (pos core) mask k e = elim (Bool-cases (mask core)) [
  | inl h ↦ ground (arith, rw h at e, h)
  | inr h ↦ rw h at e
]
set_thread_affinity-subset (negsuc core) mask k e = e

last-IsAbove :
    (n : ℕ) (s : List ℕ)
    → IsAbove n s
    → 0 < length s
    → (m : ℕ) × (last s ≡ some m)
      × (n < m)
      × (count m s ≡ true)
      × ((k : ℕ) → count k s ≡ true → k ≤ m)
unfolding last count
last-IsAbove n [] a h = absurd (omega arith)
last-IsAbove n (x ∷ []) a h = (x, refl, a.0, ground arith, λ k e. ground (arith, e))
last-IsAbove n (x ∷ (y ∷ s)) a h =
    let (m, l, b, c, d) = last-IsAbove x (y ∷ s) a.1 (omega arith) in
    (m, rw l refl, omega arith, ground (arith, b, c), λ k e. ground (arith, b, d k))

last-IsAscending :
    (s : List ℕ)
    → IsAscending s
    → 0 < length s
    → (m : ℕ) × (last s ≡ some m) × (count m s ≡ true) × ((k : ℕ) → count k s ≡ true → k ≤ m)
unfolding last count
last-IsAscending [] a h = absurd (omega arith)
last-IsAscending (x ∷ []) a h = (x, refl, ground arith, λ k e. ground (arith, e))
last-IsAscending (x ∷ (y ∷ s)) a h =
    let (m, l, b, c, d) = last-IsAbove x (y ∷ s) a (omega arith) in
    (m, rw l refl, ground (arith, b, c), λ k e. ground (arith, b, d k))

parse_int_unset :
    (unset : Environment) (name : Text) (default : ℤ)
    → unset name ≡ none
    → parse_int unset name default ≡ default
unfolding parse_int
parse_int_unset unset name default u = rw (u, parse_int) refl

pin_alone :
    (unset : Environment) (m : ℕ) (mask : Mask)
    → m < 2 ^ 31
    → mask m ≡ true
    → unset (codes "ZS_ASYNC_CORE") ≡ none
    → set_thread_affinity (parse_int unset (codes "ZS_ASYNC_CORE") (to_i32 (pos m))) mask
      ≡ (λ k. k == m)
unfolding set_thread_affinity
pin_alone unset m mask small e u =
    ap (λ core. set_thread_affinity core mask)
      (parse_int_unset unset (codes "ZS_ASYNC_CORE") (to_i32 (pos m)) u ∙ to_i32_small m small)
    ∙ rw e refl

-- Where ZS_ASYNC_CORE is not set and the thread may run just where the process may, on hardware threads
-- below 2 ^ 31 and at least one: afterwards it runs on the last of them alone. For any value of the
-- variable it runs nowhere that it was not allowed to.
pub pin_worker_last :
    (p : Process) (mask : Mask) (getenv unset : Environment)
    → IsAscending p.hwthreads
    → 0 < length p.hwthreads
    → ((k : ℕ) → count k p.hwthreads ≡ true → k < 2 ^ 31)
    → ((k : ℕ) → mask k ≡ count k p.hwthreads)
    → unset (codes "ZS_ASYNC_CORE") ≡ none
    → (m : ℕ) × (alone other : Mask) × (pin_worker unset p mask ≡ ok alone)
      × (pin_worker getenv p mask ≡ ok other)
      × (count m p.hwthreads ≡ true)
      × ((k : ℕ) → count k p.hwthreads ≡ true → k ≤ m)
      × ((k : ℕ) → alone k ≡ (k == m))
      × ((k : ℕ) → other k ≡ true → mask k ≡ true)
unfolding pin_worker
pin_worker_last p mask getenv unset a h small same e =
    let (m, l, c, d) = last-IsAscending p.hwthreads a h in
    (
      m,
      (λ k. k == m),
      set_thread_affinity (parse_int getenv (codes "ZS_ASYNC_CORE") (to_i32 (pos m))) mask,
      rw (l, pin_worker) (ap ok (pin_alone unset m mask (small m c) (same m ∙ c) e)),
      rw (l, pin_worker) refl,
      c,
      d,
      λ k. refl,
      set_thread_affinity-subset (parse_int getenv (codes "ZS_ASYNC_CORE") (to_i32 (pos m))) mask,
    )
