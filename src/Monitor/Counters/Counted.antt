-- ===== src/Monitor/Counters/Counted.antt =====
-- What the counters of the calls on locks add up to.
use zerosum.Base.{
  ℕ, zero, suc, ◌+◌, ◌%◌, ◌^◌, ◌≡◌, refl, ap, sym, ◌∙◌, ◌<◌, none, some, arith, Bool, true, false,
  List, [], ◌∷◌, ◌==◌, ◌&&◌, if◌then◌else◌, inl, inr, Option-cases, Bool-cases,
}
use zerosum.Monitor.Counters.{Counters, get_counters, mutex_lock, mutex_trylock}
use zerosum.StdMap.{nat_ord, find, insert, assign, find-insert, find-assign}

-- A call of a wrapper: by which thread, and inside how many other wrappers.
pub data LockCall : Type 0 where
  lock try_lock : (tid depth : ℕ) → LockCall

-- Calls in a row; `fresh` is what the memory for the counters of a thread holds before the first one.
unfoldable pub run_locks : (ℕ → ℕ × ℕ) → List LockCall → Counters → Counters
unfolding mutex_lock mutex_trylock
run_locks fresh [] m = m
run_locks fresh (lock tid depth ∷ calls) m =
    run_locks fresh calls (mutex_lock (fresh tid) depth tid m)
run_locks fresh (try_lock tid depth ∷ calls) m =
    run_locks fresh calls (mutex_trylock (fresh tid) depth tid m)

-- A call of this kind that the thread made outside of all other wrappers.
abbrev pub is_counted : Bool → ℕ → LockCall → Bool
is_counted true t (lock tid depth) = false
is_counted true t (try_lock tid depth) = tid == t && depth == 0
is_counted false t (lock tid depth) = tid == t && depth == 0
is_counted false t (try_lock tid depth) = false

abbrev pub outside_calls : Bool → ℕ → List LockCall → ℕ
outside_calls tries tid [] = 0
outside_calls tries tid (c ∷ calls) =
    if is_counted tries tid c
    then suc (outside_calls tries tid calls)
    else outside_calls tries tid calls

-- What `getpthreads` reads for a thread.
abbrev pub counted : (ℕ → ℕ × ℕ) → ℕ → Counters → ℕ × ℕ
counted fresh tid m = (get_counters (fresh tid) tid m).0

counted-assign :
    (fresh : ℕ → ℕ × ℕ) (t tid : ℕ) (c : ℕ × ℕ) (m : Counters)
    → counted fresh t (assign tid c m) ≡ (if t == tid then c else counted fresh t m)
unfolding get_counters
counted-assign fresh t tid c m = ground (arith, find-assign tid t c m)

counted-known :
    (fresh : ℕ → ℕ × ℕ) (t tid : ℕ) (m : Counters)
    → counted fresh t (get_counters (fresh tid) tid m).1 ≡ counted fresh t m
unfolding get_counters
counted-known fresh t tid m = elim (Option-cases (find tid m)) [
  | inr (c, n) ↦ ground (arith, n)
  | inl n ↦ elim (Bool-cases (t == tid)) [
    | inr e ↦ ground (arith, n, e, find-insert {V = ℕ × ℕ} tid t (fresh tid) m)
    | inl e ↦
        let same : tid ≡ t = ground (arith, e) in
        let missing : find t m ≡ none = ap (λ u. find u m) (sym same) ∙ n in
        let held : find t (insert tid (fresh tid) m) ≡ some (fresh t) =
          ground (arith, n, e, find-insert {V = ℕ × ℕ} tid t (fresh tid) m)
          ∙ ap (λ u. some (fresh u)) same in
        ground (arith, n, held, missing)
  ]
]

-- One more call, of one kind, if it is the thread's and comes from outside.
abbrev count_call : Bool → Bool → ℕ × ℕ → ℕ × ℕ
count_call true false (locks, trylocks) = ((locks + 1) % 2 ^ 64, trylocks)
count_call true true (locks, trylocks) = (locks, (trylocks + 1) % 2 ^ 64)
count_call false tries c = c

-- An assignment to what `getCounters` leaves.
counted-taken :
    (fresh : ℕ → ℕ × ℕ) (t tid : ℕ) (tries : Bool) (m : Counters)
    → counted fresh t (
        assign tid (count_call true tries (counted fresh tid m)) (get_counters (fresh tid) tid m).1)
      ≡ count_call (tid == t) tries (counted fresh t m)
counted-taken fresh t tid tries m =
    let next = count_call true tries (counted fresh tid m) in
    let known = (get_counters (fresh tid) tid m).1 in
    elim (Bool-cases (tid == t)) [
      | inl e ↦
          let same : tid ≡ t = ground (arith, e) in
          let here : (t == tid) ≡ true = ground (arith, e) in
          rw e (
            counted-assign fresh t tid next known
            ∙ rw here (ap (λ u. count_call true tries (counted fresh u m)) same))
      | inr e ↦
          let there : (t == tid) ≡ false = ground (arith, e) in
          rw e (counted-assign fresh t tid next known ∙ rw there (counted-known fresh t tid m))
    ]

counted-mutex_lock :
    (fresh : ℕ → ℕ × ℕ) (t depth tid : ℕ) (m : Counters)
    → counted fresh t (mutex_lock (fresh tid) depth tid m)
      ≡ count_call (tid == t && depth == 0) false (counted fresh t m)
unfolding mutex_lock
counted-mutex_lock fresh t zero tid m = ground (arith, counted-taken fresh t tid false m)
counted-mutex_lock fresh t (suc depth) tid m = ground arith

counted-mutex_trylock :
    (fresh : ℕ → ℕ × ℕ) (t depth tid : ℕ) (m : Counters)
    → counted fresh t (mutex_trylock (fresh tid) depth tid m)
      ≡ count_call (tid == t && depth == 0) true (counted fresh t m)
unfolding mutex_trylock
counted-mutex_trylock fresh t zero tid m = ground (arith, counted-taken fresh t tid true m)
counted-mutex_trylock fresh t (suc depth) tid m = ground arith

next_mod : (a : ℕ) → (a % 2 ^ 64 + 1) % 2 ^ 64 ≡ (a + 1) % 2 ^ 64
next_mod a = omega arith

same_mod :
    (a c b d : ℕ)
    → a ≡ c
    → b ≡ d
    → ◌≡◌ {A = ℕ × ℕ} (a % 2 ^ 64, b % 2 ^ 64) (c % 2 ^ 64, d % 2 ^ 64)
same_mod a c b d h k = rw (h, k) refl

counted-run_locks :
    (fresh : ℕ → ℕ × ℕ) (calls : List LockCall) (t a b : ℕ) (m : Counters)
    → counted fresh t m ≡ (a % 2 ^ 64, b % 2 ^ 64)
    → counted fresh t (run_locks fresh calls m)
      ≡ ((a + outside_calls false t calls) % 2 ^ 64, (b + outside_calls true t calls) % 2 ^ 64)
unfolding run_locks
counted-run_locks fresh [] t a b m h = h ∙ same_mod a (a + 0) b (b + 0) (omega arith) (omega arith)
counted-run_locks fresh (lock i d ∷ calls) t a b m h =
    let now = counted-mutex_lock fresh t d i m in
    elim (Bool-cases (i == t && d == 0)) [
      | inl e ↦ rw e (
          counted-run_locks fresh calls t (a + 1) b (mutex_lock (fresh i) d i m)
            (now ∙ rw (e, h) (ap (λ n. (n, b % 2 ^ 64)) (next_mod a)))
          ∙ ap (λ n. (n % 2 ^ 64, (b + outside_calls true t calls) % 2 ^ 64)) (omega arith))
      | inr e ↦
          rw e (counted-run_locks fresh calls t a b (mutex_lock (fresh i) d i m) (now ∙ rw e h))
    ]
counted-run_locks fresh (try_lock i d ∷ calls) t a b m h =
    let now = counted-mutex_trylock fresh t d i m in
    elim (Bool-cases (i == t && d == 0)) [
      | inl e ↦ rw e (
          counted-run_locks fresh calls t a (b + 1) (mutex_trylock (fresh i) d i m)
            (now ∙ rw (e, h) (ap (λ n. (a % 2 ^ 64, n)) (next_mod b)))
          ∙ ap (λ n. ((a + outside_calls false t calls) % 2 ^ 64, n % 2 ^ 64)) (omega arith))
      | inr e ↦
          rw e (counted-run_locks fresh calls t a b (mutex_trylock (fresh i) d i m) (now ∙ rw e h))
    ]

-- After any calls of the wrappers by any threads in any order: the counters that `getpthreads` reads for a
-- thread have grown by how often it has called lock and how often trylock outside of all other
-- wrappers, each modulo 2 ^ 64, from what the memory held when the counters were made.
pub run_locks_lem :
    (fresh : ℕ → ℕ × ℕ) (calls : List LockCall) (t : ℕ)
    → (fresh t).0 < 2 ^ 64
    → (fresh t).1 < 2 ^ 64
    → counted fresh t (run_locks fresh calls []) ≡ (
      ((fresh t).0 + outside_calls false t calls) % 2 ^ 64,
      ((fresh t).1 + outside_calls true t calls) % 2 ^ 64,
    )
unfolding get_counters find
run_locks_lem fresh calls t h k =
    let a : (fresh t).0 % 2 ^ 64 ≡ (fresh t).0 = omega arith in
    let b : (fresh t).1 % 2 ^ 64 ≡ (fresh t).1 = omega arith in
    counted-run_locks fresh calls t (fresh t).0 (fresh t).1 [] (ground (arith, a, b))
