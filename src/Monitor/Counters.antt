-- ===== src/Monitor/Counters.antt =====
-- src/zerosum_pthreads.cpp: the wrappers of the functions on locks, which count the calls of each thread,
-- and the counters that `getpthreads` reads.
pub mod Counted
use zerosum.Base.{ℕ, ◌+◌, ◌%◌, ◌^◌, ◌==◌, none, some, if◌then◌else◌}
use zerosum.StdMap.{nat_ord, Map, find, insert, assign}

-- The calls of lock and of trylock, for each thread.
abbrev pub Counters : Type 0
Counters = Map ℕ (ℕ × ℕ)

-- `getCounters`. The counters of a thread that is new are `fresh`: they are not initialized.
unfoldable pub get_counters : ℕ × ℕ → ℕ → Counters → (ℕ × ℕ) × Counters
get_counters fresh tid m = elim (find tid m) [
  | none ↦ (fresh, insert tid fresh m)
  | some c ↦ (c, m)
]

-- A call of a wrapper by a thread that is inside of `depth` wrappers already: `in_zs` makes one more. Only
-- the outermost is counted, also where it is ZeroSum that calls it.
unfoldable pub mutex_lock : ℕ × ℕ → ℕ → ℕ → Counters → Counters
unfolding get_counters
mutex_lock fresh depth tid m =
    let ((locks, trylocks), known) = get_counters fresh tid m in
    if depth + 1 == 1 then assign tid ((locks + 1) % 2 ^ 64, trylocks) known else m

unfoldable pub mutex_trylock : ℕ × ℕ → ℕ → ℕ → Counters → Counters
unfolding get_counters
mutex_trylock fresh depth tid m =
    let ((locks, trylocks), known) = get_counters fresh tid m in
    if depth + 1 == 1 then assign tid (locks, (trylocks + 1) % 2 ^ 64) known else m
