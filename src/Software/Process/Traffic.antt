-- ===== src/Software/Process/Traffic.antt =====
-- The traffic that a process has recorded, against the list of the calls.
use zerosum.Base.{
  ℕ, ◌+◌, ◌%◌, ◌^◌, ◌≡◌, refl, List, [], ◌∷◌, Option, none, some, arith, if◌then◌else◌, length,
  Option-cases, inl, inr,
}
use zerosum.Base.Int.{ℤ}
use zerosum.Software.Process.{Process, Calls, record_call, record_sent_bytes, one_more}
use zerosum.StdMap.{int_ord, find, insert, is_eq, find-insert, find-assign}

unfoldable pub record_all : List (ℤ × ℕ) → Process → Process
record_all [] p = p
record_all ((dest, bytes) ∷ calls) p = record_all calls (record_sent_bytes dest bytes p)

-- The sizes of the calls to one rank.
unfoldable pub sizes_to : ℤ → List (ℤ × ℕ) → List ℕ
sizes_to j [] = []
sizes_to j ((dest, bytes) ∷ calls) =
    if is_eq (int_ord.cmp j dest) then bytes ∷ sizes_to j calls else sizes_to j calls

abbrev sum : List ℕ → ℕ
sum [] = 0
sum (n ∷ ns) = n + sum ns

-- What is known of a rank that had `entry` and then calls of these sizes.
abbrev pub entry_after : Option (ℕ × ℕ) → List ℕ → Option (ℕ × ℕ)
entry_after entry [] = entry
entry_after none (n ∷ ns) = some ((1 + length ns) % 2 ^ 64, (n + sum ns) % 2 ^ 64)
entry_after (some (calls, bytes)) (n ∷ ns) =
    some ((calls + 1 + length ns) % 2 ^ 64, (bytes + n + sum ns) % 2 ^ 64)

find-record_call :
    (dest j : ℤ) (bytes : ℕ) (m : Calls)
    → find j (record_call dest bytes m)
      ≡ (if is_eq (int_ord.cmp j dest) then entry_after (find j m) (bytes ∷ []) else find j m)
unfolding record_call
find-record_call dest j bytes m = elim (Option-cases (find dest m)) [
  | inl n ↦ ground (
    arith,
    int_ord.cmp_eq j dest,
    int_ord.cmp_refl dest,
    find-insert dest dest (0, 0) m,
    find-insert dest j (0, 0) m,
    find-assign dest j (one_more bytes (0, 0)) (insert dest (0, 0) m),
  )
  | inr ((k, b), s) ↦ ground (
    arith,
    int_ord.cmp_eq j dest,
    int_ord.cmp_refl dest,
    find-assign dest j (one_more bytes (k, b)) m,
  )
]

-- After any history of sends, from any process, the entry of a rank counts the calls to it and sums
-- their sizes, both modulo 2 ^ 64, on top of the entry that it had; a rank that was not sent to has
-- the entry that it had, or none.
pub record_all_totals :
    (calls : List (ℤ × ℕ)) (p : Process) (j : ℤ)
    → find j (record_all calls p).sent_bytes ≡ entry_after (find j p.sent_bytes) (sizes_to j calls)
unfolding record_all sizes_to record_sent_bytes
record_all_totals [] p j = refl
record_all_totals ((dest, bytes) ∷ calls) p j = ground (
  arith,
  record_all_totals calls (record_sent_bytes dest bytes p) j,
  find-record_call dest j bytes p.sent_bytes,
)
