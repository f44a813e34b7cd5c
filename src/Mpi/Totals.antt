-- ===== src/Mpi/Totals.antt =====
-- The traffic that a process has after any sequence of MPI calls, against the calls themselves.
use zerosum.Base.{
  ℕ, ◌≡◌, refl, List, [], ◌∷◌, ◌∙◌, ap, Option, none, some, arith, sym, Option-cases, inl, inr,
}
use zerosum.Base.Int.{ℤ}
use zerosum.Mpi.{
  Mpi, Recorder, Call, send, bsend, rsend, ssend, isend, recv, irecv, sendrecv, call, record_send,
  record_receive, get_bytes_transferred, through_double,
}
use zerosum.Mpi.Cache.{world_rank, IsSound, translate-IsSound}
use zerosum.Software.Process.{Process, Calls, record_call, record_sent_bytes, record_recv_bytes}
use zerosum.Software.Process.Traffic.{record_all, sizes_to, entry_after, record_all_totals}
use zerosum.StdMap.{int_ord, find}

-- What a call sends and receives: the rank among all processes, and the number of bytes.
abbrev pub sent_by : Mpi → Call → Option (ℤ × ℕ)
sent_by mpi (send n t r c) = some (world_rank mpi c r, get_bytes_transferred mpi n t)
sent_by mpi (bsend n t r c) = some (world_rank mpi c r, get_bytes_transferred mpi n t)
sent_by mpi (rsend n t r c) = some (world_rank mpi c r, get_bytes_transferred mpi n t)
sent_by mpi (ssend n t r c) = some (world_rank mpi c r, get_bytes_transferred mpi n t)
sent_by mpi (isend n t r c) = some (world_rank mpi c r, get_bytes_transferred mpi n t)
sent_by mpi (recv n t r c) = none
sent_by mpi (irecv n t r c) = none
sent_by mpi (sendrecv n t d m u r c) =
    some (world_rank mpi c d, through_double (get_bytes_transferred mpi n t))

abbrev pub received_by : Mpi → Call → Option (ℤ × ℕ)
received_by mpi (recv n t r c) =
    some (world_rank mpi c r, through_double (get_bytes_transferred mpi n t))
received_by mpi (irecv n t r c) =
    some (world_rank mpi c r, through_double (get_bytes_transferred mpi n t))
received_by mpi (sendrecv n t d m u r c) =
    some (world_rank mpi c r, through_double (get_bytes_transferred mpi m u))
received_by mpi (send n t r c) = none
received_by mpi (bsend n t r c) = none
received_by mpi (rsend n t r c) = none
received_by mpi (ssend n t r c) = none
received_by mpi (isend n t r c) = none

-- The answers for all calls, in order.
abbrev pub gather : (Call → Option (ℤ × ℕ)) → List Call → List (ℤ × ℕ)
gather f [] = []
gather f (c ∷ calls) = elim (f c) [ none ↦ gather f calls | some entry ↦ entry ∷ gather f calls ]

record_list : List (ℤ × ℕ) → Calls → Calls
record_list [] m = m
record_list ((rank, bytes) ∷ entries) m = record_list entries (record_call rank bytes m)

record_one : Option (ℤ × ℕ) → Calls → Calls
record_one none m = m
record_one (some (rank, bytes)) m = record_call rank bytes m

-- What one call does to the three parts of the recorder.
record Recorded (mpi : Mpi) (sent received : Option (ℤ × ℕ)) (s s' : Recorder) : Type 0 where
  sent_part : s'.process.sent_bytes ≡ record_one sent s.process.sent_bytes
  received_part : s'.process.recv_bytes ≡ record_one received s.process.recv_bytes
  sound_part : IsSound mpi s'.comms

record_send-Recorded :
    (mpi : Mpi) (bytes : ℕ) (dest : ℤ) (comm : ℕ) (s : Recorder)
    → IsSound mpi s.comms
    → Recorded mpi
        (some (world_rank mpi comm dest, bytes))
        none
        s
        (record_send mpi bytes dest comm s)
unfolding record_send record_sent_bytes record_one
record_send-Recorded mpi bytes dest comm s h =
    let (answer, kept) = translate-IsSound mpi comm dest s.comms h in
    record {
      sent_part = ap (λ r. record_call r bytes s.process.sent_bytes) answer;
      received_part = refl;
      sound_part = kept;
    }

record_receive-Recorded :
    (mpi : Mpi) (bytes : ℕ) (source : ℤ) (comm : ℕ) (s : Recorder)
    → IsSound mpi s.comms
    → Recorded mpi none
        (some (world_rank mpi comm source, bytes))
        s
        (record_receive mpi bytes source comm s)
unfolding record_receive record_recv_bytes record_one
record_receive-Recorded mpi bytes source comm s h =
    let (answer, kept) = translate-IsSound mpi comm source s.comms h in
    record {
      sent_part = refl;
      received_part = ap (λ r. record_call r bytes s.process.recv_bytes) answer;
      sound_part = kept;
    }

call-Recorded :
    (mpi : Mpi) (c : Call) (s : Recorder)
    → IsSound mpi s.comms
    → Recorded mpi (sent_by mpi c) (received_by mpi c) s (call mpi c s)
unfolding call record_one
call-Recorded mpi (send n t r c) s h = record_send-Recorded mpi _ r c s h
call-Recorded mpi (bsend n t r c) s h = record_send-Recorded mpi _ r c s h
call-Recorded mpi (rsend n t r c) s h = record_send-Recorded mpi _ r c s h
call-Recorded mpi (ssend n t r c) s h = record_send-Recorded mpi _ r c s h
call-Recorded mpi (isend n t r c) s h = record_send-Recorded mpi _ r c s h
call-Recorded mpi (recv n t r c) s h = record_receive-Recorded mpi _ r c s h
call-Recorded mpi (irecv n t r c) s h = record_receive-Recorded mpi _ r c s h
call-Recorded mpi (sendrecv n t d m u r c) s h =
    let first = record_send-Recorded mpi (through_double (get_bytes_transferred mpi n t)) d c s h in
    let second =
      record_receive-Recorded mpi (through_double (get_bytes_transferred mpi m u)) r c _
        first.sound_part in
    record {
      sent_part = second.sent_part ∙ first.sent_part;
      received_part =
          second.received_part
          ∙ ap
              (record_one
                (some (world_rank mpi c r, through_double (get_bytes_transferred mpi m u))))
              first.received_part;
      sound_part = second.sound_part;
    }

unfoldable pub run_calls : Mpi → List Call → Recorder → Recorder
run_calls mpi [] s = s
run_calls mpi (c ∷ calls) s = run_calls mpi calls (call mpi c s)

record_list-gather :
    (f : Call → Option (ℤ × ℕ)) (c : Call) (calls : List Call) (m : Calls)
    → record_list (gather f calls) (record_one (f c) m) ≡ record_list (gather f (c ∷ calls)) m
unfolding record_list record_one
record_list-gather f c calls m = elim (Option-cases (f c)) [
  | inl e ↦ ground (arith, e)
  | inr ((rank, bytes), e) ↦ ground (arith, e)
]

run_calls-lists :
    (mpi : Mpi) (calls : List Call) (s : Recorder)
    → IsSound mpi s.comms
    → let s' = run_calls mpi calls s in
      (s'.process.sent_bytes ≡ record_list (gather (sent_by mpi) calls) s.process.sent_bytes)
      × (s'.process.recv_bytes ≡ record_list (gather (received_by mpi) calls) s.process.recv_bytes)
unfolding run_calls record_list
run_calls-lists mpi [] s h = (refl, refl)
run_calls-lists mpi (c ∷ calls) s h =
    let one = call-Recorded mpi c s h in
    let (a, b) = run_calls-lists mpi calls (call mpi c s) one.sound_part in
    (
      a
          ∙ ap (record_list (gather (sent_by mpi) calls)) one.sent_part
          ∙ record_list-gather (sent_by mpi) c calls s.process.sent_bytes,
      b
          ∙ ap (record_list (gather (received_by mpi) calls)) one.received_part
          ∙ record_list-gather (received_by mpi) c calls s.process.recv_bytes,
    )

record_list-record_all :
    (entries : List (ℤ × ℕ)) (p : Process)
    → (record_all entries p).sent_bytes ≡ record_list entries p.sent_bytes
unfolding record_all record_list record_sent_bytes
record_list-record_all [] p = refl
record_list-record_all ((rank, bytes) ∷ entries) p =
    record_list-record_all entries (record_sent_bytes rank bytes p)

record_list-totals :
    (entries : List (ℤ × ℕ)) (p : Process) (m : Calls) (j : ℤ)
    → find j (record_list entries m) ≡ entry_after (find j m) (sizes_to j entries)
record_list-totals entries p m j =
    ap (find j) (sym (record_list-record_all entries (record p { sent_bytes = m })))
    ∙ record_all_totals entries (record p { sent_bytes = m }) j

-- After any sequence of MPI calls in which the library does not change its answers, the entries of
-- a rank among all processes count the calls that sent to it and the calls that named it as the
-- source, and sum their sizes, modulo 2 ^ 64, on top of what was recorded before, whatever the
-- communicators were that the calls named the rank in.
pub run_calls_totals :
    (mpi : Mpi) (calls : List Call) (p : Process) (j : ℤ)
    → let s = run_calls mpi calls (record { process = p; comms = [] }) in
      (find j s.process.sent_bytes
        ≡ entry_after (find j p.sent_bytes) (sizes_to j (gather (sent_by mpi) calls)))
      × (find j s.process.recv_bytes
          ≡ entry_after (find j p.recv_bytes) (sizes_to j (gather (received_by mpi) calls)))
run_calls_totals mpi calls p j =
    let start : Recorder = record { process = p; comms = [] } in
    let (a, b) = run_calls-lists mpi calls start (unfold find in λ comm rank w e. ground arith) in
    (
      ap (find j) a ∙ record_list-totals (gather (sent_by mpi) calls) p p.sent_bytes j,
      ap (find j) b ∙ record_list-totals (gather (received_by mpi) calls) p p.recv_bytes j,
    )
