-- ===== src/Tests/Messages.antt =====
-- The traffic of a rank: the wrappers of MPI, and the program that merges the logs.
use zerosum.Base.{ℕ, ◌+◌, ◌≡◌, ◌≢◌, refl, true, false, List, [], ◌∷◌, arith, ◌==◌}
use zerosum.Base.Int.{ℤ, pos, negsuc}
use zerosum.Merge.{Merged, log_of, merge_lines, zeros}
use zerosum.Merge.Cells.{cell, cell_after, calls_part, bytes_part}
use zerosum.Merge.Names.{log_filename-ne-log_of}
use zerosum.Merge.Rows.{merge_lines-traffic}
use zerosum.Mpi.{Mpi, Call, send, irecv, sendrecv}
use zerosum.Mpi.Cache.{translate_all, world_ranks, translate_all-world_ranks}
use zerosum.Mpi.Totals.{sent_by, received_by, gather, run_calls, run_calls_totals}
use zerosum.Software.Process.{Process, new}
use zerosum.Software.Process.Report.{traffic}
use zerosum.Software.Process.Traffic.{sizes_to, entry_after}
use zerosum.StdMap.{int_ord, compare_ℤ, find}
use zerosum.Text.{codes, getline_items, ok}
use zerosum.Utils.Filename.{Identity, log_filename}

-- A library with a communicator 5 that has the ranks of the run from 4 on.
abbrev from : ℕ → Mpi
from first = record {
  any_source = negsuc 1;
  root = negsuc 2;
  comm_world = 0;
  type_size = λ datatype. pos datatype;
  is_like_world = λ comm. comm == 1;
  translate = λ comm rank. elim rank [ pos r ↦ pos (first + r) | negsuc r ↦ negsuc r ];
}

abbrev questions : List (ℕ × ℤ)
questions = (5, pos 1) ∷ (0, pos 1) ∷ (5, pos 1) ∷ (5, negsuc 1) ∷ (1, pos 3) ∷ []

translate_all-world_ranks_example :
    translate_all (from 4) questions [] ≡ world_ranks (from 4) questions
translate_all-world_ranks_example = translate_all-world_ranks (from 4) questions

abbrev process : Process
process = new 100 100 0 4 [] (0 ∷ 1 ∷ [])

abbrev calls : List Call
calls =
    send (pos 100) 8 (pos 1) 5
    ∷ irecv (pos 3) 4 (negsuc 1) 0
    ∷ sendrecv (pos 2) 8 (pos 5) (pos 1) 1 (pos 5) 0
    ∷ []

run_calls_totals_example :
    let s = run_calls (from 4) calls (record { process = process; comms = [] }) in
    (find (pos 5) s.process.sent_bytes
      ≡ entry_after
          (find (pos 5) process.sent_bytes)
          (sizes_to (pos 5) (gather (sent_by (from 4)) calls)))
    × (find (pos 5) s.process.recv_bytes
        ≡ entry_after
            (find (pos 5) process.recv_bytes)
            (sizes_to (pos 5) (gather (received_by (from 4)) calls)))
run_calls_totals_example = run_calls_totals (from 4) calls process (pos 5)

abbrev rank_in : ℕ → ℕ → Identity
rank_in size rank = record {
  use_pid = false;
  max_pid = 4194304;
  pid = 1000 + rank;
  hostname = codes "node1";
  size = size;
  rank = rank;
}

log_filename-ne-log_of_example : log_filename (rank_in 64 7) ≢ log_of 12
log_filename-ne-log_of_example =
    log_filename-ne-log_of (rank_in 64 7) 12 refl (omega arith) (omega arith)

-- Rank 1 of three, with traffic to both others.
abbrev talker : Process
talker = record process {
  sent_bytes = (pos 0, (2, 64)) ∷ (pos 2, (1, 8)) ∷ [];
  recv_bytes = (pos 2, (3, 300)) ∷ [];
}

abbrev start : Merged
start = record {
  sent_count = zeros 3;
  sent_bytes = zeros 3;
  recv_count = zeros 3;
  recv_bytes = zeros 3;
}

merge_lines-traffic_example :
    (s' : Merged) × (merge_lines 1 (getline_items b'\n' (traffic true talker)) start ≡ ok s')
    × (cell s'.sent_count 1 2 ≡ cell_after calls_part talker.sent_bytes 2 (cell (zeros 3) 1 2))
    × (cell s'.sent_bytes 1 2 ≡ cell_after bytes_part talker.sent_bytes 2 (cell (zeros 3) 1 2))
    × (cell s'.recv_count 1 2 ≡ cell_after calls_part talker.recv_bytes 2 (cell (zeros 3) 1 2))
    × (cell s'.recv_bytes 1 2 ≡ cell_after bytes_part talker.recv_bytes 2 (cell (zeros 3) 1 2))
unfolding compare_ℤ
merge_lines-traffic_example =
    merge_lines-traffic 3 1 2 talker start (0 ∷ 0 ∷ 0 ∷ []) (0 ∷ 0 ∷ 0 ∷ []) (0 ∷ 0 ∷ 0 ∷ [])
      (0 ∷ 0 ∷ 0 ∷ []) (omega arith)
      (omega arith, omega arith, omega arith, (omega arith, omega arith, omega arith, tt))
      (omega arith, omega arith, omega arith, tt) (refl, tt) tt
      (record {
        is_sent_count = refl;
        is_sent_bytes = refl;
        is_recv_count = refl;
        is_recv_bytes = refl;
      })
      refl refl refl refl
