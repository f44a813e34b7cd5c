-- ===== src/Mpi.antt =====
-- src/zerosum_mpi.cpp: the wrappers of the MPI functions, which record the traffic of the process
-- before they call the library. The wrappers for Fortran convert the handles and call these.
pub mod Cache
pub mod Totals
pub mod Fortran
use zerosum.Base.{
  ℕ, zero, suc, ◌+◌, ◌-◌, ◌*◌, ◌/◌, ◌%◌, ◌^◌, Bool, true, false, ◌&&◌, ◌||◌, List, [], ◌∷◌, Option,
  none, some, ltb, leb, ◌==◌, if◌then◌else◌,
}
use zerosum.Base.Int.{ℤ, pos, negsuc, to_u64}
use zerosum.Software.Process.{Process, record_sent_bytes, record_recv_bytes}
use zerosum.StdMap.{nat_ord, int_ord, Map, find, insert, assign, find_or, is_eq}

-- What the library answers: its constants, the size of a datatype, whether a communicator is
-- congruent or identical to the one of all processes, and the translation of a rank between groups.
-- Handles of communicators and datatypes are numbers.
pub record Mpi : Type 0 where
  pub any_source : ℤ
  pub root : ℤ
  pub comm_world : ℕ
  pub type_size : ℕ → ℤ
  pub is_like_world : ℕ → Bool
  pub translate : ℕ → ℤ → ℤ

-- The static map of `translateRankToWorld`.
abbrev pub Comms : Type 0
Comms = Map ℕ (Map ℤ ℤ)

abbrev pub same_rank : ℤ → ℤ → Bool
same_rank a b = is_eq (int_ord.cmp a b)

-- How often a number is halved until it has at most 53 bits; a `size_t` needs eleven times.
excess : ℕ → ℕ → ℕ
excess zero n = 0
excess (suc fuel) n = let rest = excess fuel (n / 2) in if ltb n (2 ^ 53) then 0 else suc rest

-- The quotient by `unit`, to the nearest, and to the even one of two that are as near.
abbrev nearest : ℕ → ℕ → ℕ
nearest n unit =
    let q = n / unit in
    let twice = 2 * (n % unit) in
    if ltb unit twice || (twice == unit && q % 2 == 1) then q + 1 else q

-- `double bytes = …`, handed on as a `size_t`.
unfoldable pub through_double : ℕ → ℕ
unfolding excess
through_double n = let unit = 2 ^ excess 11 n in nearest n unit * unit

module _ (mpi : Mpi) where
  unfoldable pub get_bytes_transferred : ℤ → ℕ → ℕ
  get_bytes_transferred count datatype = to_u64 (mpi.type_size datatype) * to_u64 count % 2 ^ 64

  -- The part behind a rank that is not in the map.
  abbrev pub ask_world_rank : ℕ → ℤ → ℤ
  ask_world_rank comm rank = if mpi.is_like_world comm then rank else mpi.translate comm rank

  unfoldable pub translate_rank_to_world : ℕ → ℤ → Comms → ℤ × Comms
  translate_rank_to_world comm rank comms =
      if same_rank rank mpi.any_source
      then (rank, comms)
      else if same_rank rank mpi.root
      then (rank, comms)
      else if comm == mpi.comm_world
      then (rank, comms)
      else (let made = insert comm [] comms in
          let comm_ranks = find_or [] comm made in
          elim (find rank comm_ranks) [
            | some world_rank ↦ (world_rank, made)
            | none ↦ (
              ask_world_rank comm rank,
              assign comm (assign rank (ask_world_rank comm rank) comm_ranks) made,
            )
          ])

-- The process and the static map.
pub record Recorder : Type 0 where
  pub process : Process
  pub comms : Comms

module _ (mpi : Mpi) where
  unfoldable pub record_send : ℕ → ℤ → ℕ → Recorder → Recorder
  unfolding translate_rank_to_world
  record_send bytes dest comm s =
      let (rank, comms) = translate_rank_to_world mpi comm dest s.comms in
      record { process = record_sent_bytes rank bytes s.process; comms = comms }

  unfoldable pub record_receive : ℕ → ℤ → ℕ → Recorder → Recorder
  unfolding translate_rank_to_world
  record_receive bytes source comm s =
      let (rank, comms) = translate_rank_to_world mpi comm source s.comms in
      record { process = record_recv_bytes rank bytes s.process; comms = comms }

  -- The arguments are those that the wrappers use: count, datatype, the other rank, communicator.
  unfoldable pub mpi_send : ℤ → ℕ → ℤ → ℕ → Recorder → Recorder
  mpi_send count datatype dest comm =
      record_send (get_bytes_transferred mpi count datatype) dest comm

  unfoldable pub mpi_bsend : ℤ → ℕ → ℤ → ℕ → Recorder → Recorder
  mpi_bsend count datatype dest comm =
      record_send (get_bytes_transferred mpi count datatype) dest comm

  unfoldable pub mpi_rsend : ℤ → ℕ → ℤ → ℕ → Recorder → Recorder
  mpi_rsend count datatype dest comm =
      record_send (get_bytes_transferred mpi count datatype) dest comm

  unfoldable pub mpi_ssend : ℤ → ℕ → ℤ → ℕ → Recorder → Recorder
  mpi_ssend count datatype dest comm =
      record_send (get_bytes_transferred mpi count datatype) dest comm

  unfoldable pub mpi_isend : ℤ → ℕ → ℤ → ℕ → Recorder → Recorder
  mpi_isend count datatype dest comm =
      record_send (get_bytes_transferred mpi count datatype) dest comm

  unfoldable pub mpi_recv : ℤ → ℕ → ℤ → ℕ → Recorder → Recorder
  mpi_recv count datatype source comm =
      record_receive (through_double (get_bytes_transferred mpi count datatype)) source comm

  unfoldable pub mpi_irecv : ℤ → ℕ → ℤ → ℕ → Recorder → Recorder
  mpi_irecv count datatype source comm =
      record_receive (through_double (get_bytes_transferred mpi count datatype)) source comm

  -- The second part of the arguments is for what is received.
  unfoldable pub mpi_sendrecv : ℤ → ℕ → ℤ → ℤ → ℕ → ℤ → ℕ → Recorder → Recorder
  mpi_sendrecv send_count send_type dest recv_count recv_type source comm s =
      record_receive (through_double (get_bytes_transferred mpi recv_count recv_type)) source comm
        (record_send (through_double (get_bytes_transferred mpi send_count send_type)) dest comm s)

-- One call of a wrapper.
pub data Call : Type 0 where
  send bsend rsend ssend isend recv irecv : ℤ → ℕ → ℤ → ℕ → Call
  sendrecv : ℤ → ℕ → ℤ → ℤ → ℕ → ℤ → ℕ → Call

unfoldable pub call : Mpi → Call → Recorder → Recorder
unfolding mpi_send mpi_bsend mpi_rsend mpi_ssend mpi_isend mpi_recv mpi_irecv mpi_sendrecv
call mpi (send n t r c) = mpi_send mpi n t r c
call mpi (bsend n t r c) = mpi_bsend mpi n t r c
call mpi (rsend n t r c) = mpi_rsend mpi n t r c
call mpi (ssend n t r c) = mpi_ssend mpi n t r c
call mpi (isend n t r c) = mpi_isend mpi n t r c
call mpi (recv n t r c) = mpi_recv mpi n t r c
call mpi (irecv n t r c) = mpi_irecv mpi n t r c
call mpi (sendrecv n t d m u r c) = mpi_sendrecv mpi n t d m u r c
