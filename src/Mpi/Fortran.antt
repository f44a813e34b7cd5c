-- ===== src/Mpi/Fortran.antt =====
-- src/zerosum_mpi.cpp: the wrappers for Fortran, once for each spelling of a name. They read their
-- arguments, convert the handles by functions of MPI, which are parameters, and call the wrappers for C.
-- What they write back, the error, the status and the request, is left out.
use zerosum.Base.{ℕ, ◌≡◌, refl, List, [], ◌∷◌, map}
use zerosum.Base.Int.{ℤ}
use zerosum.Mpi.{
  Mpi, Recorder, Call, send, bsend, rsend, ssend, isend, recv, irecv, sendrecv, call, mpi_send,
  mpi_bsend, mpi_rsend, mpi_ssend, mpi_isend, mpi_recv, mpi_irecv, mpi_sendrecv,
}
use zerosum.Mpi.Totals.{run_calls}

module _ (mpi : Mpi) (type_f2c comm_f2c : ℤ → ℕ) where
  unfoldable pub fortran_send : ℤ → ℤ → ℤ → ℤ → Recorder → Recorder
  fortran_send count datatype dest comm =
      mpi_send mpi count (type_f2c datatype) dest (comm_f2c comm)

  unfoldable pub fortran_bsend : ℤ → ℤ → ℤ → ℤ → Recorder → Recorder
  fortran_bsend count datatype dest comm =
      mpi_bsend mpi count (type_f2c datatype) dest (comm_f2c comm)

  unfoldable pub fortran_rsend : ℤ → ℤ → ℤ → ℤ → Recorder → Recorder
  fortran_rsend count datatype dest comm =
      mpi_rsend mpi count (type_f2c datatype) dest (comm_f2c comm)

  unfoldable pub fortran_ssend : ℤ → ℤ → ℤ → ℤ → Recorder → Recorder
  fortran_ssend count datatype dest comm =
      mpi_ssend mpi count (type_f2c datatype) dest (comm_f2c comm)

  unfoldable pub fortran_isend : ℤ → ℤ → ℤ → ℤ → Recorder → Recorder
  fortran_isend count datatype dest comm =
      mpi_isend mpi count (type_f2c datatype) dest (comm_f2c comm)

  unfoldable pub fortran_recv : ℤ → ℤ → ℤ → ℤ → Recorder → Recorder
  fortran_recv count datatype source comm =
      mpi_recv mpi count (type_f2c datatype) source (comm_f2c comm)

  unfoldable pub fortran_irecv : ℤ → ℤ → ℤ → ℤ → Recorder → Recorder
  fortran_irecv count datatype source comm =
      mpi_irecv mpi count (type_f2c datatype) source (comm_f2c comm)

  unfoldable pub fortran_sendrecv : ℤ → ℤ → ℤ → ℤ → ℤ → ℤ → ℤ → Recorder → Recorder
  fortran_sendrecv send_count send_type dest recv_count recv_type source comm =
      mpi_sendrecv mpi send_count (type_f2c send_type) dest recv_count (type_f2c recv_type) source
        (comm_f2c comm)

-- A call from either language.
pub data MixedCall : Type 0 where
  from_c : Call → MixedCall
  f_send f_bsend f_rsend f_ssend f_isend f_recv f_irecv : ℤ → ℤ → ℤ → ℤ → MixedCall
  f_sendrecv : ℤ → ℤ → ℤ → ℤ → ℤ → ℤ → ℤ → MixedCall

module _ (mpi : Mpi) (type_f2c comm_f2c : ℤ → ℕ) where
  unfoldable mixed_call : MixedCall → Recorder → Recorder
  unfolding fortran_send fortran_bsend fortran_rsend fortran_ssend fortran_isend fortran_recv
      fortran_irecv fortran_sendrecv
  mixed_call (from_c c) = call mpi c
  mixed_call (f_send n t r c) = fortran_send mpi type_f2c comm_f2c n t r c
  mixed_call (f_bsend n t r c) = fortran_bsend mpi type_f2c comm_f2c n t r c
  mixed_call (f_rsend n t r c) = fortran_rsend mpi type_f2c comm_f2c n t r c
  mixed_call (f_ssend n t r c) = fortran_ssend mpi type_f2c comm_f2c n t r c
  mixed_call (f_isend n t r c) = fortran_isend mpi type_f2c comm_f2c n t r c
  mixed_call (f_recv n t r c) = fortran_recv mpi type_f2c comm_f2c n t r c
  mixed_call (f_irecv n t r c) = fortran_irecv mpi type_f2c comm_f2c n t r c
  mixed_call (f_sendrecv n t d m u r c) = fortran_sendrecv mpi type_f2c comm_f2c n t d m u r c

  unfoldable run_mixed : List MixedCall → Recorder → Recorder
  unfolding mixed_call
  run_mixed [] s = s
  run_mixed (c ∷ calls) s = run_mixed calls (mixed_call c s)

  -- The call for C with the same meaning.
  abbrev in_c : MixedCall → Call
  in_c (from_c c) = c
  in_c (f_send n t r c) = send n (type_f2c t) r (comm_f2c c)
  in_c (f_bsend n t r c) = bsend n (type_f2c t) r (comm_f2c c)
  in_c (f_rsend n t r c) = rsend n (type_f2c t) r (comm_f2c c)
  in_c (f_ssend n t r c) = ssend n (type_f2c t) r (comm_f2c c)
  in_c (f_isend n t r c) = isend n (type_f2c t) r (comm_f2c c)
  in_c (f_recv n t r c) = recv n (type_f2c t) r (comm_f2c c)
  in_c (f_irecv n t r c) = irecv n (type_f2c t) r (comm_f2c c)
  in_c (f_sendrecv n t d m u r c) = sendrecv n (type_f2c t) d m (type_f2c u) r (comm_f2c c)

  mixed_call-in_c : (c : MixedCall) (s : Recorder) → mixed_call c s ≡ call mpi (in_c c) s
  unfolding mixed_call call
  mixed_call-in_c (from_c c) s = refl
  mixed_call-in_c (f_send n t r c) s = refl
  mixed_call-in_c (f_bsend n t r c) s = refl
  mixed_call-in_c (f_rsend n t r c) s = refl
  mixed_call-in_c (f_ssend n t r c) s = refl
  mixed_call-in_c (f_isend n t r c) s = refl
  mixed_call-in_c (f_recv n t r c) s = refl
  mixed_call-in_c (f_irecv n t r c) s = refl
  mixed_call-in_c (f_sendrecv n t d m u r c) s = refl

  -- A program in both languages records what one in C would, so that its totals are those.
  run_mixed-run_calls :
      (calls : List MixedCall) (s : Recorder) → run_mixed calls s ≡ run_calls mpi (map in_c calls) s
  unfolding run_mixed run_calls
  run_mixed-run_calls [] s = refl
  run_mixed-run_calls (c ∷ calls) s =
      rw (mixed_call-in_c c s) (run_mixed-run_calls calls (call mpi (in_c c) s))
