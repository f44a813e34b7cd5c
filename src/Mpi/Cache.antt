-- ===== src/Mpi/Cache.antt =====
-- `translateRankToWorld` with its map, against the translation without one.
use zerosum.Base.{
  ℕ, ◌≡◌, ◌≢◌, refl, false, List, [], ◌∷◌, Option, some, arith, ◌==◌, ==_iff, if◌then◌else◌,
  Option-cases, inl, inr, ap₂,
}
use zerosum.Base.Int.{ℤ}
use zerosum.Mpi.{Mpi, Comms, same_rank, ask_world_rank, translate_rank_to_world}
use zerosum.StdMap.{nat_ord, int_ord, Map, find, insert, assign, find_or, find-insert, find-assign}

-- The rank among all processes, asked of the library each time.
abbrev pub world_rank : Mpi → ℕ → ℤ → ℤ
world_rank mpi comm rank =
    if same_rank rank mpi.any_source
    then rank
    else if same_rank rank mpi.root
    then rank
    else if comm == mpi.comm_world
    then rank
    else ask_world_rank mpi comm rank

-- The maps that are kept, looked up by a communicator and a rank.
abbrev pub cached : ℕ → ℤ → Comms → Option ℤ
cached comm rank comms = find rank (find_or [] comm comms)

-- What is kept is what the library answers.
abbrev pub IsSound : Mpi → Comms → Type 0
IsSound mpi comms =
    (comm : ℕ) (rank w : ℤ) → cached comm rank comms ≡ some w → w ≡ ask_world_rank mpi comm rank

cached-insert :
    (c comm : ℕ) (r : ℤ) (comms : Comms) → cached c r (insert comm [] comms) ≡ cached c r comms
unfolding find
cached-insert c comm r comms =
    ground (arith, find-insert {V = Map ℤ ℤ} comm c [] comms, nat_ord.cmp_eq c comm)

cached-assign :
    (c comm : ℕ) (r rank w : ℤ) (comms : Comms)
    → cached c r (assign comm (assign rank w (find_or [] comm comms)) comms) ≡ (
        if c == comm
        then (if same_rank r rank then some w else cached c r comms)
        else cached c r comms)
cached-assign c comm r rank w comms = ground (
  arith,
  find-assign comm c (assign rank w (find_or [] comm comms)) comms,
  find-assign rank r w (find_or [] comm comms),
  nat_ord.cmp_eq c comm,
  int_ord.cmp_eq r rank,
)

-- With a map that is sound, one call gives the answer of the library and leaves the map sound.
pub translate-IsSound :
    (mpi : Mpi) (comm : ℕ) (rank : ℤ) (comms : Comms)
    → IsSound mpi comms
    → ((translate_rank_to_world mpi comm rank comms).0 ≡ world_rank mpi comm rank)
      × IsSound mpi (translate_rank_to_world mpi comm rank comms).1
unfolding translate_rank_to_world
translate-IsSound mpi comm rank comms sound =
    let made = insert {V = Map ℤ ℤ} comm [] comms in
    let ask = ask_world_rank mpi comm rank in
    elim (Option-cases (cached comm rank made)) [
      | inl e ↦ (
        ground (arith, e),
        λ c r w f. ground (
          arith,
          e,
          f,
          sound c r w,
          cached-insert c comm r comms,
          cached-assign c comm r rank ask made,
          int_ord.cmp_eq r rank,
          nat_ord.cmp_eq c comm,
        ),
      )
      | inr (v, e) ↦ (
        ground (arith, e, sound comm rank v, cached-insert comm comm rank comms),
        λ c r w f. ground (arith, e, f, sound c r w, cached-insert c comm r comms),
      )
    ]

-- The answers to questions in a row.
unfoldable pub translate_all : Mpi → List (ℕ × ℤ) → Comms → List ℤ
translate_all mpi [] comms = []
translate_all mpi ((comm, rank) ∷ questions) comms =
    let (answer, after) = translate_rank_to_world mpi comm rank comms in
    answer ∷ translate_all mpi questions after

abbrev pub world_ranks : Mpi → List (ℕ × ℤ) → List ℤ
world_ranks mpi [] = []
world_ranks mpi ((comm, rank) ∷ questions) = world_rank mpi comm rank ∷ world_ranks mpi questions

translate_all_sound :
    (mpi : Mpi) (questions : List (ℕ × ℤ)) (comms : Comms)
    → IsSound mpi comms
    → translate_all mpi questions comms ≡ world_ranks mpi questions
unfolding translate_all
translate_all_sound mpi [] comms sound = refl
translate_all_sound mpi ((comm, rank) ∷ questions) comms sound =
    let (answer, kept) = translate-IsSound mpi comm rank comms sound in
    ap₂ (λ a rest. a ∷ rest) answer (translate_all_sound mpi questions _ kept)

-- From the empty map, any sequence of questions about ranks of communicators gets the answers of the
-- library, as if it were asked each time, as long as the library does not change its answers.
pub translate_all-world_ranks :
    (mpi : Mpi) (questions : List (ℕ × ℤ))
    → translate_all mpi questions [] ≡ world_ranks mpi questions
translate_all-world_ranks mpi questions =
    translate_all_sound mpi questions [] (unfold find in λ comm rank w e. ground arith)

-- A communicator that is not the one of all processes, and a rank that is neither of the two
-- constants: what the library answers first is also given after its answers have changed, as they do
-- when the communicator is freed and its handle used again.
translate_stale :
    (before after : Mpi) (comm : ℕ) (rank : ℤ) (comms : Comms)
    → after.any_source ≡ before.any_source
    → after.root ≡ before.root
    → after.comm_world ≡ before.comm_world
    → same_rank rank before.any_source ≡ false
    → same_rank rank before.root ≡ false
    → comm ≢ before.comm_world
    → (translate_rank_to_world after comm rank (translate_rank_to_world before comm rank comms).1).0
      ≡ (translate_rank_to_world before comm rank comms).0
unfolding translate_rank_to_world
translate_stale before after comm rank comms a r w na nr nw =
    let made = insert {V = Map ℤ ℤ} comm [] comms in
    let ask = ask_world_rank before comm rank in
    let kept = assign comm (assign rank ask (find_or [] comm made)) made in
    elim (Option-cases (cached comm rank made)) [
      | inl e ↦ ground (
        arith,
        e,
        nw,
        ==_iff comm before.comm_world,
        cached-insert comm comm rank kept,
        cached-assign comm comm rank rank ask made,
        int_ord.cmp_refl rank,
        nat_ord.cmp_refl comm,
      )
      | inr (v, e) ↦
          ground (arith, e, nw, ==_iff comm before.comm_world, cached-insert comm comm rank made)
    ]
