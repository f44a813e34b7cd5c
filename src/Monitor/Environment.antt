-- ===== src/Monitor/Environment.antt =====
-- src/zerosum.cpp, `split` and `ZeroSum::parseEnv`: the variables of the environment that the
-- process keeps.
use zerosum.Base.{◌≡◌, refl, Bool, ◌||◌, List, [], ◌∷◌, ◌++◌, if◌then◌else◌}
use zerosum.StdMap.{text_ord, Map, insert}
use zerosum.Text.{
  Text, codes, starts_with, contains, getline_items, getline_items_first, before, Lacks, Result, ok,
  err, ◌>>=◌, undefined,
}
use zerosum.Utils.Files.Words.{getline_items_word}

-- `result[0]` and `result[1]`, which are undefined behind the end.
first_two : List Text → Result (Text × Text)
first_two (name ∷ value ∷ items) = ok (name, value)
first_two (name ∷ []) = err undefined
first_two [] = err undefined

unfoldable pub split : Text → Result (Text × Text)
unfolding first_two
split s = first_two (getline_items b'=' s)

abbrev pub is_kept : Text → Bool
is_kept env =
    starts_with (codes "OMP_") env
    || starts_with (codes "HIP_") env
    || starts_with (codes "ROC") env
    || contains (codes "VISIBLE_DEVICES") env
    || starts_with (codes "CUDA_") env
    || starts_with (codes "OMPI_") env
    || starts_with (codes "MPICH_") env
    || starts_with (codes "MPIEXEC_") env
    || starts_with (codes "MPI_") env
    || starts_with (codes "PMI_") env
    || starts_with (codes "PALS_") env
    || starts_with (codes "PMIX_") env
    || starts_with (codes "MPIR_") env
    || starts_with (codes "SLURM_") env
    || starts_with (codes "CRAY_") env
    || starts_with (codes "ZE_") env
    || starts_with (codes "PBS_") env

unfoldable pub parse_env : List Text → Map Text Text → Result (Map Text Text)
unfolding split
parse_env [] environment = ok environment
parse_env (env ∷ envp) environment =
    if is_kept env
    then (do (name, value) ← split env; parse_env envp (insert name value environment))
    else parse_env envp environment

-- What a value turns into.
abbrev pub kept_value : Text → Text → Result (Text × Text)
kept_value name [] = err undefined
kept_value name (c ∷ value) = ok (name, before b'=' (c ∷ value))

first_two-value :
    (name value : Text) → first_two (name ∷ getline_items b'=' value) ≡ kept_value name value
unfolding first_two getline_items
first_two-value name [] = refl
first_two-value name (c ∷ value) = let (items, e) = getline_items_first b'=' c value in rw e refl

-- A variable whose name has no `=` is split into the name and the value up to the next `=`. With an
-- empty value there is no second item, and what the code reads is undefined.
split_variable :
    (name value : Text) → Lacks b'=' name → split (name ++ b'=' ∷ value) ≡ kept_value name value
unfolding split
split_variable name value h = rw (getline_items_word b'=' name value h) (first_two-value name value)
