-- ===== src/Preload.antt =====
-- src/preload.cpp: what stands around the `main` of the program, as the calls that are made in order. What
-- `main` does is not under the control of this file; it may get to both functions again.
pub mod Scripts
use zerosum.Base.{
  ℕ, ◌-◌, Bool, true, false, ◌||◌, ◌&&◌, List, [], ◌∷◌, length, drop, ltb, if◌then◌else◌,
}
use zerosum.Text.{Text, codes, same_text}

-- `len > n && strncmp(argv[0] + (len - n), name, …) == 0`, for a name of `n` characters. The zero at the
-- end is compared too, or is the last character that there is.
abbrev pub ends_in : Text → Text → Bool
ends_in name argv0 =
    ltb (length name) (length argv0) && same_text (drop (length argv0 - length name) argv0) name

abbrev pub is_script : Text → Bool
is_script argv0 =
    ends_in (codes "bash") argv0 || ends_in (codes "csh") argv0 || ends_in (codes "gdb") argv0

-- `parseEnv`, `main_real` and `shutdown`.
pub data Call : Type 0 where
  parses_env runs_main shuts_down : Call

-- The calls, and the static `_reentry` behind them.
unfoldable pub zerosum_preload_main : Text → Bool → List Call × Bool
zerosum_preload_main argv0 reentry =
    if is_script argv0
    then (runs_main ∷ [], reentry)
    else if reentry
    then (runs_main ∷ [], reentry)
    else (parses_env ∷ runs_main ∷ shuts_down ∷ [], true)

-- The static `_reentry` of each function.
pub record Entered : Type 0 where
  pub start : Bool
  pub main : Bool

-- It answers -1, or the calls of the `__libc_start_main` that it has found.
pub data Start : Type 0 where
  failed : Start
  started : List Call → Start

-- `found` is whether `dlsym` finds a function that is not the caller.
unfoldable pub libc_start_main : Bool → Text → Entered → Start × Entered
unfolding zerosum_preload_main
libc_start_main found argv0 e =
    if e.start
    then (failed, e)
    else if found
    then (let (calls, main) = zerosum_preload_main argv0 e.main in
        (started calls, record { start = true; main = main }))
    else (failed, record e { start = true })
