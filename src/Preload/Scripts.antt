-- ===== src/Preload/Scripts.antt =====
-- Which programs are monitored, and how often.
use zerosum.Base.{
  ℕ, suc, ◌-◌, ◌≡◌, refl, arith, Bool, true, false, List, [], ◌∷◌, ◌++◌, length, length-append,
  drop, ltb, Bool-cases, inl, inr, if◌then◌else◌,
}
use zerosum.Preload.{
  ends_in, is_script, Call, parses_env, runs_main, shuts_down, zerosum_preload_main,
}
use zerosum.Text.{Text, same_text}

drop-append : (pre name : Text) → drop (length pre) (pre ++ name) ≡ name
drop-append [] name = refl
drop-append (c ∷ pre) name = drop-append pre name

-- A program with a name that ends in that of a shell or of gdb is skipped only if something stands in
-- front of that: "/bin/bash" and "tcsh" are skipped, "bash", "csh" and "gdb" are not.
pub ends_in-append :
    (pre name : Text) → same_text name name ≡ true → ends_in name (pre ++ name) ≡ ltb 0 (length pre)
ends_in-append pre name e =
    let l : length (pre ++ name) - length name ≡ length pre =
      omega (arith, length-append pre name) in
    rw (l, drop-append pre name, e) (ground (arith, length-append pre name))

-- All calls of the program in a row, `main` called again by what it does or from elsewhere.
unfoldable pub run_all : List Text → Bool → List Call
unfolding zerosum_preload_main
run_all [] reentry = []
run_all (argv0 ∷ programs) reentry =
    let (calls, reentry') = zerosum_preload_main argv0 reentry in calls ++ run_all programs reentry'

abbrev pub is_parse : Call → Bool
is_parse parses_env = true
is_parse _ = false

abbrev pub is_shutdown : Call → Bool
is_shutdown shuts_down = true
is_shutdown _ = false

abbrev pub is_main : Call → Bool
is_main runs_main = true
is_main _ = false

abbrev pub how_many : (Call → Bool) → List Call → ℕ
how_many p [] = 0
how_many p (c ∷ calls) = if p c then suc (how_many p calls) else how_many p calls

abbrev pub any_monitored : List Text → Bool
any_monitored [] = false
any_monitored (argv0 ∷ programs) = if is_script argv0 then any_monitored programs else true

run_all_entered :
    (programs : List Text)
    → (how_many is_parse (run_all programs true) ≡ 0)
      × (how_many is_shutdown (run_all programs true) ≡ 0)
      × (how_many is_main (run_all programs true) ≡ length programs)
unfolding run_all
run_all_entered [] = (refl, refl, refl)
run_all_entered (argv0 ∷ programs) =
    let (a, b, c) = run_all_entered programs in
    elim (Bool-cases (is_script argv0)) [
      | inl e ↦ ground (arith, e, a, b, c)
      | inr e ↦ ground (arith, e, a, b, c)
    ]

-- In any row of calls, `main` runs once in each; the environment is read and ZeroSum is shut down once in
-- all if one of the programs is not taken for a shell or gdb, and else never.
pub run_all_lem :
    (programs : List Text)
    → (how_many is_main (run_all programs false) ≡ length programs)
      × (how_many is_parse (run_all programs false) ≡ (if any_monitored programs then 1 else 0))
      × (how_many is_shutdown (run_all programs false) ≡ (if any_monitored programs then 1 else 0))
unfolding run_all
run_all_lem [] = (refl, refl, refl)
run_all_lem (argv0 ∷ programs) = elim (Bool-cases (is_script argv0)) [
  | inl e ↦ let (a, b, c) = run_all_lem programs in ground (arith, e, a, b, c)
  | inr e ↦ let (b, c, a) = run_all_entered programs in ground (arith, e, a, b, c)
]
