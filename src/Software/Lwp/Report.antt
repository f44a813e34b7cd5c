-- ===== src/Software/Lwp/Report.antt =====
-- src/software.h, class `LWP`: the texts that it prints. `snprintf(buffer, 1024, …)` keeps 1023
-- bytes.
use zerosum.Base.{ℕ, Bool, ◌||◌, List, [], ◌∷◌, ◌++◌, take, if◌then◌else◌}
use zerosum.Base.Int.{of_u32, to_u64}
use zerosum.Floats.{Floats, stod}
use zerosum.Hardware.Values.{last_value, intervals}
use zerosum.Software.Lwp.{Lwp, type_to_string, get_fields}
use zerosum.Stats.{StatFields}
use zerosum.Text.{Text, codes, same_text, stol, to_string, to_string_ℤ, pad_left, Result, ok, ◌>>=◌}
use zerosum.Utils.CpuList.{set_to_string}

-- `%d` of an `uint32_t`.
abbrev pub print_d : ℕ → Text
print_d n = to_string_ℤ (of_u32 n)

abbrev head_line : Lwp → Text
head_line lwp = take 1023 (
    codes "New Thread: ["
    ++ type_to_string lwp
    ++ codes "] LWP "
    ++ print_d lwp.id
    ++ codes " - CPUs allowed: ["
    ++ set_to_string lwp.hwthreads
    ++ codes "]\n")

unfoldable pub to_string_lwp : Bool → Lwp → Result Text
to_string_lwp shutdown lwp =
    if shutdown
    then (do lines ← get_fields lwp; ok (head_line lwp ++ lines ++ b'\n' ∷ []))
    else ok (head_line lwp)

abbrev is_time : Text → Bool
is_time name = same_text name (codes "utime") || same_text name (codes "stime")

-- `size_t total = std::stol(back)`, printed by `%5lu`.
switches : Text → List Text → Result Text
switches label series = do
  back ← last_value series
  total ← stol back
  ok (label ++ codes ": " ++ pad_left 5 b' ' (to_string (to_u64 total)) ++ codes ",")

switch_items : StatFields → Result Text
unfolding switches
switch_items [] = ok []
switch_items ((name, series) ∷ fields) =
    let rest = switch_items fields in
    if same_text name (codes "nonvoluntary_ctxt_switches")
    then (do item ← switches (codes " nv_ctx") series; others ← rest; ok (item ++ others))
    else if same_text name (codes "voluntary_ctxt_switches")
    then (do item ← switches (codes " ctx") series; others ← rest; ok (item ++ others))
    else rest

module _ (fl : Floats) where
  time_items : StatFields → Result Text
  time_items [] = ok []
  time_items ((name, series) ∷ fields) =
      let rest = time_items fields in
      if is_time name
      then (do
        back ← last_value series
        total ← stod fl back
        others ← rest
        ok (
            codes " "
            ++ name
            ++ codes ": "
            ++ fl.print_6_2 (fl.divide total (fl.of_ℕ (intervals series)))
            ++ codes ","
            ++ others))
      else rest

  unfoldable pub get_summary : Lwp → Result Text
  unfolding time_items switch_items
  get_summary lwp = do
    times ← time_items lwp.stat_fields
    counts ← switch_items lwp.stat_fields
    ok (
        codes "LWP "
        ++ to_string lwp.id
        ++ codes ": "
        ++ type_to_string lwp
        ++ codes " -"
        ++ times
        ++ counts
        ++ codes " CPUs allowed: ["
        ++ set_to_string lwp.hwthreads
        ++ codes "]")
