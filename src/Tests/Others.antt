-- ===== src/Tests/Others.antt =====
-- A process that shares its hardware thread with another one.
use zerosum.Base.{◌≡◌, refl, true, List, [], ◌∷◌, some, none, ◌||◌, if◌then◌else◌, All}
use zerosum.Monitor.Others.{get_proc_status, IsSharing, others_share}
use zerosum.Software.Process.{Process, new}
use zerosum.Text.{Text, codes, starts_with, remove_spaces, stoi, stol, to_string, ok}
use zerosum.Utils.Files.{FileSystem, fgets_pieces, second_token}
use zerosum.Utils.CpuList.{parse_discrete_values}
use zerosum.Utils.ProcSelf.{get_cpus_allowed, get_thread_stat, get_thread_status}
use zerosum.StdMap.{insert}
use zerosum.StdMap.StdSet.{count, insert_all}
use zerosum.Base.Int.{to_u32}
use zerosum.Utils.Running.{Fields}

-- The two status files allow the hardware thread 1.
abbrev files : FileSystem
files name =
    if starts_with (codes "/proc/self/status") name || starts_with (codes "/proc/9/status") name
    then some (codes "Cpus_allowed_list:1\n")
    else none

abbrev names : List Text
names = codes "." ∷ codes "7" ∷ codes "self" ∷ codes "9" ∷ []

abbrev fields : Fields
fields = (codes "step", codes "0") ∷ []

abbrev own : Process
own = new 7 7 0 1 fields (1 ∷ [])

abbrev other : Process
other = new 7 9 0 1 [] (1 ∷ [])

status : get_proc_status files 7 7 0 true (some names) ≡ ok (own, other ∷ [])
unfolding get_proc_status parse_discrete_values get_cpus_allowed starts_with fgets_pieces
    second_token remove_spaces stoi get_thread_stat stol new count insert_all to_u32 insert
    get_thread_status to_string
status = refl

others_share_example : All (IsSharing own) (other ∷ [])
others_share_example = others_share files 7 7 0 true (some names) own (other ∷ []) status
