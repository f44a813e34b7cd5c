-- ===== src/Utils/ProcSelf.antt =====
-- src/utils.cpp, `getCpusAllowed`, `getThreadStat`, `getThreadStatus` and `parseMaxPid`: one
-- process or thread under /proc.
pub mod Allowed
pub mod Shifted
use zerosum.Base.{
  ℕ, suc, ◌+◌, Bool, true, false, List, [], ◌∷◌, ◌++◌, Option, none, some, get_elem?, if◌then◌else◌,
}
use zerosum.Base.Int.{ℤ, to_u64}
use zerosum.StdMap.{text_ord, Map, insert}
use zerosum.Text.{
  Text, codes, starts_with, remove_spaces, getline_items, atol, Result, ok, err, ◌>>=◌, undefined,
}
use zerosum.Utils.Files.{FileSystem, fgets_pieces, second_token}
use zerosum.Utils.Running.{Fields}

abbrev pub cpus_key : Text
cpus_key = codes "Cpus_allowed_list"

-- The value behind the colon without white space, or what there was where there is none.
abbrev value_or : Text → Text → Text
value_or old line = elim (second_token b':' line) [ none ↦ old | some token ↦ remove_spaces token ]

cpus_loop : List Text → Text → Text
cpus_loop [] allowed = allowed
cpus_loop (line ∷ lines) allowed =
    cpus_loop lines (if starts_with cpus_key line then value_or allowed line else allowed)

unfoldable pub get_cpus_allowed : FileSystem → Text → Text
unfolding cpus_loop
get_cpus_allowed fs filename = elim (fs filename) [
  | none ↦ []
  | some content ↦ cpus_loop (fgets_pieces 4095 content) []
]

-- The items of all lines.
stat_items : List Text → List Text
stat_items [] = []
stat_items (line ∷ lines) = getline_items b' ' line ++ stat_items lines

-- `v[i]`, which is undefined behind the end.
abbrev at_index : List Text → ℕ → Result Text
at_index v i = elim (get_elem? v i) [ none ↦ err undefined | some item ↦ ok item ]

unfoldable pub stat_fields : Text → Text → Text → Text → Text → Text → Text → Fields
stat_fields state minflt majflt utime stime nswap processor = insert (codes "processor") processor (
    insert (codes "nswap") nswap (
      insert (codes "stime") stime (
        insert (codes "utime") utime (
          insert (codes "majflt") majflt
            (insert (codes "minflt") minflt (insert (codes "state") state []))))))

-- The fields by their numbers in proc(5). The dummy item in front makes them the indices.
unfoldable pub fields_of_items : List Text → Result Fields
fields_of_items items = do
  let v = [] ∷ items
  state ← at_index v 3
  minflt ← at_index v 10
  majflt ← at_index v 12
  utime ← at_index v 14
  stime ← at_index v 15
  nswap ← at_index v 36
  processor ← at_index v 39
  ok (stat_fields state minflt majflt utime stime nswap processor)

unfoldable pub get_thread_stat : FileSystem → Text → Result Fields
unfolding stat_items fields_of_items stat_fields
get_thread_stat fs filename = elim (fs filename) [
  | none ↦ ok []
  | some content ↦ fields_of_items (stat_items (fgets_pieces 4095 content))
]

abbrev pub ctx_key : Text
ctx_key = codes "voluntary_ctxt_switches"

abbrev pub nvctx_key : Text
nvctx_key = codes "nonvoluntary_ctxt_switches"

-- One of the two tests on a line: the value is kept from line to line, and `insert` keeps the
-- first value of a key.
status_line : Text → Text → Text × Fields → Text × Fields
status_line key line (value, fields) =
    if starts_with key line
    then (value_or value line, insert key (value_or value line) fields)
    else (value, fields)

status_loop : List Text → Text × Fields → Text × Fields
unfolding status_line
status_loop [] s = s
status_loop (line ∷ lines) s =
    status_loop lines (status_line nvctx_key line (status_line ctx_key line s))

unfoldable pub get_thread_status : FileSystem → Text → Fields → Fields
unfolding status_loop
get_thread_status fs filename fields = elim (fs filename) [
  | none ↦ fields
  | some content ↦ (status_loop (fgets_pieces 4095 content) ([], fields)).1
]

max_pid_loop : List Text → ℕ → ℕ
max_pid_loop [] maxpid = maxpid
max_pid_loop (line ∷ lines) maxpid = max_pid_loop lines (to_u64 (atol line))

unfoldable pub parse_max_pid : FileSystem → ℕ
unfolding max_pid_loop
parse_max_pid fs = elim (fs (codes "/proc/sys/kernel/pid_max")) [
  | none ↦ 0
  | some content ↦ max_pid_loop (fgets_pieces 127 content) 0
]
