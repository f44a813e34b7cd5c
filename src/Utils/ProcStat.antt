-- ===== src/Utils/ProcStat.antt =====
-- src/utils.cpp, `parseProcStat` and `parseNodeInfo`: the counters of the hardware threads in
-- /proc/stat and the memory of the node in /proc/meminfo. The `double`s of the first hold whole
-- numbers below 2 ^ 35, so they are exact, and `std::to_string` prints them with six zeros.
pub mod Totals
use zerosum.Base.{
  ℕ, suc, ◌+◌, ◌-◌, ◌%◌, ◌^◌, Bool, true, false, List, [], ◌∷◌, ◌++◌, map, Option, none, some,
  get_elem?, if◌then◌else◌,
}
use zerosum.Base.Int.{to_u32}
use zerosum.StdMap.{text_ord, Map, insert}
use zerosum.Text.{
  Text, codes, starts_with, getline_items, atol, to_string, Result, ok, err, ◌>>=◌, undefined,
}
use zerosum.Utils.Files.{FileSystem, fgets_pieces, first_token, second_token, strtoul}
use zerosum.Utils.Running.{Fields}

-- `unsigned` addition and subtraction.
abbrev pub add_u32 : ℕ → ℕ → ℕ
add_u32 a b = (a + b) % 2 ^ 32

abbrev pub sub_u32 : ℕ → ℕ → ℕ
sub_u32 a b = (a + 2 ^ 32 - b) % 2 ^ 32

-- `std::to_string` of a `double` that is a whole number.
abbrev pub print_whole : ℕ → Text
print_whole n = to_string n ++ codes ".000000"

abbrev number_at : List ℕ → ℕ → Result ℕ
number_at v i = elim (get_elem? v i) [ none ↦ err undefined | some n ↦ ok n ]

-- The fields, from the ten counters as they were read.
unfoldable pub cpu_fields : ℕ → ℕ → ℕ → ℕ → ℕ → ℕ → ℕ → ℕ → ℕ → ℕ → Fields
cpu_fields v1 v2 v3 v4 v5 v6 v7 v8 v9 v10 =
    let user = sub_u32 v1 v9 in
    let nice = sub_u32 v2 v10 in
    let idle_all = add_u32 v4 v5 in
    let system_all = add_u32 (add_u32 v3 v6) v7 in
    let virt_all = add_u32 v9 v10 in
    let total = add_u32 user nice + system_all + idle_all + v8 + virt_all in
    insert (codes "total_time") (print_whole total) (
      insert (codes "guest_nice") (to_string v10) (
        insert (codes "virt_all_time") (print_whole virt_all) (
          insert (codes "guest") (to_string v9) (
            insert (codes "steal") (to_string v8) (
              insert (codes "softirq") (to_string v7) (
                insert (codes "irq") (to_string v6) (
                  insert (codes "iowait") (to_string v5) (
                    insert (codes "idle_all") (print_whole idle_all) (
                      insert (codes "idle") (to_string v4) (
                        insert (codes "system_all") (print_whole system_all) (
                          insert (codes "system") (to_string v3) (
                            insert (codes "nice") (to_string nice)
                              (insert (codes "user") (to_string user) [])))))))))))))

-- The counters by their indices; the item 0 is the name of the hardware thread.
cpu_numbers : List ℕ → Result Fields
cpu_numbers v = do
  v1 ← number_at v 1
  v2 ← number_at v 2
  v3 ← number_at v 3
  v4 ← number_at v 4
  v5 ← number_at v 5
  v6 ← number_at v 6
  v7 ← number_at v 7
  v8 ← number_at v 8
  v9 ← number_at v 9
  v10 ← number_at v 10
  ok (cpu_fields v1 v2 v3 v4 v5 v6 v7 v8 v9 v10)

cpu_line : Text → Result Fields
unfolding cpu_numbers
cpu_line line = cpu_numbers (map (λ item. to_u32 (atol item)) (getline_items b' ' line))

and_rest : Result Fields → Result (List Fields) → Result (List Fields)
and_rest first rest = do f ← first; fs ← rest; ok (f ∷ fs)

-- The total line is skipped, and the first line that is not of a hardware thread ends the loop.
cpu_lines : List Text → Result (List Fields)
unfolding and_rest
cpu_lines [] = ok []
cpu_lines (line ∷ lines) =
    if starts_with (codes "cpu ") line
    then cpu_lines lines
    else if starts_with (codes "cpu") line
    then and_rest (cpu_line line) (cpu_lines lines)
    else ok []

unfoldable pub parse_proc_stat : FileSystem → Result (List Fields)
unfolding cpu_lines cpu_line
parse_proc_stat fs = elim (fs (codes "/proc/stat")) [
  | none ↦ ok []
  | some content ↦ cpu_lines (fgets_pieces 126 content)
]

-- One line of /proc/meminfo: `unsigned d1 = strtoul(...)`.
node_line : Text → Fields → Fields
node_line line fields = elim (second_token b':' line) [
  | none ↦ fields
  | some value ↦
      if starts_with (codes "Mem") (first_token b':' line)
      then insert (first_token b':' line ++ codes " kB") (to_string (strtoul value % 2 ^ 32)) fields
      else fields
]

node_lines : List Text → Fields → Fields
unfolding node_line
node_lines [] fields = fields
node_lines (line ∷ lines) fields = node_lines lines (node_line line fields)

unfoldable pub parse_node_info : FileSystem → Fields
unfolding node_lines
parse_node_info fs = elim (fs (codes "/proc/meminfo")) [
  | none ↦ []
  | some content ↦ node_lines (fgets_pieces 127 content) []
]
