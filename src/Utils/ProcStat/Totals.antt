-- ===== src/Utils/ProcStat/Totals.antt =====
-- The lines of /proc/stat as proc(5) has them, and the total that `parseProcStat` stores.
use zerosum.Base.{
  ℕ, ◌+◌, ◌^◌, ◌≤◌, ◌<◌, ◌≡◌, refl, ap, ◌∙◌, inl, inr, true, false, List, [], ◌∷◌, ◌++◌, map, some,
  arith, All, append-nil, append_assoc, length,
}
use zerosum.Base.Int.{to_u32, to_u32_small}
use zerosum.StdMap.{text_ord, insert, find}
use zerosum.Text.{
  Text, codes, starts_with, getline_items, atol, atol-to_string, to_string, to_string-IsDigits,
  to_string-nonempty, IsDigits, Lacks, Lacks-IsDigits, compare_text, ok,
}
use zerosum.Utils.Files.{FileSystem, fgets_pieces}
use zerosum.Utils.Files.Lines.{
  file_of, with_newlines, IsLine, fgets_pieces-file_of_rest, fgets_pieces-start,
}
use zerosum.Utils.Files.Words.{spaced, getline_items-spaced}
use zerosum.Utils.ProcStat.{print_whole, cpu_fields, cpu_line, cpu_lines, parse_proc_stat}
use zerosum.Utils.Running.{Fields}

-- The counters of one hardware thread. The kernel counts guest time in `user` and `nice` as well.
pub record CpuTimes : Type 0 where
  pub id : ℕ
  pub user : ℕ
  pub nice : ℕ
  pub system : ℕ
  pub idle : ℕ
  pub iowait : ℕ
  pub irq : ℕ
  pub softirq : ℕ
  pub steal : ℕ
  pub guest : ℕ
  pub guest_nice : ℕ

abbrev pub words_of : CpuTimes → List Text
words_of t =
    (codes "cpu" ++ to_string t.id)
    ∷ to_string t.user
    ∷ to_string t.nice
    ∷ to_string t.system
    ∷ to_string t.idle
    ∷ to_string t.iowait
    ∷ to_string t.irq
    ∷ to_string t.softirq
    ∷ to_string t.steal
    ∷ to_string t.guest
    ∷ []

abbrev pub show_times : CpuTimes → Text
show_times t = spaced (words_of t) (to_string t.guest_nice)

abbrev pub fields_of : CpuTimes → Fields
fields_of t =
    cpu_fields t.user t.nice t.system t.idle t.iowait t.irq t.softirq t.steal t.guest t.guest_nice

pub record IsCounter (t : CpuTimes) : Type 0 where
  pub user_fits : t.user < 2 ^ 32
  pub nice_fits : t.nice < 2 ^ 32
  pub system_fits : t.system < 2 ^ 32
  pub idle_fits : t.idle < 2 ^ 32
  pub iowait_fits : t.iowait < 2 ^ 32
  pub irq_fits : t.irq < 2 ^ 32
  pub softirq_fits : t.softirq < 2 ^ 32
  pub steal_fits : t.steal < 2 ^ 32
  pub guest_fits : t.guest < 2 ^ 32
  pub guest_nice_fits : t.guest_nice < 2 ^ 32

number_read : (n : ℕ) → n < 2 ^ 32 → to_u32 (atol (to_string n)) ≡ n
number_read n h =
    ap to_u32 (rw append-nil at (atol-to_string n [] (omega arith) tt)) ∙ to_u32_small n h

number_read_last : (n : ℕ) → n < 2 ^ 32 → to_u32 (atol (to_string n ++ b'\n' ∷ [])) ≡ n
number_read_last n h =
    ap to_u32 (atol-to_string n (b'\n' ∷ []) (omega arith) refl) ∙ to_u32_small n h

to_string-Lacks-space : (n : ℕ) → Lacks b' ' (to_string n)
to_string-Lacks-space n = Lacks-IsDigits b' ' (to_string n) refl (to_string-IsDigits n)

items_of_line :
    (t : CpuTimes)
    → getline_items b' ' (show_times t ++ b'\n' ∷ [])
      ≡ words_of t ++ (to_string t.guest_nice ++ b'\n' ∷ []) ∷ []
items_of_line t =
    getline_items-spaced (words_of t) (to_string t.guest_nice)
      (
        (omega arith, (omega arith, (omega arith, to_string-Lacks-space t.id))),
        (
          to_string-Lacks-space t.user,
          (
            to_string-Lacks-space t.nice,
            (
              to_string-Lacks-space t.system,
              (
                to_string-Lacks-space t.idle,
                (
                  to_string-Lacks-space t.iowait,
                  (
                    to_string-Lacks-space t.irq,
                    (
                      to_string-Lacks-space t.softirq,
                      (to_string-Lacks-space t.steal, (to_string-Lacks-space t.guest, tt)),
                    ),
                  ),
                ),
              ),
            ),
          ),
        ),
      )
      (to_string-Lacks-space t.guest_nice)

cpu_line-show_times :
    (t : CpuTimes) → IsCounter t → cpu_line (show_times t ++ b'\n' ∷ []) ≡ ok (fields_of t)
unfolding cpu_line
cpu_line-show_times t v = rw (items_of_line t) (
    rw (
      number_read t.user v.user_fits,
      number_read t.nice v.nice_fits,
      number_read t.system v.system_fits,
      number_read t.idle v.idle_fits,
      number_read t.iowait v.iowait_fits,
      number_read t.irq v.irq_fits,
      number_read t.softirq v.softirq_fits,
      number_read t.steal v.steal_fits,
      number_read t.guest v.guest_fits,
      number_read_last t.guest_nice v.guest_nice_fits,
    ))

not_total : (s : Text) → starts_with (codes "cpu") s ≡ false → starts_with (codes "cpu ") s ≡ false
unfolding starts_with
not_total [] h = refl
not_total (a ∷ []) h = ground arith
not_total (a ∷ (b ∷ [])) h = ground arith
not_total (a ∷ (b ∷ (c ∷ s))) h = ground arith

digits_not_space :
    (s rest : Text) → IsDigits s → 0 < length s → starts_with (b' ' ∷ []) (s ++ rest) ≡ false
unfolding starts_with
digits_not_space [] rest d h = absurd (omega arith)
digits_not_space (c ∷ s) rest d h = ground (arith, d.0)

starts_with-show_times :
    (t : CpuTimes)
    → (starts_with (codes "cpu ") (show_times t ++ b'\n' ∷ []) ≡ false)
      × (starts_with (codes "cpu") (show_times t ++ b'\n' ∷ []) ≡ true)
unfolding starts_with
starts_with-show_times t = (
  ap (λ s. starts_with (b' ' ∷ []) s) (append_assoc (to_string t.id) _ (b'\n' ∷ []))
      ∙ digits_not_space (to_string t.id) _ (to_string-IsDigits t.id) (to_string-nonempty t.id),
  refl,
)

starts_with-append : (pre p r : Text) → starts_with pre (p ++ r) ≡ false → starts_with pre p ≡ false
unfolding starts_with
starts_with-append [] p r h = h
starts_with-append (c ∷ pre) [] r h = refl
starts_with-append (c ∷ pre) (d ∷ p) r h = ground (arith, h, starts_with-append pre p r)

cpu_lines-others :
    (rest : Text)
    → starts_with (codes "cpu") rest ≡ false
    → cpu_lines (fgets_pieces 126 rest) ≡ ok []
unfolding cpu_lines
cpu_lines-others rest h = elim (fgets_pieces-start 126 rest) [
  | inl e ↦ rw e refl
  | inr (p, r, ps, e, k) ↦
      let other = starts_with-append (codes "cpu") p r (ap (starts_with (codes "cpu")) k ∙ h) in
      rw e (ground (arith, other, not_total p other))
]

cpu_lines-show_times :
    (ts : List CpuTimes) (rest : Text)
    → All IsCounter ts
    → starts_with (codes "cpu") rest ≡ false
    → cpu_lines (with_newlines (map show_times ts) ++ fgets_pieces 126 rest) ≡ ok (map fields_of ts)
unfolding cpu_lines
cpu_lines-show_times [] rest v h = cpu_lines-others rest h
cpu_lines-show_times (t ∷ ts) rest v h =
    ground (
      arith,
      starts_with-show_times t,
      cpu_line-show_times t v.0,
      cpu_lines-show_times ts rest v.1 h,
    )

-- Reading /proc/stat: from a total line and one line for each hardware thread with counters below 2 ^ 32,
-- all short enough for the buffer, and then anything that does not start with `cpu`, with lines of any
-- length, comes one entry for each hardware thread, in order, with the fields of its counters.
pub parse_proc_stat-show_times :
    (fs : FileSystem) (total : Text) (ts : List CpuTimes) (rest : Text)
    → fs (codes "/proc/stat") ≡ some (file_of ((codes "cpu " ++ total) ∷ map show_times ts) ++ rest)
    → All (IsLine 126) ((codes "cpu " ++ total) ∷ map show_times ts)
    → All IsCounter ts
    → starts_with (codes "cpu") rest ≡ false
    → parse_proc_stat fs ≡ ok (map fields_of ts)
unfolding parse_proc_stat
parse_proc_stat-show_times fs total ts rest e fit v h =
    let lines = (codes "cpu " ++ total) ∷ map show_times ts in
    rw (e, parse_proc_stat)
      (rw (fgets_pieces-file_of_rest 126 lines rest fit)
        (unfold cpu_lines starts_with in cpu_lines-show_times ts rest v h))

-- The total of a hardware thread counts each tick once: guest time, which the kernel has in the
-- user time too, is taken out there before it is added. So the total is the sum of the first eight
-- counters, if guest time is part of user time and the sums that the code makes in `unsigned`
-- fit 32 bits.
pub fields_of_total :
    (t : CpuTimes)
    → t.guest ≤ t.user
    → t.guest_nice ≤ t.nice
    → t.user + t.nice < 2 ^ 32
    → t.idle + t.iowait < 2 ^ 32
    → t.system + t.irq + t.softirq < 2 ^ 32
    → find (codes "total_time") (fields_of t)
      ≡ some (
          print_whole
            (t.user + t.nice + t.system + t.idle + t.iowait + t.irq + t.softirq + t.steal))
unfolding cpu_fields find insert compare_text
fields_of_total t g gn a b c = ap (λ n. some (print_whole n)) (omega arith)
