-- ===== src/Utils/ProcSelf/Shifted.antt =====
-- `getThreadStat` cuts the line at spaces, and the second field of proc(5), the name of the thread
-- in parentheses, may hold spaces.
use zerosum.Base.{
  ◌≤◌, ◌≡◌, refl, sym, ap, ◌∙◌, List, [], ◌∷◌, ◌++◌, append-nil, some, arith, length, length-append,
  All, get_elem?, get_elem?-some,
}
use zerosum.StdMap.{text_ord, find, insert}
use zerosum.Text.{Text, codes, compare_text, ok, Lacks}
use zerosum.Utils.Files.{FileSystem}
use zerosum.Utils.Files.Words.{spaced, getline_items-spaced}
use zerosum.Utils.Files.Lines.{file_of, IsLine, fgets_pieces-file_of}
use zerosum.Utils.ProcSelf.{stat_items, stat_fields, fields_of_items, get_thread_stat}
use zerosum.Utils.Running.{Fields}

-- The words of a one-line file are the items that the fields are taken from.
get_thread_stat-spaced :
    (fs : FileSystem) (filename : Text) (ws : List Text) (last : Text)
    → fs filename ≡ some (file_of (spaced ws last ∷ []))
    → IsLine 4095 (spaced ws last)
    → All (Lacks b' ') ws
    → Lacks b' ' last
    → get_thread_stat fs filename ≡ fields_of_items (ws ++ (last ++ b'\n' ∷ []) ∷ [])
unfolding get_thread_stat
get_thread_stat-spaced fs filename ws last e fit h k =
    rw (e, get_thread_stat)
      (rw (fgets_pieces-file_of 4095 (spaced ws last ∷ []) (fit, tt))
        (unfold stat_items in ap fields_of_items (append-nil _ ∙ getline_items-spaced ws last h k)))

find-stat_fields :
    (state minflt majflt utime stime nswap processor : Text)
    → let f = stat_fields state minflt majflt utime stime nswap processor in
      (find (codes "state") f ≡ some state) × (find (codes "minflt") f ≡ some minflt)
unfolding stat_fields find insert compare_text
find-stat_fields state minflt majflt utime stime nswap processor = (refl, refl)

fields_of_items-stat_fields :
    (items : List Text) {a2 a9 a11 a13 a14 a35 a38 : Text}
    → get_elem? items 2 ≡ some a2
    → get_elem? items 9 ≡ some a9
    → get_elem? items 11 ≡ some a11
    → get_elem? items 13 ≡ some a13
    → get_elem? items 14 ≡ some a14
    → get_elem? items 35 ≡ some a35
    → get_elem? items 38 ≡ some a38
    → fields_of_items items ≡ ok (stat_fields a2 a9 a11 a13 a14 a35 a38)
unfolding fields_of_items
fields_of_items-stat_fields items e2 e9 e11 e13 e14 e35 e38 = ground arith

-- With all the fields of proc(5) there, the state is the third item.
fields_of_items-state :
    (items : List Text)
    → 39 ≤ length items
    → (f : Fields) × (fields_of_items items ≡ ok f)
      × (find (codes "state") f ≡ get_elem? items 2)
      × (find (codes "minflt") f ≡ get_elem? items 9)
fields_of_items-state items h =
    let (a2, e2) = get_elem?-some items 2 (omega arith) in
    let (a9, e9) = get_elem?-some items 9 (omega arith) in
    let (a11, e11) = get_elem?-some items 11 (omega arith) in
    let (a13, e13) = get_elem?-some items 13 (omega arith) in
    let (a14, e14) = get_elem?-some items 14 (omega arith) in
    let (a35, e35) = get_elem?-some items 35 (omega arith) in
    let (a38, e38) = get_elem?-some items 38 (omega arith) in
    let found = find-stat_fields a2 a9 a11 a13 a14 a35 a38 in
    (
      stat_fields a2 a9 a11 a13 a14 a35 a38,
      fields_of_items-stat_fields items e2 e9 e11 e13 e14 e35 e38,
      found.0 ∙ sym e2,
      found.1 ∙ sym e9,
    )

-- A file of one line that fits the buffer, of words behind single spaces, at least 39 of them: the
-- call returns fields, and the state is the third word, the one behind the name if the name is one
-- word.
get_thread_stat_state :
    (fs : FileSystem) (filename pid name state : Text) (more : List Text) (last : Text)
    → fs filename ≡ some (file_of (spaced (pid ∷ name ∷ state ∷ more) last ∷ []))
    → IsLine 4095 (spaced (pid ∷ name ∷ state ∷ more) last)
    → All (Lacks b' ') (pid ∷ name ∷ state ∷ more)
    → Lacks b' ' last
    → 35 ≤ length more
    → (f : Fields) × (get_thread_stat fs filename ≡ ok f) × (find (codes "state") f ≡ some state)
get_thread_stat_state fs filename pid name state more last e fit h k n =
    let (f, made, found, _) =
      fields_of_items-state (pid ∷ name ∷ state ∷ more ++ (last ++ b'\n' ∷ []) ∷ [])
        (omega (arith, length-append more ((last ++ b'\n' ∷ []) ∷ []))) in
    (f, get_thread_stat-spaced fs filename (pid ∷ name ∷ state ∷ more) last e fit h k ∙ made, found)

-- Such a line of at least 40 words where the name in parentheses has one space in it, as in
-- `(tmux: server)`: the call returns fields, and the second part of the name with the parenthesis is
-- taken for the state.
pub get_thread_stat_shifted :
    (fs : FileSystem) (filename pid front back state : Text) (more : List Text) (last : Text)
    → fs filename
      ≡ some
          (file_of (spaced (pid ∷ (b'(' ∷ front) ∷ (back ++ b')' ∷ []) ∷ state ∷ more) last ∷ []))
    → IsLine 4095 (spaced (pid ∷ (b'(' ∷ front) ∷ (back ++ b')' ∷ []) ∷ state ∷ more) last)
    → All (Lacks b' ') (pid ∷ (b'(' ∷ front) ∷ (back ++ b')' ∷ []) ∷ state ∷ more)
    → Lacks b' ' last
    → 35 ≤ length more
    → (f : Fields) × (get_thread_stat fs filename ≡ ok f)
      × (find (codes "state") f ≡ some (back ++ b')' ∷ []))
get_thread_stat_shifted fs filename pid front back state more last e fit h k n =
    get_thread_stat_state fs filename pid (b'(' ∷ front) (back ++ b')' ∷ []) (state ∷ more) last e
      fit h k (omega arith)
