-- ===== src/Tests/Samples.antt =====
-- The samples of hardware threads, software threads and the node.
use zerosum.Base.{
  ◌+◌, ◌-◌, ◌%◌, ◌^◌, ◌/◌, ◌≡◌, refl, List, [], ◌∷◌, none, some, arith, length, get_elem?, false,
}
use zerosum.Base.Int.{to_u32}
use zerosum.Hardware.Node.{new, update_node_fields}
use zerosum.Hardware.Node.Labels.{Readings, periods, periods_labels}
use zerosum.Software.Lwp
use zerosum.Software.Lwp.{Lwp, update, other}
use zerosum.Software.Lwp.Aligned.{IsAligned, new-IsAligned, update-IsAligned}
use zerosum.StdMap.{text_ord, find, insert, assign, IsMap}
use zerosum.Stats.{difference, add_all_padded, add_padded, push_zeros}
use zerosum.Text.{Text, codes, compare_text, atol}
use zerosum.Utils.Running.{Fields}

grown : difference (codes "180") (codes "100") ≡ 80
unfolding difference atol to_u32
grown = refl

total_grown : difference (codes "1300") (codes "1000") ≡ 300
unfolding difference atol to_u32
total_grown = refl

abbrev first : Fields
first = (codes "state", codes "R") ∷ (codes "utime", codes "12") ∷ []

abbrev second : Fields
second = (codes "minflt", codes "7") ∷ (codes "utime", codes "15") ∷ []

first-IsMap : IsMap first
unfolding compare_text
first-IsMap = (refl, tt)

second-IsMap : IsMap second
unfolding compare_text
second-IsMap = (refl, tt)

minflt_found : find (codes "minflt") second ≡ some (codes "7")
unfolding find compare_text
minflt_found = refl

abbrev thread : Lwp
thread = Lwp.new 42 (0 ∷ 1 ∷ []) first 8 other

state_found : find (codes "state") thread.stat_fields ≡ some (codes "R" ∷ [])
unfolding Lwp.new add_all_padded add_padded push_zeros insert assign find compare_text
state_found = refl

update-IsAligned_example :
    let after = update (0 ∷ []) second other 9 thread in
    let n = length thread.steps in
    IsAligned after
    × (get_elem? after.steps n ≡ some 9)
    × ((v : List Text) × (find (codes "minflt") after.stat_fields ≡ some v)
        × (get_elem? v n ≡ some (codes "7")))
update-IsAligned_example =
    update-IsAligned (0 ∷ []) second other 9 thread (codes "minflt") (codes "7") second-IsMap
      (new-IsAligned 42 (0 ∷ 1 ∷ []) first 8 other first-IsMap) minflt_found

abbrev mem : Text → Fields
mem free = (codes "MemFree kB", free) ∷ []

abbrev readings : List Readings
readings =
    record { info = mem (codes "90"); counters = [] }
    ∷ record { info = mem (codes "80"); counters = [] }
    ∷ []

free_found : (free : Text) → find (codes "MemFree kB") (mem free) ≡ some free
unfolding find compare_text
free_found free = refl

none_found : find {V = Text} (codes "MemFree kB") [] ≡ none
unfolding find
none_found = refl

periods_labels_example :
    let node =
      periods readings
        (2 ^ 32 - 1)
        (update_node_fields (mem (codes "99")) (2 ^ 32 - 1) (new 4 (codes "node1") false)) in
    (find (codes "MemFree kB") node.stat_fields ≡ some (codes "99" ∷ codes "90" ∷ codes "80" ∷ []))
    × (get_elem? node.steps 2 ≡ some ((2 ^ 32 - 1 + 3 / 2) % 2 ^ 32))
periods_labels_example =
    periods_labels (codes "node1") (codes "MemFree kB") 4 false (mem (codes "99")) (codes "99")
      readings (codes "90" ∷ codes "80" ∷ []) (2 ^ 32 - 1) 2 tt (free_found (codes "99"))
      (
        tt,
        tt,
        free_found (codes "90"),
        none_found,
        (tt, tt, free_found (codes "80"), none_found, tt),
      )
      (omega arith) (omega arith)
