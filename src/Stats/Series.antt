-- ===== src/Stats/Series.antt =====
-- The loops over the fields of a sample, in their two forms: with the series brought up to the
-- number of steps (software threads and hardware threads), and without (GPUs and the node).
use zerosum.Base.{ℕ, zero, suc, ◌-◌, List, [], ◌∷◌, ◌++◌, length, ltb, if◌then◌else◌}
use zerosum.Base.Int.{to_u32}
use zerosum.StdMap.{text_ord, Map, insert, assign, find_or}
use zerosum.Text.{Text, codes, atol, to_string}
use zerosum.Utils.Running.{Fields}

-- `std::map<std::string, std::vector<std::string>>`
abbrev pub StatFields : Type 0
StatFields = Map Text (List Text)

abbrev pub zero_text : Text
zero_text = codes "0"

-- `while (v.size() < n) v.push_back("0")`, with the rounds that are left.
unfoldable pub push_zeros : ℕ → List Text → List Text
push_zeros zero v = v
push_zeros (suc k) v = push_zeros k (v ++ zero_text ∷ [])

abbrev pub pad : ℕ → List Text → List Text
pad n v = push_zeros (n - length v) v

-- One field: its series is made if it is not there, and brought up to `n` values.
unfoldable pub add_padded : ℕ → Text → Text → StatFields → StatFields
add_padded n key value stats =
    let there = insert key [] stats in assign key (pad n (find_or [] key there) ++ value ∷ []) there

unfoldable pub add_all_padded : ℕ → Fields → StatFields → StatFields
add_all_padded n [] stats = stats
add_all_padded n ((key, value) ∷ fields) stats =
    add_all_padded n fields (add_padded n key value stats)

-- The form without the loop over the zeros.
unfoldable pub add_plain : Text → Text → StatFields → StatFields
add_plain key value stats =
    let there = insert key [] stats in assign key (find_or [] key there ++ value ∷ []) there

unfoldable pub add_all_plain : Fields → StatFields → StatFields
add_all_plain [] stats = stats
add_all_plain ((key, value) ∷ fields) stats = add_all_plain fields (add_plain key value stats)

-- `unsigned a = atol(lhs)`, and so on: the difference of two counters, not below zero.
unfoldable pub difference : Text → Text → ℕ
difference lhs rhs =
    let a = to_u32 (atol lhs) in let b = to_u32 (atol rhs) in if ltb b a then a - b else 0

-- `strSub`
unfoldable pub str_sub : Text → Text → Text
unfolding difference
str_sub lhs rhs = to_string (difference lhs rhs)
