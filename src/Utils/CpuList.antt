-- ===== src/Utils/CpuList.antt =====
-- src/utils.cpp, `parseDiscreteValues`, `toString` and `getAffinityList`: lists of hardware threads.
pub mod Total
pub mod RoundTrip
pub mod Sets
pub mod Refused
use zerosum.Base.{
  ℕ, zero, suc, ◌+◌, ◌-◌, ◌^◌, Bool, true, false, List, [], ◌∷◌, ◌++◌, Option, none, some, ltb, leb,
  ◌==◌, if◌then◌else◌, length,
}
use zerosum.Base.Int.{ℤ, pos, negsuc, to_u32}
use zerosum.Text.{
  Text, to_string, split_at, stoi, Error, undefined, out_of_fuel, Result, ok, err, ◌>>=◌,
}

-- `for (int i = start; i <= end; ++i) result.push_back(i);`, with the rounds that are left.
push_rounds : ℕ → ℤ → List ℕ
push_rounds zero i = []
push_rounds (suc n) (pos i) = to_u32 (pos i) ∷ push_rounds n (pos (i + 1))
push_rounds (suc n) (negsuc zero) = to_u32 (negsuc 0) ∷ push_rounds n (pos 0)
push_rounds (suc n) (negsuc (suc i)) = to_u32 (negsuc (suc i)) ∷ push_rounds n (negsuc i)

-- How often `i <= end` holds.
rounds : ℤ → ℤ → ℕ
rounds (pos s) (pos e) = if leb s e then e - s + 1 else 0
rounds (pos s) (negsuc e) = 0
rounds (negsuc s) (pos e) = s + e + 2
rounds (negsuc s) (negsuc e) = if leb e s then s - e + 1 else 0

abbrev is_int_max : ℤ → Bool
is_int_max (pos e) = e == 2 ^ 31 - 1
is_int_max (negsuc e) = false

-- With `end` at the largest `int`, `++i` overflows before the loop can end.
push_range : ℤ → ℤ → Result (List ℕ)
unfolding push_rounds rounds
push_range start end =
    if is_int_max end then err undefined else ok (push_rounds (rounds start end) start)

-- A token: a number, or two numbers with the first hyphen between them.
parse_token : Text → Result (List ℕ)
unfolding push_range
parse_token token = elim (split_at b'-' token) [
  | none ↦ do value ← stoi token; ok (to_u32 value ∷ [])
  | some (before, behind) ↦ do start ← stoi before; end ← stoi behind; push_range start end
]

-- The last token, behind the last comma.
parse_last : Text → List ℕ → Result (List ℕ)
unfolding parse_token
parse_last [] result = ok result
parse_last (c ∷ s) result = do values ← parse_token (c ∷ s); ok (result ++ values)

-- The `while` loop, which erases each token with its comma.
parse_loop : ℕ → Text → List ℕ → Result (List ℕ)
unfolding parse_last parse_token
parse_loop zero input result = err out_of_fuel
parse_loop (suc fuel) input result = elim (split_at b',' input) [
  | none ↦ parse_last input result
  | some (token, rest) ↦ do values ← parse_token token; parse_loop fuel rest (result ++ values)
]

unfoldable pub parse_discrete_values : Text → Result (List ℕ)
unfolding parse_loop
parse_discrete_values input = parse_loop (length input + 1) input []

-- The loop of `toString` over the set.
join_onto : List ℕ → Text → Text
join_onto [] out = out
join_onto (t ∷ ts) out =
    join_onto ts ((if ltb 0 (length out) then out ++ b',' ∷ [] else out) ++ to_string t)

-- `toString(std::set<uint32_t>)`
unfoldable pub set_to_string : List ℕ → Text
unfolding join_onto
set_to_string allowed = join_onto allowed []

-- The loop of `getAffinityList` over `i`, with the rounds that are left. `CPU_ISSET(i, &mask)` is
-- a parameter: the mask is the kernel's.
affinity_loop : ℕ → ℕ → (ℕ → Bool) → Text → List ℕ → Text × List ℕ
affinity_loop zero i is_set text list = (text, list)
affinity_loop (suc n) i is_set text list =
    affinity_loop n (i + 1) is_set
      (if is_set i
        then (if ltb 0 (length text) then text ++ b',' ∷ [] else text) ++ to_string i
        else text)
      (if is_set i then list ++ i ∷ [] else list)

unfoldable pub get_affinity_list : ℕ → (ℕ → Bool) → Text → Text × List ℕ
unfolding affinity_loop
get_affinity_list ncpus is_set text = affinity_loop ncpus 0 is_set text []
