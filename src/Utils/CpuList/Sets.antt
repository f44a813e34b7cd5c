-- ===== src/Utils/CpuList/Sets.antt =====
-- `toString` and `getAffinityList` write a list that `parseDiscreteValues` reads back.
use zerosum.Base.{
  ℕ, zero, suc, ◌+◌, ◌^◌, ◌<◌, ◌≤◌, ◌≡◌, refl, ap, sym, ◌∙◌, Bool, ◌&&◌, List, [], ◌∷◌, ◌++◌,
  append_assoc, append-nil, map, inl, inr, arith, length, length-append, All, if◌then◌else◌, ltb,
  leb, ◌==◌, ==_iff, Bool-cases,
}
use zerosum.StdMap.StdSet.{elem}
use zerosum.Text.{Text, to_string, to_string-nonempty, ok}
use zerosum.Utils.CpuList.RoundTrip.{single, render, expand_all, Fits, parse_discrete_values-render}
use zerosum.Utils.CpuList.{
  parse_discrete_values, join_onto, set_to_string, affinity_loop, get_affinity_list,
}

-- The elements behind the first, each behind a comma.
abbrev tail_text : List ℕ → Text
tail_text [] = []
tail_text (t ∷ ts) = b',' ∷ (to_string t ++ tail_text ts)

join_onto-tail_text :
    (ts : List ℕ) (out : Text) → 0 < length out → join_onto ts out ≡ out ++ tail_text ts
unfolding join_onto
join_onto-tail_text [] out h = sym (append-nil out)
join_onto-tail_text (t ∷ ts) out h = ground (
  arith,
  join_onto-tail_text ts ((out ++ b',' ∷ []) ++ to_string t) (
      omega (arith, length-append (out ++ b',' ∷ []) (to_string t), length-append out (b',' ∷ []))),
  append_assoc (out ++ b',' ∷ []) (to_string t) (tail_text ts),
  append_assoc out (b',' ∷ []) (to_string t ++ tail_text ts),
)

render-tail_text :
    (t : ℕ) (ts : List ℕ) → render (map single (t ∷ ts)) ≡ to_string t ++ tail_text ts
render-tail_text t [] = sym (append-nil (to_string t))
render-tail_text t (u ∷ ts) = ap (λ s. to_string t ++ b',' ∷ s) (render-tail_text u ts)

set_to_string-render : (ts : List ℕ) → set_to_string ts ≡ render (map single ts)
unfolding set_to_string join_onto
set_to_string-render [] = refl
set_to_string-render (t ∷ ts) =
    join_onto-tail_text ts (to_string t) (to_string-nonempty t) ∙ sym (render-tail_text t ts)

expand_all-single : (ts : List ℕ) → expand_all (map single ts) ≡ ts
expand_all-single [] = refl
expand_all-single (t ∷ ts) = ap (◌∷◌ t) (expand_all-single ts)

abbrev pub AreInts : List ℕ → Type 0
AreInts = All (λ t. t < 2 ^ 31)

AreInts-Fits : (ts : List ℕ) → AreInts ts → All Fits (map single ts)
AreInts-Fits [] h = tt
AreInts-Fits (t ∷ ts) h = (h.0, AreInts-Fits ts h.1)

-- What `toString` writes for a set of numbers below 2 ^ 31 is read back as the same elements.
parse_discrete_values-set_to_string :
    (ts : List ℕ) → AreInts ts → parse_discrete_values (set_to_string ts) ≡ ok ts
parse_discrete_values-set_to_string ts h = rw (set_to_string-render ts) (
    parse_discrete_values-render (map single ts) (AreInts-Fits ts h) ∙ ap ok (expand_all-single ts))

-- The hardware threads of the mask, from `i` on, in `n` rounds.
selected : ℕ → ℕ → (ℕ → Bool) → List ℕ
selected zero i is_set = []
selected (suc n) i is_set =
    if is_set i then i ∷ selected n (i + 1) is_set else selected n (i + 1) is_set

affinity_loop-selected :
    (n i : ℕ) (is_set : ℕ → Bool) (text : Text) (list : List ℕ)
    → affinity_loop n i is_set text list
      ≡ (join_onto (selected n i is_set) text, list ++ selected n i is_set)
unfolding affinity_loop selected join_onto
affinity_loop-selected zero i is_set text list = ground (arith, append-nil list)
affinity_loop-selected (suc n) i is_set text list = elim (Bool-cases (is_set i)) [
  | inl e ↦ rw e (
      affinity_loop-selected n (i + 1) is_set _ _
      ∙ ap (λ l. (join_onto (i ∷ selected n (i + 1) is_set) text, l))
          (append_assoc list (i ∷ []) (selected n (i + 1) is_set)))
  | inr e ↦ rw e (affinity_loop-selected n (i + 1) is_set text list)
]

selected-AreInts : (n i : ℕ) (is_set : ℕ → Bool) → i + n ≤ 2 ^ 31 → AreInts (selected n i is_set)
unfolding selected
selected-AreInts zero i is_set h = tt
selected-AreInts (suc n) i is_set h =
    let rest : AreInts (selected n (i + 1) is_set) =
      selected-AreInts n (i + 1) is_set (omega arith) in
    elim (Bool-cases (is_set i)) [ inl e ↦ rw e (omega arith, rest) | inr e ↦ rw e rest ]

elem-selected :
    (n i : ℕ) (is_set : ℕ → Bool) (y : ℕ)
    → elem y (selected n i is_set) ≡ (is_set y && (leb i y && ltb y (i + n)))
unfolding selected
elem-selected zero i is_set y = ground arith
elem-selected (suc n) i is_set y = elim (Bool-cases (y == i)) [
  | inl e ↦ ground (arith, elem-selected n (i + 1) is_set y, ap is_set ((==_iff y i).0 e))
  | inr e ↦ ground (arith, elem-selected n (i + 1) is_set y)
]

-- For up to 2 ^ 31 hardware threads the list of `getAffinityList` holds exactly the ones below
-- `ncpus` that are in the mask, and the text that it writes into an empty string is read back by
-- `parseDiscreteValues` as that list.
pub get_affinity_list_agrees :
    (ncpus : ℕ) (is_set : ℕ → Bool)
    → ncpus ≤ 2 ^ 31
    → let r = get_affinity_list ncpus is_set [] in
      (parse_discrete_values r.0 ≡ ok r.1) × ((y : ℕ) → elem y r.1 ≡ (is_set y && ltb y ncpus))
unfolding get_affinity_list
get_affinity_list_agrees ncpus is_set h = rw (affinity_loop-selected ncpus 0 is_set [] []) (
  unfold set_to_string in
      (parse_discrete_values-set_to_string (selected ncpus 0 is_set)
        (selected-AreInts ncpus 0 is_set (omega arith))),
  λ y. ground (arith, elem-selected ncpus 0 is_set y),
)
