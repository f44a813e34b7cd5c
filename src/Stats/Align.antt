-- ===== src/Stats/Align.antt =====
-- Where the loops leave the values of a sample.
use zerosum.Base.{
  ℕ, zero, suc, ◌+◌, ◌-◌, ◌≤◌, ◌<◌, ◌≡◌, refl, sym, ap, ◌∙◌, List, [], ◌∷◌, ◌++◌, append_assoc,
  append-nil, Option, none, some, Option-cases, inl, inr, arith, length, length-append, replicate,
  length-replicate, get_elem?, get_elem?-concat, get_elem?-append, if◌then◌else◌,
}
use zerosum.StdMap.{
  text_ord, find, insert, find_or, find-insert, find-assign, IsMap, find-IsAbove, find-IsAbove_lt,
  IsAbove-IsMap, is_eq,
}
use zerosum.Text.{Text, compare_text, compare_text_eq, compare_text_refl}
use zerosum.Utils.Running.{Fields}
use zerosum.Stats.Series.{
  StatFields, zero_text, push_zeros, pad, add_padded, add_all_padded, add_plain, add_all_plain,
}

push_zeros-replicate : (k : ℕ) (v : List Text) → push_zeros k v ≡ v ++ replicate k zero_text
unfolding push_zeros
push_zeros-replicate zero v = sym (append-nil v)
push_zeros-replicate (suc k) v =
    push_zeros-replicate k (v ++ zero_text ∷ [])
    ∙ append_assoc v (zero_text ∷ []) (replicate k zero_text)

pub pad-replicate : (n : ℕ) (v : List Text) → pad n v ≡ v ++ replicate (n - length v) zero_text
pad-replicate n v = push_zeros-replicate (n - length v) v

-- The series behind a sample: unchanged without a value, else padded and one value longer.
abbrev pub extended : ℕ → Option Text → Option (List Text) → Option (List Text)
extended n none series = series
extended n (some x) none = some (pad n [] ++ x ∷ [])
extended n (some x) (some v) = some (pad n v ++ x ∷ [])

find-add_padded :
    (n : ℕ) (k j x : Text) (stats : StatFields)
    → find j (add_padded n k x stats)
      ≡ (if is_eq (compare_text j k) then extended n (some x) (find j stats) else find j stats)
unfolding add_padded
find-add_padded n k j x stats = ground (
  arith,
  find-assign k j (pad n (find_or [] k (insert k [] stats)) ++ x ∷ []) (insert k [] stats),
  find-insert {V = List Text} k j [] stats,
  find-insert {V = List Text} k k [] stats,
  compare_text_eq j k,
  compare_text_refl k,
)

-- Each field of a sample extends its own series; the others stay as they are.
pub find-add_all_padded :
    (n : ℕ) (fields : Fields) (stats : StatFields) (j : Text)
    → IsMap fields
    → find j (add_all_padded n fields stats) ≡ extended n (find j fields) (find j stats)
unfolding add_all_padded find
find-add_all_padded n [] stats j h = refl
find-add_all_padded n ((k, x) ∷ fields) stats j h = ground (
  arith,
  find-add_all_padded n fields (add_padded n k x stats) j (IsAbove-IsMap k fields h),
  find-add_padded n k j x stats,
  find-IsAbove k fields h,
  find-IsAbove_lt j k fields,
  compare_text_eq j k,
)

-- No series is longer than the steps.
abbrev pub Within : ℕ → StatFields → Type 0
Within n stats = (j : Text) (v : List Text) → find j stats ≡ some v → length v ≤ n

length-pad : (n : ℕ) (v : List Text) → length v ≤ n → length (pad n v) ≡ n
length-pad n v h =
    ap length (pad-replicate n v)
    ∙ omega (
      arith,
      length-append v (replicate (n - length v) zero_text),
      length-replicate {A = Text} (n - length v) zero_text,
    )

extended_value :
    (n : ℕ) (v : List Text) (x : Text)
    → length v ≤ n
    → (length (pad n v ++ x ∷ []) ≡ n + 1) × (get_elem? (pad n v ++ x ∷ []) n ≡ some x)
extended_value n v x h = (
  omega (arith, length-append (pad n v) (x ∷ []), length-pad n v h),
  rw (length-pad n v h) at (get_elem?-concat (pad n v) x),
)

-- A value of the sample stands at the index of its step, at the end of its series.
pub add_all_padded_value :
    (n : ℕ) (fields : Fields) (stats : StatFields) (j x : Text)
    → IsMap fields
    → Within n stats
    → find j fields ≡ some x
    → (v : List Text) × (find j (add_all_padded n fields stats) ≡ some v)
      × (length v ≡ n + 1)
      × (get_elem? v n ≡ some x)
add_all_padded_value n fields stats j x m w e = elim (Option-cases (find j stats)) [
  | inl f ↦
      let (l, g) = extended_value n [] x (omega arith) in
      (pad n [] ++ x ∷ [], rw (find-add_all_padded n fields stats j m, e, f), l, g)
  | inr (v, f) ↦
      let (l, g) = extended_value n v x (w j v f) in
      (pad n v ++ x ∷ [], rw (find-add_all_padded n fields stats j m, e, f), l, g)
]

-- What stood in a series stays where it was.
pub add_all_padded_old :
    (n : ℕ) (fields : Fields) (stats : StatFields) (j : Text) (v : List Text)
    → IsMap fields
    → find j stats ≡ some v
    → (v' : List Text) × (find j (add_all_padded n fields stats) ≡ some v')
      × ((i : ℕ) → i < length v → get_elem? v' i ≡ get_elem? v i)
add_all_padded_old n fields stats j v m f = elim (Option-cases (find j fields)) [
  | inl e ↦ (v, rw (find-add_all_padded n fields stats j m, e, f), λ i h. refl)
  | inr (x, e) ↦ (
    pad n v ++ x ∷ [],
    rw (find-add_all_padded n fields stats j m, e, f),
    λ i h.
        rw (pad-replicate n v, append_assoc v (replicate (n - length v) zero_text) (x ∷ []))
          (get_elem?-append v (replicate (n - length v) zero_text ++ x ∷ []) i h),
  )
]

pub add_all_padded-Within :
    (n : ℕ) (fields : Fields) (stats : StatFields)
    → IsMap fields
    → Within n stats
    → Within (n + 1) (add_all_padded n fields stats)
add_all_padded-Within n fields stats m w j v e = elim (Option-cases (find j fields)) [
  | inl f ↦
      let g : find j stats ≡ some v = sym (rw (find-add_all_padded n fields stats j m, f)) ∙ e in
      omega (arith, w j v g)
  | inr (x, f) ↦
      let (v', g, l, _) = add_all_padded_value n fields stats j x m w f in
      let same : some v ≡ some v' = sym e ∙ g in ground arith
]

-- The series behind a sample of the form without padding.
abbrev pub appended : Option Text → Option (List Text) → Option (List Text)
appended none series = series
appended (some x) none = some (x ∷ [])
appended (some x) (some v) = some (v ++ x ∷ [])

find-add_plain :
    (k j x : Text) (stats : StatFields)
    → find j (add_plain k x stats)
      ≡ (if is_eq (compare_text j k) then appended (some x) (find j stats) else find j stats)
unfolding add_plain
find-add_plain k j x stats = ground (
  arith,
  find-assign k j (find_or [] k (insert k [] stats) ++ x ∷ []) (insert k [] stats),
  find-insert {V = List Text} k j [] stats,
  find-insert {V = List Text} k k [] stats,
  compare_text_eq j k,
  compare_text_refl k,
)

pub find-add_all_plain :
    (fields : Fields) (stats : StatFields) (j : Text)
    → IsMap fields
    → find j (add_all_plain fields stats) ≡ appended (find j fields) (find j stats)
unfolding add_all_plain find
find-add_all_plain [] stats j h = refl
find-add_all_plain ((k, x) ∷ fields) stats j h = ground (
  arith,
  find-add_all_plain fields (add_plain k x stats) j (IsAbove-IsMap k fields h),
  find-add_plain k j x stats,
  find-IsAbove k fields h,
  find-IsAbove_lt j k fields,
  compare_text_eq j k,
)
