-- ===== src/Utils/CpuList/Total.antt =====
-- How `parseDiscreteValues` ends: each round of its loop erases at least the comma.
use zerosum.Base.{
  ℕ, zero, suc, ◌+◌, ◌-◌, ◌^◌, ◌<◌, ◌≡◌, sym, subst, ◌∙◌, ap, true, false, List, [], ◌∷◌, ◌++◌,
  append_assoc, append-nil, Option-cases, Bool-cases, inl, inr, arith, length,
}
use zerosum.Base.Int.{ℤ, pos, negsuc, to_u32}
use zerosum.Text.{
  Text, split_at, split_at_shorter, split_at-parts, stoi, stoi-throws, Error, invalid_argument,
  out_of_range, undefined, out_of_fuel, exited, Result, Result-cases, ok, err, ◌>>=◌,
}
use zerosum.Utils.CpuList.{
  is_int_max, push_range, parse_token, parse_last, parse_loop, parse_discrete_values,
}

-- Behind a hyphen, the input has a text that `stoi` reads as the largest `int`.
abbrev pub HasEndless : Text → Type 0
HasEndless s =
    (x : Text) × (b : Text) × (y : Text) × (s ≡ x ++ b'-' ∷ (b ++ y))
    × (stoi b ≡ ok (pos (2 ^ 31 - 1)))

-- It returns or throws an exception of `stoi`, or it has met such a text.
abbrev pub Ends : Text → Result (List ℕ) → Type 0
Ends s (ok v) = Unit
Ends s (err invalid_argument) = Unit
Ends s (err out_of_range) = Unit
Ends s (err undefined) = HasEndless s
Ends s (err out_of_fuel) = false ≡ true
Ends s (err exited) = false ≡ true

HasEndless-front : (a b : Text) → HasEndless a → HasEndless (a ++ b)
HasEndless-front a b (x, e, y, h, k) = (
  x,
  e,
  y ++ b,
  ap (λ t. t ++ b) h
      ∙ append_assoc x (b'-' ∷ (e ++ y)) b
      ∙ ap (λ t. x ++ b'-' ∷ t) (append_assoc e y b),
  k,
)

HasEndless-behind : (a b : Text) → HasEndless b → HasEndless (a ++ b)
HasEndless-behind a b (x, e, y, h, k) =
    (a ++ x, e, y, ap (λ t. a ++ t) h ∙ sym (append_assoc a x (b'-' ∷ (e ++ y))), k)

Ends-front : (a b : Text) (r : Result (List ℕ)) → Ends a r → Ends (a ++ b) r
Ends-front a b (ok v) h = tt
Ends-front a b (err invalid_argument) h = tt
Ends-front a b (err out_of_range) h = tt
Ends-front a b (err undefined) h = HasEndless-front a b h
Ends-front a b (err out_of_fuel) h = h
Ends-front a b (err exited) h = h

Ends-behind : (a b : Text) (r : Result (List ℕ)) → Ends b r → Ends (a ++ b) r
Ends-behind a b (ok v) h = tt
Ends-behind a b (err invalid_argument) h = tt
Ends-behind a b (err out_of_range) h = tt
Ends-behind a b (err undefined) h = HasEndless-behind a b h
Ends-behind a b (err out_of_fuel) h = h
Ends-behind a b (err exited) h = h

thrown-Ends : (s t : Text) (x : Error) → stoi t ≡ err x → Ends s (err x)
thrown-Ends s t x e = elim (stoi-throws t x e) [
  | inl h ↦ subst (λ y. Ends s (err y)) (sym h) tt
  | inr h ↦ subst (λ y. Ends s (err y)) (sym h) tt
]

-- What follows the last result keeps how the parts end.
then-Ends :
    (s : Text) (result : List ℕ) (r : Result (List ℕ))
    → Ends s r
    → Ends s (do values ← r; ok (result ++ values))
then-Ends s result (ok v) h = tt
then-Ends s result (err x) h = h

is_int_max_only : (end : ℤ) → is_int_max end ≡ true → end ≡ pos (2 ^ 31 - 1)
is_int_max_only (pos e) h = ground (arith, h)
is_int_max_only (negsuc e) h = ground (arith, h)

push_range-Ends :
    (s a b : Text) (start end : ℤ)
    → s ≡ a ++ b'-' ∷ b
    → stoi b ≡ ok end
    → Ends s (push_range start end)
unfolding push_range
push_range-Ends s a b start end h k = elim (Bool-cases (is_int_max end)) [
  | inl e ↦ rw e (a, b, [], rw append-nil h, k ∙ ap ok (is_int_max_only end e))
  | inr e ↦ rw e tt
]

same-Ends : (s : Text) (r q : Result (List ℕ)) → r ≡ q → Ends s q → Ends s r
same-Ends s r q e h = subst (λ t. Ends s t) (sym e) h

parse_token-Ends : (s : Text) → Ends s (parse_token s)
unfolding parse_token
parse_token-Ends s = elim (Option-cases (split_at b'-' s)) [
  | inl e ↦ elim (Result-cases (stoi s)) [
    | inl (n, f) ↦ same-Ends s _ (ok (to_u32 n ∷ [])) (ground (arith, e, f)) tt
    | inr (x, f) ↦ same-Ends s _ (err x) (ground (arith, e, f)) (thrown-Ends s s x f)
  ]
  | inr ((a, b), e) ↦ elim (Result-cases (stoi a)) [
    | inr (x, f) ↦ same-Ends s _ (err x) (ground (arith, e, f)) (thrown-Ends s a x f)
    | inl (n, f) ↦ elim (Result-cases (stoi b)) [
      | inr (x, g) ↦ same-Ends s _ (err x) (ground (arith, e, f, g)) (thrown-Ends s b x g)
      | inl (m, g) ↦
          same-Ends s _ (push_range n m) (ground (arith, e, f, g))
            (push_range-Ends s a b n m (split_at-parts b'-' s a b e) g)
    ]
  ]
]

parse_last-Ends : (s : Text) (result : List ℕ) → Ends s (parse_last s result)
unfolding parse_last
parse_last-Ends [] result = tt
parse_last-Ends (c ∷ s) result =
    then-Ends (c ∷ s) result (parse_token (c ∷ s)) (parse_token-Ends (c ∷ s))

parse_loop-Ends :
    (fuel : ℕ) (s : Text) (result : List ℕ) → length s < fuel → Ends s (parse_loop fuel s result)
unfolding parse_loop
parse_loop-Ends zero s result l = absurd (omega arith)
parse_loop-Ends (suc fuel) s result l = elim (Option-cases (split_at b',' s)) [
  | inl e ↦ same-Ends s _ (parse_last s result) (ground (arith, e)) (parse_last-Ends s result)
  | inr ((a, b), e) ↦
      let parts = sym (split_at-parts b',' s a b e) in
      elim (Result-cases (parse_token a)) [
        | inl (values, f) ↦
            let next = parse_loop fuel b (result ++ values) in
            same-Ends s _ next (ground (arith, e, f)) (
              subst (λ t. Ends t next) (append_assoc a (b',' ∷ []) b ∙ parts)
                (Ends-behind (a ++ b',' ∷ []) b next (
                  parse_loop-Ends fuel b (result ++ values)
                    (omega (arith, split_at_shorter b',' s a b e)))))
        | inr (x, f) ↦ same-Ends s _ (err x) (ground (arith, e, f)) (
            subst (λ t. Ends t (err x)) parts
              (Ends-front a (b',' ∷ b) (err x) (subst (λ r. Ends a r) f (parse_token-Ends a))))
      ]
]

-- For every input, the fuel, one more than its length, is not used up: the function returns, or throws one
-- of the exceptions of `stoi`, or it has met, behind a hyphen, a text that `stoi` reads as the largest
-- `int`, where its inner loop cannot end without an overflow.
pub parse_discrete_values_total : (s : Text) → Ends s (parse_discrete_values s)
unfolding parse_discrete_values
parse_discrete_values_total s = parse_loop-Ends (length s + 1) s [] (omega arith)
