-- ===== src/StdMap/Order.antt =====
-- The order of the keys, as an instance: numbers, signed numbers and texts.
use zerosum.Base.{ℕ, ◌≡◌, compare, Ordering, arith, ◌↔◌}
use zerosum.Base.Int.{ℤ, pos, negsuc}
use zerosum.Text.{
  Text, compare_text, compare_text_eq, compare_text_refl, compare_text_trans, compare_text_flip,
}

pub record Ord {ℓ} (K : Type ℓ) : Type ℓ where
  pub cmp : K → K → Ordering
  pub cmp_eq : (a b : K) → cmp a b ≡ Ordering.eq → a ≡ b
  pub cmp_refl : (a : K) → cmp a a ≡ Ordering.eq
  pub cmp_trans :
      (a b c : K) → cmp a b ≡ Ordering.lt → cmp b c ≡ Ordering.lt → cmp a c ≡ Ordering.lt
  pub cmp_flip : (a b : K) → (cmp a b ≡ Ordering.gt) ↔ (cmp b a ≡ Ordering.lt)

pub nat_cmp_eq : (a b : ℕ) → compare a b ≡ Ordering.eq → a ≡ b
nat_cmp_eq a b h = ground arith

pub nat_cmp_refl : (a : ℕ) → compare a a ≡ Ordering.eq
nat_cmp_refl a = ground arith

pub nat_cmp_trans :
    (a b c : ℕ) → compare a b ≡ Ordering.lt → compare b c ≡ Ordering.lt → compare a c ≡ Ordering.lt
nat_cmp_trans a b c h k = ground arith

pub nat_cmp_flip : (a b : ℕ) → (compare a b ≡ Ordering.gt) ↔ (compare b a ≡ Ordering.lt)
nat_cmp_flip a b = ground arith

instance abbrev pub nat_ord : Ord ℕ
nat_ord = record {
  cmp = compare;
  cmp_eq = nat_cmp_eq;
  cmp_refl = nat_cmp_refl;
  cmp_trans = nat_cmp_trans;
  cmp_flip = nat_cmp_flip;
}

instance abbrev pub text_ord : Ord Text
text_ord = record {
  cmp = compare_text;
  cmp_eq = compare_text_eq;
  cmp_refl = compare_text_refl;
  cmp_trans = compare_text_trans;
  cmp_flip = compare_text_flip;
}

unfoldable pub compare_ℤ : ℤ → ℤ → Ordering
compare_ℤ (pos a) (pos b) = compare a b
compare_ℤ (pos a) (negsuc b) = Ordering.gt
compare_ℤ (negsuc a) (pos b) = Ordering.lt
compare_ℤ (negsuc a) (negsuc b) = compare b a

pub compare_ℤ_eq : (a b : ℤ) → compare_ℤ a b ≡ Ordering.eq → a ≡ b
unfolding compare_ℤ
compare_ℤ_eq a b h = ground arith

pub compare_ℤ_refl : (a : ℤ) → compare_ℤ a a ≡ Ordering.eq
unfolding compare_ℤ
compare_ℤ_refl a = ground arith

pub compare_ℤ_trans :
    (a b c : ℤ)
    → compare_ℤ a b ≡ Ordering.lt
    → compare_ℤ b c ≡ Ordering.lt
    → compare_ℤ a c ≡ Ordering.lt
unfolding compare_ℤ
compare_ℤ_trans a b c h k = ground arith

pub compare_ℤ_flip : (a b : ℤ) → (compare_ℤ a b ≡ Ordering.gt) ↔ (compare_ℤ b a ≡ Ordering.lt)
unfolding compare_ℤ
compare_ℤ_flip a b = ground arith

instance abbrev pub int_ord : Ord ℤ
int_ord = record {
  cmp = compare_ℤ;
  cmp_eq = compare_ℤ_eq;
  cmp_refl = compare_ℤ_refl;
  cmp_trans = compare_ℤ_trans;
  cmp_flip = compare_ℤ_flip;
}
