-- ===== src/StdMap/Laws.antt =====
-- What a lookup finds after an `insert` or an assignment, for every map.
use zerosum.Base.{
  Bool, true, false, [], ◌∷◌, Option, none, some, Ordering, arith, ◌≡◌, if◌then◌else◌,
}
use zerosum.StdMap.Order.{Ord}
use zerosum.StdMap.Defs.{Map, find, insert, assign}

abbrev pub is_eq : Ordering → Bool
is_eq Ordering.eq = true
is_eq _ = false

abbrev pub or_some {ℓ} : {A : Type ℓ} → Option A → A → Option A
or_some none a = some a
or_some (some b) a = some b

module _ {ℓ κ} {K : Type ℓ} ⦃o : Ord K⦄ {V : Type κ} where
  pub find-insert :
      (k j : K) (v : V) (m : Map K V)
      → find j (insert k v m) ≡ (if is_eq (o.cmp j k) then or_some (find j m) v else find j m)
  unfolding find insert
  find-insert k j v [] = ground arith
  find-insert k j v ((i, w) ∷ m) = ground (
    arith,
    find-insert k j v m,
    o.cmp_eq j k,
    o.cmp_eq k i,
    o.cmp_eq j i,
    o.cmp_trans j k i,
    o.cmp_trans i k j,
    o.cmp_trans j i k,
    o.cmp_flip k i,
    o.cmp_flip j i,
    o.cmp_flip j k,
    o.cmp_refl i,
  )

  pub find-assign :
      (k j : K) (v : V) (m : Map K V)
      → find j (assign k v m) ≡ (if is_eq (o.cmp j k) then some v else find j m)
  unfolding find assign
  find-assign k j v [] = ground arith
  find-assign k j v ((i, w) ∷ m) = ground (
    arith,
    find-assign k j v m,
    o.cmp_eq j k,
    o.cmp_eq k i,
    o.cmp_eq j i,
    o.cmp_trans j k i,
    o.cmp_trans i k j,
    o.cmp_trans j i k,
    o.cmp_flip k i,
    o.cmp_flip j i,
    o.cmp_flip j k,
    o.cmp_refl i,
  )
