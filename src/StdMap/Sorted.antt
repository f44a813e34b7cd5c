-- ===== src/StdMap/Sorted.antt =====
-- The order of the entries, which every operation keeps.
use zerosum.Base.{[], ◌∷◌, none, Ordering, arith, ◌≡◌, refl}
use zerosum.StdMap.Order.{Ord}
use zerosum.StdMap.Defs.{Map, find, insert}

module _ {ℓ κ} {K : Type ℓ} ⦃o : Ord K⦄ {V : Type κ} where
  -- Ascending keys, all above `k`.
  abbrev pub IsAbove : K → Map K V → Type 0
  IsAbove k [] = Unit {0}
  IsAbove k ((j, w) ∷ m) = (o.cmp k j ≡ Ordering.lt) × IsAbove j m

  abbrev pub IsMap : Map K V → Type 0
  IsMap [] = Unit {0}
  IsMap ((k, v) ∷ m) = IsAbove k m

  pub find-IsAbove : (k : K) (m : Map K V) → IsAbove k m → find k m ≡ none
  unfolding find
  find-IsAbove k [] h = refl
  find-IsAbove k ((j, w) ∷ m) h = ground (arith, h.0)

  pub find-IsAbove_lt :
      (j k : K) (m : Map K V) → o.cmp j k ≡ Ordering.lt → IsAbove k m → find j m ≡ none
  unfolding find
  find-IsAbove_lt j k [] l h = refl
  find-IsAbove_lt j k ((i, w) ∷ m) l h = ground (arith, o.cmp_trans j k i l h.0)

  pub IsAbove-IsMap : (k : K) (m : Map K V) → IsAbove k m → IsMap m
  IsAbove-IsMap k [] h = tt
  IsAbove-IsMap k ((j, w) ∷ m) h = h.1

  insert-IsAbove :
      (b k : K) (v : V) (m : Map K V)
      → o.cmp b k ≡ Ordering.lt
      → IsAbove b m
      → IsAbove b (insert k v m)
  unfolding insert
  insert-IsAbove b k v [] l h = (l, tt)
  insert-IsAbove b k v ((j, w) ∷ m) l h = ground (arith, o.cmp_flip k j, insert-IsAbove j k v m)

  pub insert-IsMap : (k : K) (v : V) (m : Map K V) → IsMap m → IsMap (insert k v m)
  unfolding insert
  insert-IsMap k v [] h = tt
  insert-IsMap k v ((j, w) ∷ m) h = ground (arith, o.cmp_flip k j, insert-IsAbove j k v m)
