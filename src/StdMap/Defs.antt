-- ===== src/StdMap/Defs.antt =====
-- The operations of `std::map`.
use zerosum.Base.{Bool, true, false, List, [], ◌∷◌, Option, none, some, Ordering}
use zerosum.StdMap.Order.{Ord}

-- Entries in ascending order of the keys.
abbrev pub Map {ℓ κ} : Type ℓ → Type κ → Type (ℓ ⊔ κ)
Map K V = List (K × V)

abbrev pub is_some {ℓ} : {A : Type ℓ} → Option A → Bool
is_some none = false
is_some (some a) = true

module _ {ℓ κ} {K : Type ℓ} ⦃o : Ord K⦄ {V : Type κ} where
  unfoldable pub find : K → Map K V → Option V
  find k [] = none
  find k ((j, w) ∷ m) = elim (o.cmp k j) [
    | Ordering.lt ↦ none
    | Ordering.eq ↦ some w
    | Ordering.gt ↦ find k m
  ]

  -- `insert` keeps the entry that is there.
  unfoldable pub insert : K → V → Map K V → Map K V
  insert k v [] = (k, v) ∷ []
  insert k v ((j, w) ∷ m) = elim (o.cmp k j) [
    | Ordering.lt ↦ (k, v) ∷ (j, w) ∷ m
    | Ordering.eq ↦ (j, w) ∷ m
    | Ordering.gt ↦ (j, w) ∷ insert k v m
  ]

  -- `m[k] = v`
  unfoldable pub assign : K → V → Map K V → Map K V
  assign k v [] = (k, v) ∷ []
  assign k v ((j, w) ∷ m) = elim (o.cmp k j) [
    | Ordering.lt ↦ (k, v) ∷ (j, w) ∷ m
    | Ordering.eq ↦ (k, v) ∷ m
    | Ordering.gt ↦ (j, w) ∷ assign k v m
  ]

  -- `m.count(k) > 0`
  abbrev pub count : K → Map K V → Bool
  count k m = is_some (find k m)

  abbrev pub find_or : V → K → Map K V → V
  find_or d k m = elim (find k m) [ none ↦ d | some v ↦ v ]
