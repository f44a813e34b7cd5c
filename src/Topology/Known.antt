-- ===== src/Topology/Known.antt =====
-- What the map of indices has after a traversal.
use zerosum.Base.{
  ℕ, ◌≡◌, refl, arith, Bool, ◌&&◌, ◌||◌, ◌==◌, ==_iff, Option, none, some, List, [], ◌∷◌, ◌++◌,
  if◌then◌else◌,
}
use zerosum.StdMap.{nat_ord, Map, find, insert, find-insert}
use zerosum.Topology.{Object, Tree, tree, Trees, nil, cons}
use zerosum.Topology.Threads.{is_pu, is_core, map_object, traverse, traverse_all}

-- The first logical index that a list has for an index of the system.
abbrev pub first_for : ℕ → List (ℕ × ℕ) → Option ℕ
first_for k [] = none
first_for k ((i, l) ∷ rest) = if k == i then some l else first_for k rest

abbrev pub or_else : Option ℕ → Option ℕ → Option ℕ
or_else none b = b
or_else (some a) b = some a

module _ (do_map do_map2 : Bool) where
  -- The objects that the settings choose below an object and then itself, from the children only.
  abbrev pub own_index : Object → List (ℕ × ℕ)
  own_index obj =
      if (do_map && is_pu obj.type) || (do_map2 && is_core obj.type)
      then (obj.os_index, obj.logical_index) ∷ []
      else []

  unfoldable mutual
    pub indices : Tree → List (ℕ × ℕ)
    indices (tree obj memory children io misc) = indices_all children ++ own_index obj

    pub indices_all : Trees → List (ℕ × ℕ)
    indices_all nil = []
    indices_all (cons t ts) = indices t ++ indices_all ts

  first_for-append :
      (k : ℕ) (xs ys : List (ℕ × ℕ))
      → first_for k (xs ++ ys) ≡ or_else (first_for k xs) (first_for k ys)
  first_for-append k [] ys = refl
  first_for-append k ((i, l) ∷ xs) ys = ground (arith, first_for-append k xs ys)

  find-map_object :
      (k : ℕ) (obj : Object) (m : Map ℕ ℕ)
      → find k (map_object do_map do_map2 obj m) ≡ or_else (find k m) (first_for k (own_index obj))
  find-map_object k obj m = ground (
    arith,
    find-insert obj.os_index k obj.logical_index m,
    find-insert obj.os_index k obj.logical_index (insert obj.os_index obj.logical_index m),
    nat_ord.cmp_eq k obj.os_index,
    nat_ord.cmp_refl k,
    ==_iff k obj.os_index,
  )

  mutual
    unfolding traverse indices

    find-traverse :
        (k : ℕ) (t : Tree) (m : Map ℕ ℕ)
        → find k (traverse do_map do_map2 t m) ≡ or_else (find k m) (first_for k (indices t))
    find-traverse k (tree obj memory children io misc) m = ground (
      arith,
      find-map_object k obj (traverse_all do_map do_map2 children m),
      find-traverse_all k children m,
      first_for-append k (indices_all children) (own_index obj),
    )

    find-traverse_all :
        (k : ℕ) (ts : Trees) (m : Map ℕ ℕ)
        → find k (traverse_all do_map do_map2 ts m)
          ≡ or_else (find k m) (first_for k (indices_all ts))
    find-traverse_all k nil m = ground arith
    find-traverse_all k (cons t ts) m = ground (
      arith,
      find-traverse k t m,
      find-traverse_all k ts (traverse do_map do_map2 t m),
      first_for-append k (indices t) (indices_all ts),
    )

  -- After a traversal that starts with an empty map, an index of the system has the logical index
  -- of the first object with it among those that the settings choose, where an object comes behind
  -- those that are its children; other indices have no entry.
  pub traverse_first :
      (k : ℕ) (t : Tree) → find k (traverse do_map do_map2 t []) ≡ first_for k (indices t)
  unfolding find
  traverse_first k t = find-traverse k t []
