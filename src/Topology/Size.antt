-- ===== src/Topology/Size.antt =====
-- The sizes in the topology, against the leaves of the tree.
use zerosum.Base.{ℕ, ◌+◌, ◌%◌, ◌^◌, ◌≡◌, refl, arith, if◌then◌else◌}
use zerosum.Floats.{Floats}
use zerosum.Topology.{Tree, tree, Trees, nil, cons, Library}
use zerosum.Topology.Json.{arity, is_leaf, build_json, build_first, build_list}

-- The objects below which there are none.
unfoldable mutual
  unfolding arity

  pub leaves : Tree → ℕ
  leaves (tree obj memory children io misc) =
      let below = leaves_in memory + leaves_in children + leaves_in io + leaves_in misc in
      if is_leaf memory children io misc then 1 else below

  pub leaves_in : Trees → ℕ
  leaves_in nil = 0
  leaves_in (cons t ts) = leaves t + leaves_in ts

pub arity-nil : (ts : Trees) → arity ts ≡ 0 → leaves_in ts ≡ 0
unfolding arity leaves
arity-nil nil e = refl
arity-nil (cons t ts) e = ground arith

module _ (fl : Floats) (lib : Library) where
  mutual
    unfolding build_json leaves arity

    size-leaves : (t : Tree) (depth : ℕ) → (build_json fl lib t depth).1 ≡ leaves t % 2 ^ 32
    size-leaves (tree obj memory children io misc) depth = ground (
      arith,
      size_list-leaves memory (depth + 1),
      size_list-leaves children (depth + 1),
      size_list-leaves io (depth + 1),
      size_list-leaves misc (depth + 1),
      size_first-leaves children depth,
      arity-nil memory,
      arity-nil io,
      arity-nil misc,
    )

    size_first-leaves :
        (ts : Trees) (depth : ℕ)
        → arity ts ≡ 1
        → (build_first fl lib ts depth).1 ≡ leaves_in ts % 2 ^ 32
    size_first-leaves nil depth e = refl
    size_first-leaves (cons t ts) depth e = ground (arith, size-leaves t depth, arity-nil ts)

    pub size_list-leaves :
        (ts : Trees) (depth : ℕ) → (build_list fl lib ts depth).1 ≡ leaves_in ts % 2 ^ 32
    size_list-leaves nil depth = refl
    size_list-leaves (cons t ts) depth =
        ground (arith, size-leaves t depth, size_list-leaves ts depth)

  -- The size that is written for an object is the number of objects below it, and itself, that have
  -- nothing below them, modulo 2 ^ 32; leaving out the caches that are not shared does not change it.
  build_json_size : (t : Tree) (depth : ℕ) → (build_json fl lib t depth).1 ≡ leaves t % 2 ^ 32
  build_json_size t depth = size-leaves t depth
