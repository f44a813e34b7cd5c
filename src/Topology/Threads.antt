-- ===== src/Topology/Threads.antt =====
-- src/hwloc.cpp: `traverse`, which fills the map from the index of the system to the logical one, and
-- `validate_hwloc`.
use zerosum.Base.{ℕ, zero, Bool, true, false, ◌&&◌, Option, none, some, ◌++◌, if◌then◌else◌}
use zerosum.Base.Int.{ℤ, pos}
use zerosum.Floats.{Floats}
use zerosum.StdMap.{nat_ord, Map, insert}
use zerosum.Text.{Text, codes}
use zerosum.Topology.{ObjectType, core, pu, Object, Tree, tree, Trees, nil, cons, Library}
use zerosum.Topology.Json.{build_json}

abbrev pub is_pu : ObjectType → Bool
is_pu pu = true
is_pu _ = false

abbrev pub is_core : ObjectType → Bool
is_core core = true
is_core _ = false

-- `ZS_MAP_CORES` and `ZS_MAP_PUS`, as the code reads them.
module _ (do_map do_map2 : Bool) where
  -- The part of `traverse` behind the loop.
  abbrev pub map_object : Object → Map ℕ ℕ → Map ℕ ℕ
  map_object obj m =
      let m' = if do_map && is_pu obj.type then insert obj.os_index obj.logical_index m else m in
      if do_map2 && is_core obj.type then insert obj.os_index obj.logical_index m' else m'

  unfoldable mutual
    pub traverse : Tree → Map ℕ ℕ → Map ℕ ℕ
    traverse (tree obj memory children io misc) m = map_object obj (traverse_all children m)

    pub traverse_all : Trees → Map ℕ ℕ → Map ℕ ℕ
    traverse_all nil m = m
    traverse_all (cons t ts) m = traverse_all ts (traverse t m)

  -- The map, and the name and the content of the file that the first rank of a node writes.
  unfoldable pub validate_hwloc :
      Floats → Library → ℤ → Tree → Map ℕ ℕ → Map ℕ ℕ × Option (Text × Text)
  unfolding build_json
  validate_hwloc fl lib (pos zero) root m = (
    traverse root m,
    some (codes "zs.topology." ++ (lib.hostname ++ codes ".json"), (build_json fl lib root 0).0),
  )
  validate_hwloc fl lib shmrank root m = (traverse root m, none)
