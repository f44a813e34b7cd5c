-- ===== src/Topology/Json.antt =====
-- src/hwloc.cpp: `buildJSON`, which writes an object and all that is below it.
use zerosum.Base.{
  ℕ, ◌+◌, ◌%◌, ◌^◌, ◌==◌, ◌&&◌, Bool, true, false, [], ◌∷◌, ◌++◌, Option, none, some, if◌then◌else◌,
}
use zerosum.Floats.{Floats}
use zerosum.Text.{Text, codes, to_string}
use zerosum.Topology.{
  ObjectType, core, pu, l1_cache, l2_cache, l3_cache, l4_cache, l5_cache, l1i_cache, l2i_cache,
  l3i_cache, Object, Tree, tree, Trees, nil, cons, Library,
}
use zerosum.Topology.Detail.{get_detail_name}

-- The caches that are left out where they are not shared.
abbrev pub is_skipped : ObjectType → Bool
is_skipped l1_cache = true
is_skipped l2_cache = true
is_skipped l3_cache = true
is_skipped l4_cache = true
is_skipped l5_cache = true
is_skipped l1i_cache = true
is_skipped l2i_cache = true
is_skipped l3i_cache = true
is_skipped _ = false

abbrev is_indexed : ObjectType → Bool
is_indexed core = true
is_indexed pu = true
is_indexed _ = false

word_behind : Option Text → Text
word_behind none = []
word_behind (some word) = b' ' ∷ word

unfoldable pub object_name : Library → Object → Text
unfolding word_behind
object_name lib obj =
    lib.type_string obj.type
    ++ (word_behind obj.subtype
        ++ (word_behind obj.name
            ++ (if is_indexed obj.type
                then codes " L#"
                  ++ (to_string obj.logical_index ++ (codes " P#" ++ to_string obj.os_index))
                else [])))

module _ (fl : Floats) (lib : Library) where
  -- What stands before the children or the size. The depth is the one behind `depth += 1`.
  unfoldable pub head_text : Object → ℕ → Text
  unfolding object_name get_detail_name
  head_text obj depth =
      codes "\n{\"name\":\""
      ++ (object_name lib obj
          ++ (codes "\",\"utilization\":0,\"rank\":-1,\"detail_name\":\""
              ++ (get_detail_name fl lib obj
                  ++ (codes "\"," ++ (codes "\"depth\":" ++ (to_string depth ++ codes ","))))))

-- `json.back() = ']'`
unfoldable pub close_list : Text → Text
close_list [] = []
close_list (c ∷ []) = b']' ∷ []
close_list (c ∷ (d ∷ s)) = c ∷ close_list (d ∷ s)

abbrev pub size_text : ℕ → Text
size_text size = codes ",\"size\":" ++ (to_string size ++ codes "}")

-- `obj->arity` and its like
unfoldable pub arity : Trees → ℕ
arity nil = 0
arity (cons t ts) = arity ts + 1

-- A cache that is not shared.
abbrev pub is_left_out : Object → (memory children io misc : Trees) → Bool
is_left_out obj memory children io misc =
    arity children == 1
    && arity memory == 0
    && arity io == 0
    && arity misc == 0
    && is_skipped obj.type

abbrev pub is_leaf : (memory children io misc : Trees) → Bool
is_leaf memory children io misc =
    arity children == 0 && arity memory == 0 && arity io == 0 && arity misc == 0

module _ (fl : Floats) (lib : Library) where
  -- The text and the size of an object. The depth is the one behind `depth += 1`.
  unfoldable mutual
    unfolding head_text close_list arity

    pub build_json : Tree → ℕ → Text × ℕ
    build_json (tree obj memory children io misc) depth =
        let only = build_first children depth in
        let (m, m_size) = build_list memory (depth + 1) in
        let (c, c_size) = build_list children (depth + 1) in
        let (i, i_size) = build_list io (depth + 1) in
        let (s, s_size) = build_list misc (depth + 1) in
        let size = (m_size + c_size + i_size + s_size) % 2 ^ 32 in
        if is_left_out obj memory children io misc
        then only
        else if is_leaf memory children io misc
        then (head_text fl lib obj depth ++ codes "\"size\":1}", 1)
        else (
          close_list
                (head_text fl lib obj depth ++ (codes "\"children\":[" ++ (m ++ (c ++ (i ++ s)))))
              ++ size_text size,
          size,
        )

    -- `buildJSON(obj->first_child, depth)`
    pub build_first : Trees → ℕ → Text × ℕ
    build_first nil depth = ([], 0)
    build_first (cons t ts) depth = build_json t depth

    -- The texts of objects, each with a comma behind it, and the sum of their sizes.
    pub build_list : Trees → ℕ → Text × ℕ
    build_list nil depth = ([], 0)
    build_list (cons t ts) depth =
        let (json, size) = build_json t depth in
        let (rest, rest_size) = build_list ts depth in
        (json ++ b',' ∷ rest, (size + rest_size) % 2 ^ 32)
