-- ===== src/Topology/Document.antt =====
-- The text of the topology, against a printer of the tree without the caches that are left out.
use zerosum.Base.{
  ℕ, ◌+◌, ◌%◌, ◌^◌, ◌≡◌, refl, ap, arith, true, false, if◌then◌else◌, [], ◌∷◌, ◌++◌, append_assoc,
}
use zerosum.Floats.{Floats}
use zerosum.Text.{Text, codes}
use zerosum.Topology.{Object, Tree, tree, Trees, nil, cons, Library}
use zerosum.Topology.Json.{arity, is_left_out, is_leaf, head_text, size_text, close_list}

mutual
  pub data Document : Type 0 where
    document : Object → Documents → Document

  pub data Documents : Type 0 where
    none_left : Documents
    more : Document → Documents → Documents

abbrev pub join : Documents → Documents → Documents
join none_left ys = ys
join (more d ds) ys = more d (join ds ys)

-- All children of an object in one list, and each cache that is left out replaced by its child.
unfoldable mutual
  unfolding arity

  pub collapse : Tree → Document
  collapse (tree obj memory children io misc) =
      let only = collapse_first obj children in
      let all =
        join (collapse_all memory)
          (join (collapse_all children) (join (collapse_all io) (collapse_all misc))) in
      if is_left_out obj memory children io misc then only else document obj all

  pub collapse_first : Object → Trees → Document
  collapse_first obj nil = document obj none_left
  collapse_first obj (cons t ts) = collapse t

  pub collapse_all : Trees → Documents
  collapse_all nil = none_left
  collapse_all (cons t ts) = more (collapse t) (collapse_all ts)

unfoldable mutual
  pub count : Document → ℕ
  count (document obj none_left) = 1
  count (document obj (more d ds)) = count d + count_all ds

  pub count_all : Documents → ℕ
  count_all none_left = 0
  count_all (more d ds) = count d + count_all ds

module _ (fl : Floats) (lib : Library) where
  -- A comma stands between two children, and none behind the last.
  unfoldable mutual
    unfolding head_text count

    pub print : Document → ℕ → Text
    print (document obj none_left) depth = head_text fl lib obj depth ++ codes "\"size\":1}"
    print (document obj (more d ds)) depth =
        head_text fl lib obj depth
        ++ (codes "\"children\":["
            ++ (print d (depth + 1)
                ++ (print_rest ds (depth + 1)
                    ++ (codes "]" ++ size_text ((count d + count_all ds) % 2 ^ 32)))))

    pub print_rest : Documents → ℕ → Text
    print_rest none_left depth = []
    print_rest (more d ds) depth = b',' ∷ print d depth ++ print_rest ds depth

  -- With a comma behind each.
  unfoldable pub behind : Documents → ℕ → Text
  unfolding print
  behind none_left depth = []
  behind (more d ds) depth = print d depth ++ b',' ∷ behind ds depth

  pub behind-join :
      (xs ys : Documents) (depth : ℕ)
      → behind (join xs ys) depth ≡ behind xs depth ++ behind ys depth
  unfolding behind
  behind-join none_left ys depth = refl
  behind-join (more d ds) ys depth = simp (behind-join ds ys depth, append_assoc)

  pub comma_behind :
      (ds : Documents) (depth : ℕ) → b',' ∷ behind ds depth ≡ print_rest ds depth ++ b',' ∷ []
  unfolding behind print
  comma_behind none_left depth = refl
  comma_behind (more d ds) depth = simp (comma_behind ds depth, append_assoc)

pub close_list_comma : (s : Text) → close_list (s ++ b',' ∷ []) ≡ s ++ codes "]"
unfolding close_list
close_list_comma [] = refl
close_list_comma (c ∷ []) = refl
close_list_comma (c ∷ (d ∷ s)) = ap (λ r. c ∷ r) (close_list_comma (d ∷ s))

pub count_all-join : (xs ys : Documents) → count_all (join xs ys) ≡ count_all xs + count_all ys
unfolding count
count_all-join none_left ys = omega arith
count_all-join (more d ds) ys = omega (arith, count_all-join ds ys)

-- The children of an object that has some are not left behind.
pub join_all-more :
    (memory children io misc : Trees)
    → is_leaf memory children io misc ≡ false
    → (d : Document) × (ds : Documents) × (join
          (collapse_all memory)
          (join (collapse_all children) (join (collapse_all io) (collapse_all misc)))
        ≡ more d ds)
unfolding collapse arity
join_all-more (cons t ts) children io misc e = (_, _, refl)
join_all-more nil (cons t ts) io misc e = (_, _, refl)
join_all-more nil nil (cons t ts) misc e = (_, _, refl)
join_all-more nil nil nil (cons t ts) e = (_, _, refl)
join_all-more nil nil nil nil e = ground arith

-- Without children, there is nothing to join.
pub join_all-none :
    (memory children io misc : Trees)
    → is_leaf memory children io misc ≡ true
    → join
        (collapse_all memory)
        (join (collapse_all children) (join (collapse_all io) (collapse_all misc)))
      ≡ none_left
unfolding collapse arity
join_all-none nil nil nil nil e = refl
join_all-none (cons t ts) children io misc e = ground arith
join_all-none nil (cons t ts) io misc e = ground arith
join_all-none nil nil (cons t ts) misc e = ground arith
join_all-none nil nil nil (cons t ts) e = ground arith

pub count-join_all :
    (memory children io misc : Trees)
    → count_all (
        join
          (collapse_all memory)
          (join (collapse_all children) (join (collapse_all io) (collapse_all misc))))
      ≡ count_all (collapse_all memory)
        + count_all (collapse_all children)
        + count_all (collapse_all io)
        + count_all (collapse_all misc)
count-join_all memory children io misc = omega (
  arith,
  count_all-join (collapse_all io) (collapse_all misc),
  count_all-join (collapse_all children) (join (collapse_all io) (collapse_all misc)),
  count_all-join (collapse_all memory)
      (join (collapse_all children) (join (collapse_all io) (collapse_all misc))),
)
