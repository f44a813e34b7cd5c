-- ===== src/Topology/Printed.antt =====
-- What `buildJSON` writes is what the printer of documents writes.
use zerosum.Base.{
  ℕ, ◌+◌, ◌%◌, ◌^◌, ◌≡◌, refl, ap, ap₂, sym, ◌∙◌, arith, true, false, ◌∷◌, ◌++◌, append_assoc,
  Bool-cases, inl, inr,
}
use zerosum.Floats.{Floats}
use zerosum.Text.{codes}
use zerosum.Topology.{Object, Tree, tree, Trees, nil, cons, Library}
use zerosum.Topology.Json.{
  arity, is_left_out, is_leaf, build_json, build_first, build_list, head_text, size_text,
  close_list,
}
use zerosum.Topology.Size.{leaves, leaves_in, arity-nil, size_list-leaves}
use zerosum.Topology.Document.{
  Document, Documents, document, more, join, collapse, collapse_first, collapse_all, count,
  count_all, print, print_rest, behind, behind-join, comma_behind, close_list_comma, join_all-more,
  join_all-none, count-join_all,
}

-- An object with all its children counts what they count.
count-document :
    (obj : Object) (memory children io misc : Trees)
    → count_all (collapse_all memory) ≡ leaves_in memory
    → count_all (collapse_all children) ≡ leaves_in children
    → count_all (collapse_all io) ≡ leaves_in io
    → count_all (collapse_all misc) ≡ leaves_in misc
    → count (
        document obj (
          join
            (collapse_all memory)
            (join (collapse_all children) (join (collapse_all io) (collapse_all misc)))))
      ≡ leaves (tree obj memory children io misc)
unfolding count leaves
count-document obj memory children io misc a b c d =
    let all = count-join_all memory children io misc in
    elim (Bool-cases (is_leaf memory children io misc)) [
      | inl e ↦ rw (join_all-none memory children io misc e, e) refl
      | inr e ↦
          let (x, xs, m) = join_all-more memory children io misc e in
          let sum : count_all (more x xs) ≡ _ = rw m at all in
          rw (m, e) (omega (arith, sum, a, b, c, d))
    ]

left_out-leaves :
    (obj : Object) (memory children io misc : Trees)
    → is_left_out obj memory children io misc ≡ true
    → (arity children ≡ 1) × (leaves (tree obj memory children io misc) ≡ leaves_in children)
unfolding leaves
left_out-leaves obj memory children io misc e =
    ground (arith, e, arity-nil memory, arity-nil io, arity-nil misc)

mutual
  unfolding collapse count leaves arity

  count-collapse : (t : Tree) → count (collapse t) ≡ leaves t
  count-collapse (tree obj memory children io misc) =
      elim (Bool-cases (is_left_out obj memory children io misc)) [
        | inl e ↦
            let (one, same) = left_out-leaves obj memory children io misc e in
            rw e (count-collapse_first obj children one ∙ sym same)
        | inr e ↦ rw e (
            count-document obj memory children io misc (count-collapse_all memory)
              (count-collapse_all children) (count-collapse_all io) (count-collapse_all misc))
      ]

  count-collapse_first :
      (obj : Object) (ts : Trees) → arity ts ≡ 1 → count (collapse_first obj ts) ≡ leaves_in ts
  count-collapse_first obj nil e = ground arith
  count-collapse_first obj (cons t nil) e = ground (arith, count-collapse t)
  count-collapse_first obj (cons t (cons u ts)) e = ground arith

  count-collapse_all : (ts : Trees) → count_all (collapse_all ts) ≡ leaves_in ts
  count-collapse_all nil = refl
  count-collapse_all (cons t ts) = ground (arith, count-collapse t, count-collapse_all ts)

module _ (fl : Floats) (lib : Library) where
  -- An object with children, as the loops have written it before the last comma is replaced.
  closed_list :
      (obj : Object) (d : Document) (ds : Documents) (depth size : ℕ)
      → size ≡ (count d + count_all ds) % 2 ^ 32
      → close_list (
            head_text fl lib obj depth
            ++ (codes "\"children\":[" ++ behind fl lib (more d ds) (depth + 1)))
          ++ size_text size
        ≡ print fl lib (document obj (more d ds)) depth
  unfolding print behind
  closed_list obj d ds depth size e =
      let s =
        head_text fl lib obj depth
        ++ (codes "\"children\":["
            ++ (print fl lib d (depth + 1) ++ print_rest fl lib ds (depth + 1))) in
      ap (λ r. close_list r ++ size_text size)
        (simp (comma_behind fl lib ds (depth + 1), append_assoc))
      ∙ ap (λ r. r ++ size_text size) (close_list_comma s)
      ∙ rw e (simp append_assoc)

  behind-join_all :
      (memory children io misc : Trees) (depth : ℕ)
      → behind fl lib
          (join
            (collapse_all memory)
            (join (collapse_all children) (join (collapse_all io) (collapse_all misc))))
          depth
        ≡ behind fl lib (collapse_all memory) depth
          ++ (behind fl lib (collapse_all children) depth
              ++ (behind fl lib (collapse_all io) depth ++ behind fl lib (collapse_all misc) depth))
  behind-join_all memory children io misc depth =
      rw
        (
          behind-join fl lib (collapse_all memory)
              (join (collapse_all children) (join (collapse_all io) (collapse_all misc))) depth,
          behind-join fl lib (collapse_all children) (join (collapse_all io) (collapse_all misc))
              depth,
          behind-join fl lib (collapse_all io) (collapse_all misc) depth,
        )
        refl

  -- The texts and the sizes of the four lists of children, put together as the code does.
  parts-print :
      (obj : Object) (memory children io misc : Trees) (depth m c i s : ℕ)
      → is_leaf memory children io misc ≡ false
      → m ≡ leaves_in memory % 2 ^ 32
      → c ≡ leaves_in children % 2 ^ 32
      → i ≡ leaves_in io % 2 ^ 32
      → s ≡ leaves_in misc % 2 ^ 32
      → close_list (
            head_text fl lib obj depth
            ++ (codes "\"children\":["
                ++ (behind fl lib (collapse_all memory) (depth + 1)
                    ++ (behind fl lib (collapse_all children) (depth + 1)
                        ++ (behind fl lib (collapse_all io) (depth + 1)
                            ++ behind fl lib (collapse_all misc) (depth + 1))))))
          ++ size_text ((m + c + i + s) % 2 ^ 32)
        ≡ print fl lib
            (document obj (
              join
                (collapse_all memory)
                (join (collapse_all children) (join (collapse_all io) (collapse_all misc)))))
            depth
  unfolding count
  parts-print obj memory children io misc depth m c i s e em ec ei es =
      let all = count-join_all memory children io misc in
      let (x, xs, j) = join_all-more memory children io misc e in
      let sum : count_all (more x xs) ≡ _ = rw j at all in
      let text = behind-join_all memory children io misc (depth + 1) in
      rw (sym text, j)
        (closed_list obj x xs depth _ (
          omega (
            arith,
            sum,
            em,
            ec,
            ei,
            es,
            count-collapse_all memory,
            count-collapse_all children,
            count-collapse_all io,
            count-collapse_all misc,
          )))

  mutual
    unfolding build_json collapse arity print behind

    json-print :
        (t : Tree) (depth : ℕ) → (build_json fl lib t depth).0 ≡ print fl lib (collapse t) depth
    json-print (tree obj memory children io misc) depth =
        elim (Bool-cases (is_left_out obj memory children io misc)) [
          | inl e ↦
              rw e
                (first-print obj children depth (left_out-leaves obj memory children io misc e).0)
          | inr e ↦ elim (Bool-cases (is_leaf memory children io misc)) [
            | inl f ↦ rw (e, f, join_all-none memory children io misc f) refl
            | inr f ↦
                rw
                  (
                    e,
                    f,
                    list-behind memory (depth + 1),
                    list-behind children (depth + 1),
                    list-behind io (depth + 1),
                    list-behind misc (depth + 1),
                  )
                  (parts-print obj memory children io misc depth _ _ _ _ f
                    (size_list-leaves fl lib memory (depth + 1))
                    (size_list-leaves fl lib children (depth + 1))
                    (size_list-leaves fl lib io (depth + 1))
                    (size_list-leaves fl lib misc (depth + 1)))
          ]
        ]

    first-print :
        (obj : Object) (ts : Trees) (depth : ℕ)
        → arity ts ≡ 1
        → (build_first fl lib ts depth).0 ≡ print fl lib (collapse_first obj ts) depth
    first-print obj nil depth e = ground arith
    first-print obj (cons t ts) depth e = json-print t depth

    list-behind :
        (ts : Trees) (depth : ℕ)
        → (build_list fl lib ts depth).0 ≡ behind fl lib (collapse_all ts) depth
    list-behind nil depth = refl
    list-behind (cons t ts) depth =
        ap₂ (λ a b. a ++ b',' ∷ b) (json-print t depth) (list-behind ts depth)

  -- The text of `buildJSON` is that of a printer for the tree in which each cache that is not shared
  -- is replaced by its child and the children of all sorts stand in one list: a comma between two
  -- children and none behind the last, the bracket closed, and as size the number of leaves below,
  -- modulo 2 ^ 32.
  pub build_json-print :
      (t : Tree) (depth : ℕ) → (build_json fl lib t depth).0 ≡ print fl lib (collapse t) depth
  build_json-print t depth = json-print t depth
