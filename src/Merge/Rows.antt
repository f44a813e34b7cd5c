-- ===== src/Merge/Rows.antt =====
-- What a process writes about its traffic into its log is what the program reads.
use zerosum.Base.{
  ℕ, ◌^◌, ◌≤◌, ◌<◌, ◌≡◌, refl, ap, ◌∙◌, true, List, [], ◌∷◌, ◌++◌, some, arith, length, get_elem?,
  inl, inr,
}
use zerosum.Base.Int.{pos, negsuc, to_u64}
use zerosum.Merge.{
  Matrix, set_at, Merged, merge_words, merge_sent, merge_received, merge_line, merge_lines,
}
use zerosum.Software.Process.{Process, Calls}
use zerosum.Software.Process.Report.{traffic}
use zerosum.StdMap.{int_ord, IsMap}
use zerosum.Text.{
  Text, codes, contains, starts_with, is_word-IsWord, getline_items, stol-to_string, ok,
  Result-cases,
}
use zerosum.Merge.Cells.{
  length-set_at, store-row, AreEntries, fill, calls_part, bytes_part, cell, cell_after, cell-fill,
}
use zerosum.Merge.Lines.{line_words, line_of, line_of-words, sent_only, received_only}
use zerosum.Merge.Sections.{entry_lines, heading, getline_items-traffic}

-- The words behind the first two of the matrices' rows of a rank, as the program stores them.
merge_words-row :
    (direction side : Text) (bytes rank calls row : ℕ) (cs bs : Matrix) (c b : List ℕ)
    → bytes < 2 ^ 63
    → calls < 2 ^ 63
    → rank < 2 ^ 63
    → get_elem? cs row ≡ some c
    → get_elem? bs row ≡ some b
    → rank < length c
    → rank < length b
    → (cs' bs' : Matrix) × (merge_words row
          (line_words direction side bytes rank calls ++ codes "calls" ∷ [])
          cs
          bs
        ≡ ok (cs', bs'))
      × (get_elem? cs' row ≡ some (set_at rank calls c))
      × (get_elem? bs' row ≡ some (set_at rank bytes b))
unfolding merge_words to_u64
merge_words-row direction side bytes rank calls row cs bs c b hb hc hr ec eb lc lb =
    let (cs', e1, f1) = store-row cs row rank calls c ec lc in
    let (bs', e2, f2) = store-row bs row rank bytes b eb lb in
    (
      cs',
      bs',
      ground
          (arith, stol-to_string calls hc, stol-to_string bytes hb, stol-to_string rank hr, e1, e2),
      f1,
      f2,
    )

-- The rows of one rank in the four matrices.
pub record RowsAre (row : ℕ) (sc sb rc rb : List ℕ) (s : Merged) : Type 0 where
  pub is_sent_count : get_elem? s.sent_count row ≡ some sc
  pub is_sent_bytes : get_elem? s.sent_bytes row ≡ some sb
  pub is_recv_count : get_elem? s.recv_count row ≡ some rc
  pub is_recv_bytes : get_elem? s.recv_bytes row ≡ some rb

merge_line-sent :
    (bytes rank calls row : ℕ) (sc sb rc rb : List ℕ) (s : Merged)
    → bytes < 2 ^ 63
    → calls < 2 ^ 63
    → rank < 2 ^ 63
    → rank < length sc
    → rank < length sb
    → RowsAre row sc sb rc rb s
    → (s' : Merged) × (merge_line row (line_of (codes "Sent") (codes "to") bytes rank calls) s
        ≡ ok s')
      × RowsAre row (set_at rank calls sc) (set_at rank bytes sb) rc rb s'
unfolding merge_line merge_sent merge_received
merge_line-sent bytes rank calls row sc sb rc rb s hb hc hr lc lb h =
    let (cs, bs, e, f, g) =
      merge_words-row (codes "Sent") (codes "to") bytes rank calls row s.sent_count s.sent_bytes sc
        sb hb hc hr h.is_sent_count h.is_sent_bytes lc lb in
    let w =
      line_of-words (codes "Sent") (codes "to") bytes rank calls
        (is_word-IsWord (codes "Sent") refl) (is_word-IsWord (codes "to") refl) in
    let (found, other) = sent_only bytes rank calls in
    (
      record s { sent_count = cs; sent_bytes = bs },
      ground (arith, found, other, w, e),
      record {
        is_sent_count = f;
        is_sent_bytes = g;
        is_recv_count = h.is_recv_count;
        is_recv_bytes = h.is_recv_bytes;
      },
    )

merge_line-received :
    (bytes rank calls row : ℕ) (sc sb rc rb : List ℕ) (s : Merged)
    → bytes < 2 ^ 63
    → calls < 2 ^ 63
    → rank < 2 ^ 63
    → rank < length rc
    → rank < length rb
    → RowsAre row sc sb rc rb s
    → (s' : Merged) × (merge_line row (line_of (codes "Received") (codes "from") bytes rank calls) s
        ≡ ok s')
      × RowsAre row sc sb (set_at rank calls rc) (set_at rank bytes rb) s'
unfolding merge_line merge_sent merge_received
merge_line-received bytes rank calls row sc sb rc rb s hb hc hr lc lb h =
    let (cs, bs, e, f, g) =
      merge_words-row (codes "Received") (codes "from") bytes rank calls row s.recv_count
        s.recv_bytes rc rb hb hc hr h.is_recv_count h.is_recv_bytes lc lb in
    let w =
      line_of-words (codes "Received") (codes "from") bytes rank calls
        (is_word-IsWord (codes "Received") refl) (is_word-IsWord (codes "from") refl) in
    let (other, found) = received_only bytes rank calls in
    (
      record s { recv_count = cs; recv_bytes = bs },
      ground (arith, found, other, w, e),
      record {
        is_sent_count = h.is_sent_count;
        is_sent_bytes = h.is_sent_bytes;
        is_recv_count = f;
        is_recv_bytes = g;
      },
    )

merge_lines-sent :
    (n : ℕ) (m : Calls) (row : ℕ) (sc sb rc rb : List ℕ) (s : Merged)
    → AreEntries n m
    → n ≤ 2 ^ 32
    → length sc ≡ n
    → length sb ≡ n
    → RowsAre row sc sb rc rb s
    → (s' : Merged) × (merge_lines row (entry_lines (codes "Sent") (codes "to") m) s ≡ ok s')
      × RowsAre row (fill calls_part m sc) (fill bytes_part m sb) rc rb s'
unfolding merge_lines fill
merge_lines-sent n [] row sc sb rc rb s a k lc lb h = (s, refl, h)
merge_lines-sent n ((negsuc r, e) ∷ m) row sc sb rc rb s a k lc lb h = ground arith
merge_lines-sent n ((pos r, (calls, bytes)) ∷ m) row sc sb rc rb s (hr, hc, hb, a) k lc lb h =
    let (s1, e1, h1) =
      merge_line-sent bytes r calls row sc sb rc rb s hb hc (omega arith) (omega arith)
        (omega arith) h in
    let (s2, e2, h2) =
      merge_lines-sent n m row (set_at r calls sc) (set_at r bytes sb) rc rb s1 a k
        (length-set_at r calls sc ∙ lc) (length-set_at r bytes sb ∙ lb) h1 in
    (s2, ground (arith, e1, e2), h2)

merge_lines-received :
    (n : ℕ) (m : Calls) (row : ℕ) (sc sb rc rb : List ℕ) (s : Merged)
    → AreEntries n m
    → n ≤ 2 ^ 32
    → length rc ≡ n
    → length rb ≡ n
    → RowsAre row sc sb rc rb s
    → (s' : Merged) × (merge_lines row (entry_lines (codes "Received") (codes "from") m) s ≡ ok s')
      × RowsAre row sc sb (fill calls_part m rc) (fill bytes_part m rb) s'
unfolding merge_lines fill
merge_lines-received n [] row sc sb rc rb s a k lc lb h = (s, refl, h)
merge_lines-received n ((negsuc r, e) ∷ m) row sc sb rc rb s a k lc lb h = ground arith
merge_lines-received n ((pos r, (calls, bytes)) ∷ m) row sc sb rc rb s (hr, hc, hb, a) k lc lb h =
    let (s1, e1, h1) =
      merge_line-received bytes r calls row sc sb rc rb s hb hc (omega arith) (omega arith)
        (omega arith) h in
    let (s2, e2, h2) =
      merge_lines-received n m row sc sb (set_at r calls rc) (set_at r bytes rb) s1 a k
        (length-set_at r calls rc ∙ lc) (length-set_at r bytes rb ∙ lb) h1 in
    (s2, ground (arith, e1, e2), h2)

merge_lines-append :
    (row : ℕ) (xs ys : List Text) (s t u : Merged)
    → merge_lines row xs s ≡ ok t
    → merge_lines row ys t ≡ ok u
    → merge_lines row (xs ++ ys) s ≡ ok u
unfolding merge_lines
merge_lines-append row [] ys s t u e f = ground arith
merge_lines-append row (x ∷ xs) ys s t u e f = elim (Result-cases (merge_line row x s)) [
  | inl (v, h) ↦ ground (arith, h, e, merge_lines-append row xs ys v t u)
  | inr (v, h) ↦ ground (arith, h, e)
]

merge_lines-heading : (row : ℕ) (s : Merged) → merge_lines row heading s ≡ ok s
unfolding merge_lines merge_line merge_sent merge_received contains starts_with
merge_lines-heading row s = refl

-- The section about the traffic in the log of a process, whose ranks are below the number of ranks
-- and whose counts and sizes are below 2 ^ 63: the program reads it without an exception, and the
-- cell for each rank in the row of the process, in all four matrices, has what the process recorded
-- for that rank, or what it had where the process recorded nothing.
pub merge_lines-traffic :
    (n row d : ℕ) (p : Process) (s : Merged) (sc sb rc rb : List ℕ)
    → n ≤ 2 ^ 32
    → AreEntries n p.sent_bytes
    → AreEntries n p.recv_bytes
    → IsMap p.sent_bytes
    → IsMap p.recv_bytes
    → RowsAre row sc sb rc rb s
    → length sc ≡ n
    → length sb ≡ n
    → length rc ≡ n
    → length rb ≡ n
    → (s' : Merged) × (merge_lines row (getline_items b'\n' (traffic true p)) s ≡ ok s')
      × (cell s'.sent_count row d ≡ cell_after calls_part p.sent_bytes d (cell s.sent_count row d))
      × (cell s'.sent_bytes row d ≡ cell_after bytes_part p.sent_bytes d (cell s.sent_bytes row d))
      × (cell s'.recv_count row d ≡ cell_after calls_part p.recv_bytes d (cell s.recv_count row d))
      × (cell s'.recv_bytes row d ≡ cell_after bytes_part p.recv_bytes d (cell s.recv_bytes row d))
merge_lines-traffic n row d p s sc sb rc rb k a b ma mb h l1 l2 l3 l4 =
    let (s1, e1, h1) = merge_lines-sent n p.sent_bytes row sc sb rc rb s a k l1 l2 h in
    let (s2, e2, h2) =
      merge_lines-received n p.recv_bytes row (fill calls_part p.sent_bytes sc)
        (fill bytes_part p.sent_bytes sb) rc rb s1 b k l3 l4 h1 in
    (
      s2,
      ap (λ ls. merge_lines row ls s) (getline_items-traffic n p a b)
          ∙ merge_lines-append row heading _ s s s2 (merge_lines-heading row s)
              (merge_lines-append row _ _ s s1 s2 e1 e2),
      cell-fill calls_part n p.sent_bytes row d s.sent_count s2.sent_count sc a ma l1
          h.is_sent_count h2.is_sent_count,
      cell-fill bytes_part n p.sent_bytes row d s.sent_bytes s2.sent_bytes sb a ma l2
          h.is_sent_bytes h2.is_sent_bytes,
      cell-fill calls_part n p.recv_bytes row d s.recv_count s2.recv_count rc b mb l3
          h.is_recv_count h2.is_recv_count,
      cell-fill bytes_part n p.recv_bytes row d s.recv_bytes s2.recv_bytes rb b mb l4
          h.is_recv_bytes h2.is_recv_bytes,
    )
