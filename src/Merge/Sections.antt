-- ===== src/Merge/Sections.antt =====
-- The section about the traffic in a log, cut into its lines.
use zerosum.Base.{
  ℕ, ◌≡◌, refl, sym, ap, ◌∙◌, true, List, [], ◌∷◌, ◌++◌, append_assoc, append-nil, arith,
}
use zerosum.Base.Int.{pos, negsuc}
use zerosum.Software.Process.{Process, Calls}
use zerosum.Software.Process.Report.{sent_lines, recv_lines, traffic}
use zerosum.StdMap.{int_ord}
use zerosum.Text.{
  Text, codes, lacks-Lacks, to_string, getline_items, Lacks, add_to_first, to_string_ℤ,
}
use zerosum.Utils.Files.Words.{getline_items_word}
use zerosum.Merge.Cells.{AreEntries}
use zerosum.Merge.Lines.{line_of, line_of-Lacks}

abbrev pub entry_lines : Text → Text → Calls → List Text
entry_lines direction side [] = []
entry_lines direction side ((negsuc r, e) ∷ m) = entry_lines direction side m
entry_lines direction side ((pos r, (calls, bytes)) ∷ m) =
    line_of direction side bytes r calls ∷ entry_lines direction side m

pub append_assoc-line :
    (s b p r q c e l rest : Text)
    → (s ++ b ++ p ++ r ++ q ++ c ++ e ++ l) ++ rest
      ≡ s ++ (b ++ (p ++ (r ++ (q ++ (c ++ (e ++ (l ++ rest)))))))
append_assoc-line s b p r q c e l rest = simp append_assoc

pub append_assoc-spaced :
    (b p r q c x y : Text)
    → (b ++ (p ++ (r ++ (q ++ (c ++ x))))) ++ y ≡ b ++ (p ++ (r ++ (q ++ (c ++ (x ++ y)))))
append_assoc-spaced b p r q c x y = simp append_assoc

pub getline_items-line :
    (direction side : Text) (bytes rank calls : ℕ) (rest : Text)
    → Lacks b'\n' direction
    → Lacks b'\n' side
    → getline_items b'\n' (line_of direction side bytes rank calls ++ b'\n' ∷ rest)
      ≡ line_of direction side bytes rank calls ∷ getline_items b'\n' rest
getline_items-line direction side bytes rank calls rest d k =
    getline_items_word b'\n' (line_of direction side bytes rank calls) rest
      (line_of-Lacks direction side bytes rank calls d k)

-- The lines of the section that a process writes about its traffic.
pub getline_items-sent :
    (n : ℕ) (m : Calls) (rest : Text)
    → AreEntries n m
    → getline_items b'\n' (sent_lines m ++ rest)
      ≡ entry_lines (codes "Sent") (codes "to") m ++ getline_items b'\n' rest
unfolding sent_lines to_string_ℤ
getline_items-sent n [] rest a = refl
getline_items-sent n ((negsuc r, e) ∷ m) rest a = ground arith
getline_items-sent n ((pos r, (calls, bytes)) ∷ m) rest a =
    let b = to_string bytes in
    let t = to_string r in
    let c = to_string calls in
    let p = codes " bytes to rank " in
    let q = codes " in " in
    let line = line_of (codes "Sent") (codes "to") bytes r calls in
    let flat : sent_lines ((pos r, (calls, bytes)) ∷ m) ++ rest
        ≡ line ++ b'\n' ∷ (sent_lines m ++ rest) =
      append_assoc-line (codes "Sent ") b p t q c (codes " calls\n") (sent_lines m) rest
      ∙ ap (λ x. codes "Sent " ++ x)
          (sym (append_assoc-spaced b p t q c (codes " calls") (b'\n' ∷ (sent_lines m ++ rest)))) in
    ap (getline_items b'\n') flat
    ∙ getline_items-line (codes "Sent") (codes "to") bytes r calls (sent_lines m ++ rest)
        (lacks-Lacks b'\n' (codes "Sent") refl) (lacks-Lacks b'\n' (codes "to") refl)
    ∙ ap (λ ls. line ∷ ls) (getline_items-sent n m rest a.3)

pub getline_items-received :
    (n : ℕ) (m : Calls) (rest : Text)
    → AreEntries n m
    → getline_items b'\n' (recv_lines m ++ rest)
      ≡ entry_lines (codes "Received") (codes "from") m ++ getline_items b'\n' rest
unfolding recv_lines to_string_ℤ
getline_items-received n [] rest a = refl
getline_items-received n ((negsuc r, e) ∷ m) rest a = ground arith
getline_items-received n ((pos r, (calls, bytes)) ∷ m) rest a =
    let b = to_string bytes in
    let t = to_string r in
    let c = to_string calls in
    let p = codes " bytes from rank " in
    let q = codes " in " in
    let line = line_of (codes "Received") (codes "from") bytes r calls in
    let flat : recv_lines ((pos r, (calls, bytes)) ∷ m) ++ rest
        ≡ line ++ b'\n' ∷ (recv_lines m ++ rest) =
      append_assoc-line (codes "Received ") b p t q c (codes " calls\n") (recv_lines m) rest
      ∙ ap (λ x. codes "Received " ++ x)
          (sym (append_assoc-spaced b p t q c (codes " calls") (b'\n' ∷ (recv_lines m ++ rest)))) in
    ap (getline_items b'\n') flat
    ∙ getline_items-line (codes "Received") (codes "from") bytes r calls (recv_lines m ++ rest)
        (lacks-Lacks b'\n' (codes "Received") refl) (lacks-Lacks b'\n' (codes "from") refl)
    ∙ ap (λ ls. line ∷ ls) (getline_items-received n m rest a.3)

abbrev pub heading : List Text
heading = [] ∷ codes "P2P Communication Summary:" ∷ []

pub getline_items-traffic :
    (n : ℕ) (p : Process)
    → AreEntries n p.sent_bytes
    → AreEntries n p.recv_bytes
    → getline_items b'\n' (traffic true p)
      ≡ heading
        ++ (entry_lines (codes "Sent") (codes "to") p.sent_bytes
            ++ entry_lines (codes "Received") (codes "from") p.recv_bytes)
unfolding traffic getline_items add_to_first
getline_items-traffic n p a b =
    ap (λ ls. heading ++ ls)
      (getline_items-sent n p.sent_bytes (recv_lines p.recv_bytes) a
        ∙ ap (λ ls. entry_lines (codes "Sent") (codes "to") p.sent_bytes ++ ls)
            (ap (getline_items b'\n') (sym (append-nil (recv_lines p.recv_bytes)))
              ∙ getline_items-received n p.recv_bytes [] b
              ∙ append-nil (entry_lines (codes "Received") (codes "from") p.recv_bytes)))
