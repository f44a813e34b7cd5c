-- ===== src/Utils/Files/Words.antt =====
-- A line of words is cut into its words by `getline(ss, item, ' ')`.
use zerosum.Base.{ℕ, ◌≡◌, refl, ap, ◌∙◌, List, [], ◌∷◌, ◌++◌, append_assoc, arith, All}
use zerosum.Text.{Text, Lacks, getline_items}

-- `words` with a space behind each.
abbrev pub spaced : List Text → Text → Text
spaced [] rest = rest
spaced (w ∷ ws) rest = w ++ b' ' ∷ spaced ws rest

pub getline_items_word :
    (d : ℕ) (w rest : Text) → Lacks d w → getline_items d (w ++ d ∷ rest) ≡ w ∷ getline_items d rest
unfolding getline_items
getline_items_word d [] rest h = ground arith
getline_items_word d (c ∷ w) rest h = ground (arith, getline_items_word d w rest h.1)

pub getline_items_whole :
    (d c : ℕ) (w : Text) → Lacks d (c ∷ w) → getline_items d (c ∷ w) ≡ (c ∷ w) ∷ []
unfolding getline_items
getline_items_whole d c [] h = ground (arith, h.0)
getline_items_whole d c (x ∷ w) h = ground (arith, h.0, getline_items_whole d x w h.1)

getline_items_last :
    (w : Text) → Lacks b' ' w → getline_items b' ' (w ++ b'\n' ∷ []) ≡ (w ++ b'\n' ∷ []) ∷ []
unfolding getline_items
getline_items_last [] h = refl
getline_items_last (c ∷ w) h = ground (arith, getline_items_last w h.1)

pub getline_items-spaced :
    (ws : List Text) (last : Text)
    → All (Lacks b' ') ws
    → Lacks b' ' last
    → getline_items b' ' (spaced ws last ++ b'\n' ∷ []) ≡ ws ++ (last ++ b'\n' ∷ []) ∷ []
getline_items-spaced [] last h k = getline_items_last last k
getline_items-spaced (w ∷ ws) last h k =
    rw (append_assoc w (b' ' ∷ spaced ws last))
      (getline_items_word b' ' w _ h.0 ∙ ap (◌∷◌ w) (getline_items-spaced ws last h.1 k))
