-- ===== src/Merge/Lines.antt =====
-- The lines that a process writes about its traffic.
use zerosum.Base.{
  ℕ, ◌≡◌, ◌≢◌, refl, ap, ◌∙◌, true, false, List, [], ◌∷◌, ◌++◌, arith, All, All-append,
}
use zerosum.StdMap.{int_ord}
use zerosum.Text.{
  Text, codes, contains, starts_with, is_digit, IsDigits, words, IsWord, words-space, words-last,
  is_word-IsWord, lacks-Lacks, to_string, to_string-IsDigits, to_string-IsWord, Lacks,
  Lacks-IsDigits,
}
use zerosum.Utils.Files.Words.{spaced}

-- The words of a line, where the first and the fourth tell the direction.
abbrev pub line_words : Text → Text → ℕ → ℕ → ℕ → List Text
line_words direction side bytes rank calls =
    direction
    ∷ to_string bytes
    ∷ codes "bytes"
    ∷ side
    ∷ codes "rank"
    ∷ to_string rank
    ∷ codes "in"
    ∷ to_string calls
    ∷ []

pub words-spaced :
    (ws : List Text) (last : Text)
    → All IsWord ws
    → IsWord last
    → words (spaced ws last) ≡ ws ++ last ∷ []
words-spaced [] last h k = words-last last k
words-spaced (w ∷ ws) last h k =
    words-space w (spaced ws last) h.0 ∙ ap (λ rest. w ∷ rest) (words-spaced ws last h.1 k)

abbrev pub line_of : Text → Text → ℕ → ℕ → ℕ → Text
line_of direction side bytes rank calls =
    spaced (line_words direction side bytes rank calls) (codes "calls")

pub line_of-words :
    (direction side : Text) (bytes rank calls : ℕ)
    → IsWord direction
    → IsWord side
    → words (line_of direction side bytes rank calls)
      ≡ line_words direction side bytes rank calls ++ codes "calls" ∷ []
line_of-words direction side bytes rank calls d s =
    words-spaced (line_words direction side bytes rank calls) (codes "calls")
      (
        d,
        (
          to_string-IsWord bytes,
          (
            is_word-IsWord (codes "bytes") refl,
            (
              s,
              (
                is_word-IsWord (codes "rank") refl,
                (
                  to_string-IsWord rank,
                  (is_word-IsWord (codes "in") refl, (to_string-IsWord calls, tt)),
                ),
              ),
            ),
          ),
        ),
      )
      (is_word-IsWord (codes "calls") refl)

pub spaced-Lacks :
    (ws : List Text) (last : Text)
    → All (Lacks b'\n') ws
    → Lacks b'\n' last
    → Lacks b'\n' (spaced ws last)
spaced-Lacks [] last h k = k
spaced-Lacks (w ∷ ws) last h k =
    All-append (λ x. x ≢ b'\n') w (b' ' ∷ spaced ws last) h.0
      (omega arith, spaced-Lacks ws last h.1 k)

pub number-Lacks : (n : ℕ) → Lacks b'\n' (to_string n)
number-Lacks n = Lacks-IsDigits b'\n' (to_string n) refl (to_string-IsDigits n)

pub line_of-Lacks :
    (direction side : Text) (bytes rank calls : ℕ)
    → Lacks b'\n' direction
    → Lacks b'\n' side
    → Lacks b'\n' (line_of direction side bytes rank calls)
line_of-Lacks direction side bytes rank calls d s =
    spaced-Lacks (line_words direction side bytes rank calls) (codes "calls")
      (
        d,
        (
          number-Lacks bytes,
          (
            lacks-Lacks b'\n' (codes "bytes") refl,
            (
              s,
              (
                lacks-Lacks b'\n' (codes "rank") refl,
                (
                  number-Lacks rank,
                  (lacks-Lacks b'\n' (codes "in") refl, (number-Lacks calls, tt)),
                ),
              ),
            ),
          ),
        ),
      )
      (lacks-Lacks b'\n' (codes "calls") refl)

-- No number holds the first byte of a word that starts with a letter.
pub contains_digits :
    (c : ℕ) (p s rest : Text)
    → is_digit c ≡ false
    → IsDigits s
    → contains (c ∷ p) (s ++ rest) ≡ contains (c ∷ p) rest
unfolding contains starts_with
contains_digits c p [] rest h d = refl
contains_digits c p (x ∷ s) rest h d = ground (arith, d.0, contains_digits c p s rest h d.1)

pub contains_number :
    (c : ℕ) (p : Text) (n : ℕ) (rest : Text)
    → is_digit c ≡ false
    → contains (c ∷ p) (to_string n ++ rest) ≡ contains (c ∷ p) rest
contains_number c p n rest h = contains_digits c p (to_string n) rest h (to_string-IsDigits n)

pub sent_only :
    (bytes rank calls : ℕ)
    → (contains (codes "Sent ") (line_of (codes "Sent") (codes "to") bytes rank calls) ≡ true)
      × (contains (codes "Received ") (line_of (codes "Sent") (codes "to") bytes rank calls)
          ≡ false)
unfolding contains starts_with
sent_only bytes rank calls = (
  refl,
  contains_number b'R' (codes "eceived ") bytes _ refl
      ∙ contains_number b'R' (codes "eceived ") rank _ refl
      ∙ contains_number b'R' (codes "eceived ") calls _ refl,
)

pub received_only :
    (bytes rank calls : ℕ)
    → (contains (codes "Sent ") (line_of (codes "Received") (codes "from") bytes rank calls)
        ≡ false)
      × (contains (codes "Received ") (line_of (codes "Received") (codes "from") bytes rank calls)
          ≡ true)
unfolding contains starts_with
received_only bytes rank calls = (
  contains_number b'S' (codes "ent ") bytes _ refl
      ∙ contains_number b'S' (codes "ent ") rank _ refl
      ∙ contains_number b'S' (codes "ent ") calls _ refl,
  refl,
)
