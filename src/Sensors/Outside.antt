-- ===== src/Sensors/Outside.antt =====
-- Which features `read_sensors` can name.
use zerosum.Base.{
  ℕ, ◌≡◌, refl, ◌⊎◌, inl, inr, arith, Bool, true, false, ◌||◌, ◌&&◌, List, [], ◌∷◌, ◌++◌, none,
  get_elem?, get_elem?-some, length, ◌≤◌, zero, suc, leb, Bool-cases,
}
use zerosum.Floats.{Floats}
use zerosum.Sensors.{
  feature_name, feature_units, Subfeature, Feature, Chip, reading_name, is_input, insert_value,
  read_subfeatures, read_features, read_chips, read_sensors,
}
use zerosum.Text.{Text, codes, Result, ok, err, ◌>>=◌, undefined}
use zerosum.Utils.Running.{Fields}

get_elem?-none {ℓ} : {A : Type ℓ} (xs : List A) (i : ℕ) → length xs ≤ i → get_elem? xs i ≡ none
get_elem?-none [] i h = refl
get_elem?-none (x ∷ xs) zero h = absurd (omega arith)
get_elem?-none (x ∷ xs) (suc i) h = get_elem?-none xs i (omega arith)

-- A search behind the end of the tables, or a map.
abbrev Outcome {ℓ} : {A : Type ℓ} → Bool → Result A → Type ℓ
Outcome {A} true r = r ≡ err undefined
Outcome {A} false r = (a : A) × (r ≡ ok a)

absorbed {ℓ} :
    {A : Type ℓ} (a b : Bool) (r : Result A) → Outcome (a || (a && b)) r → Outcome (a && true) r
absorbed true b r h = h
absorbed false b r h = h

bind-Outcome {ℓ κ} :
    {A : Type ℓ} {B : Type κ} (a b : Bool) (r : Result A) (k : A → Result B)
    → Outcome a r
    → ((x : A) → Outcome b (k x))
    → Outcome (a || b) (r >>= k)
bind-Outcome true b r k h g = rw h refl
bind-Outcome false true r k (x, h) g = rw h (g x)
bind-Outcome false false r k (x, h) g = rw h (g x)

module _ (fl : Floats) where
  -- A feature that the tables have no name for has a subfeature with its input.
  abbrev pub any_input : Feature fl → List (Subfeature fl) → Bool
  any_input f [] = false
  any_input f (s ∷ subfeatures) = is_input fl f s || any_input f subfeatures

  abbrev pub is_outside : List (Feature fl) → Bool
  is_outside [] = false
  is_outside (f ∷ features) = (leb 20 f.type && any_input f f.subfeatures) || is_outside features

  abbrev pub any_outside : List (Chip fl) → Bool
  any_outside [] = false
  any_outside (c ∷ chips) = is_outside c.features || any_outside chips

  reading_name-Outcome :
      (chip : Text) (f : Feature fl) → Outcome (leb 20 f.type) (reading_name fl chip f)
  unfolding reading_name
  reading_name-Outcome chip f = elim (Bool-cases (leb 20 f.type)) [
    | inl e ↦ rw e (rw (get_elem?-none feature_name f.type (ground (arith, e))) refl)
    | inr e ↦
        let (name, n) = get_elem?-some feature_name f.type (ground (arith, e)) in
        let (units, u) = get_elem?-some feature_units f.type (ground (arith, e)) in
        rw e (
          name ++ codes ": " ++ chip ++ codes ", " ++ f.label ++ codes " (" ++ units ++ codes ")",
          rw (n, u) refl,
        )
  ]

  read_subfeatures-Outcome :
      (chip : Text) (f : Feature fl) (subfeatures : List (Subfeature fl)) (fields : Fields)
      → Outcome
          (leb 20 f.type && any_input f subfeatures)
          (read_subfeatures fl chip f subfeatures fields)
  unfolding read_subfeatures
  read_subfeatures-Outcome chip f [] fields = elim (Bool-cases (leb 20 f.type)) [
    | inl e ↦ rw e (fields, refl)
    | inr e ↦ rw e (fields, refl)
  ]
  read_subfeatures-Outcome chip f (s ∷ subfeatures) fields =
      let o = leb 20 f.type in
      elim (Bool-cases (is_input fl f s)) [
        | inl e ↦ rw e (
            absorbed o (any_input f subfeatures) _ (
              bind-Outcome o (o && any_input f subfeatures) (reading_name fl chip f) _
                (reading_name-Outcome chip f)
                (λ name.
                  read_subfeatures-Outcome chip f subfeatures (insert_value fl name s fields))))
        | inr e ↦ rw e (read_subfeatures-Outcome chip f subfeatures fields)
      ]

  read_features-Outcome :
      (chip : Text) (features : List (Feature fl)) (fields : Fields)
      → Outcome (is_outside features) (read_features fl chip features fields)
  unfolding read_features
  read_features-Outcome chip [] fields = (fields, refl)
  read_features-Outcome chip (f ∷ features) fields =
      bind-Outcome _ _ (read_subfeatures fl chip f f.subfeatures fields) _
        (read_subfeatures-Outcome chip f f.subfeatures fields) (read_features-Outcome chip features)

  read_chips-Outcome :
      (chips : List (Chip fl)) (fields : Fields)
      → Outcome (any_outside chips) (read_chips fl chips fields)
  unfolding read_chips
  read_chips-Outcome [] fields = (fields, refl)
  read_chips-Outcome (c ∷ chips) fields =
      bind-Outcome _ _ (read_features fl c.name c.features fields) _
        (read_features-Outcome c.name c.features fields) (read_chips-Outcome chips)

  -- `read_sensors` gives a map whenever no feature with an input has a type from 20 on, and searches behind
  -- the end of its tables whenever one has, wherever it stands and whether or not its value is read.
  pub read_sensors_lem :
      (chips : List (Chip fl))
      → ((any_outside chips ≡ false) × ((fields : Fields) × (read_sensors fl chips ≡ ok fields)))
        ⊎ ((any_outside chips ≡ true) × (read_sensors fl chips ≡ err undefined))
  unfolding read_sensors
  read_sensors_lem chips = elim (Bool-cases (any_outside chips)) [
    | inl e ↦ inr (e, rw e at (read_chips-Outcome chips []))
    | inr e ↦ inl (e, rw e at (read_chips-Outcome chips []))
  ]
