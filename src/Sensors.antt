-- ===== src/Sensors.antt =====
-- src/lm_sensor_data.cpp, `sensor_data::read_sensors`. The chips with what libsensors says of them are
-- records; a chip whose name it cannot print is not modelled.
pub mod Outside
use zerosum.Base.{
  ℕ, ◌+◌, ◌*◌, ◌^◌, Bool, true, false, List, [], ◌∷◌, ◌++◌, Option, none, some, get_elem?, ◌==◌,
  if◌then◌else◌,
}
use zerosum.Floats.{Floats}
use zerosum.StdMap.{text_ord, insert}
use zerosum.Text.{Text, codes, Result, ok, err, ◌>>=◌, undefined}
use zerosum.Utils.Running.{Fields}

abbrev pub feature_name : List Text
feature_name =
    codes "In"
    ∷ codes "Fan"
    ∷ codes "Temp"
    ∷ codes "Power"
    ∷ codes "Joules"
    ∷ codes "Amps"
    ∷ codes "Relative Humidity"
    ∷ codes "Max Main"
    ∷ []
    ∷ []
    ∷ codes "Vid"
    ∷ codes "Intrusion"
    ∷ codes "Other"
    ∷ []
    ∷ []
    ∷ []
    ∷ []
    ∷ []
    ∷ codes "Beep Enable"
    ∷ []
    ∷ []

abbrev pub feature_units : List Text
feature_units =
    []
    ∷ codes "RPM"
    ∷ codes "degrees C"
    ∷ codes "W"
    ∷ codes "J"
    ∷ codes "AMP"
    ∷ codes "%RH"
    ∷ []
    ∷ []
    ∷ []
    ∷ []
    ∷ []
    ∷ []
    ∷ []
    ∷ []
    ∷ []
    ∷ []
    ∷ []
    ∷ []
    ∷ []
    ∷ []

module _ (fl : Floats) where
  -- `sensors_subfeature`, with the value if reading it succeeds.
  pub record Subfeature : Type 0 where
    pub type : ℕ
    pub readable : Bool
    pub value : Option fl.Double

  pub record Feature : Type 0 where
    pub type : ℕ
    pub label : Text
    pub subfeatures : List Subfeature

  pub record Chip : Type 0 where
    pub name : Text
    pub features : List Feature

  -- The tables are undefined behind their ends.
  unfoldable pub reading_name : Text → Feature → Result Text
  reading_name chip f = elim (get_elem? feature_name f.type) [
    | none ↦ err undefined
    | some name ↦ elim (get_elem? feature_units f.type) [
      | none ↦ err undefined
      | some units ↦
          ok (
            name ++ codes ": " ++ chip ++ codes ", " ++ f.label ++ codes " (" ++ units ++ codes ")")
    ]
  ]

  abbrev pub is_input : Feature → Subfeature → Bool
  is_input f s = s.type == f.type * 2 ^ 8

  abbrev pub insert_value : Text → Subfeature → Fields → Fields
  insert_value name s fields =
      if s.readable
      then elim s.value [ none ↦ fields | some x ↦ insert name (fl.print x) fields ]
      else fields

  unfoldable pub read_subfeatures : Text → Feature → List Subfeature → Fields → Result Fields
  unfolding reading_name
  read_subfeatures chip f [] fields = ok fields
  read_subfeatures chip f (s ∷ subfeatures) fields =
      if is_input f s
      then (do
        name ← reading_name chip f
        read_subfeatures chip f subfeatures (insert_value name s fields))
      else read_subfeatures chip f subfeatures fields

  unfoldable pub read_features : Text → List Feature → Fields → Result Fields
  unfolding read_subfeatures
  read_features chip [] fields = ok fields
  read_features chip (f ∷ features) fields = do
    fields' ← read_subfeatures chip f f.subfeatures fields
    read_features chip features fields'

  unfoldable pub read_chips : List Chip → Fields → Result Fields
  unfolding read_features
  read_chips [] fields = ok fields
  read_chips (c ∷ chips) fields = do
    fields' ← read_features c.name c.features fields
    read_chips chips fields'

  unfoldable pub read_sensors : List Chip → Result Fields
  unfolding read_chips
  read_sensors chips = read_chips chips []
