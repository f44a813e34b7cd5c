-- ===== src/Backend/Activity.antt =====
-- src/sycl.cpp: what the static `activityMap` keeps from one period to the next.
use zerosum.Base.{◌≡◌, refl, List, [], ◌∷◌, none, some, Bool-cases, Option-cases, inl, inr, arith}
use zerosum.Backend.Sycl.{
  Activity, Engine, EngineGroup, Status, Activities, is_reported, engine_key, ratio_text,
  engine_value, engine_pairs, status_fields,
}
use zerosum.Floats.{Floats}
use zerosum.StdMap.{text_ord, find, insert, find-insert}
use zerosum.Text.{Text, compare_text_refl}

insert_keeps :
    (k key : Text) (seen : Activities) (a b : Activity)
    → find k seen ≡ some a
    → find k (insert key b seen) ≡ some a
insert_keeps k key seen a b h = ground (arith, h, find-insert key k b seen)

insert_first :
    (key : Text) (seen : Activities) (b : Activity)
    → find key seen ≡ none
    → find key (insert key b seen) ≡ some b
insert_first key seen b h = ground (arith, h, find-insert key key b seen, compare_text_refl key)

module _ (fl : Floats) (group_name : EngineGroup → Text) where
  engine_value_kept :
      (e : Engine) (seen : Activities) (k : Text) (a : Activity)
      → find k seen ≡ some a
      → find k (engine_value fl group_name e seen).1 ≡ some a
  unfolding engine_value
  engine_value_kept e seen k a h = elim (Option-cases (find (engine_key fl group_name e) seen)) [
    | inl n ↦ rw (n, engine_value) (insert_keeps k (engine_key fl group_name e) seen a e.activity h)
    | inr (b, s) ↦ rw (s, engine_value) h
  ]

  engine_pairs_kept :
      (engines : List Engine) (seen : Activities) (k : Text) (a : Activity)
      → find k seen ≡ some a
      → find k (engine_pairs fl group_name engines seen).1 ≡ some a
  unfolding engine_pairs
  engine_pairs_kept [] seen k a h = h
  engine_pairs_kept (e ∷ engines) seen k a h =
      let v = engine_value_kept e seen k a h in
      elim (Bool-cases (is_reported e.group)) [
        | inl n ↦ rw n (engine_pairs_kept engines (engine_value fl group_name e seen).1 k a v)
        | inr n ↦ rw n (engine_pairs_kept engines seen k a h)
      ]

  status_fields_kept :
      (devices : List Status) (seen : Activities) (k : Text) (a : Activity)
      → find k seen ≡ some a
      → find k (status_fields fl group_name devices seen).1 ≡ some a
  unfolding status_fields
  status_fields_kept [] seen k a h = h
  status_fields_kept (s ∷ devices) seen k a h =
      status_fields_kept devices (engine_pairs fl group_name s.engines seen).1 k a
        (engine_pairs_kept s.engines seen k a h)

  -- The static map after some periods.
  abbrev pub after : List (List Status) → Activities → Activities
  after [] seen = seen
  after (devices ∷ periods) seen = after periods (status_fields fl group_name devices seen).1

  after_kept :
      (periods : List (List Status)) (seen : Activities) (k : Text) (a : Activity)
      → find k seen ≡ some a
      → find k (after periods seen) ≡ some a
  after_kept [] seen k a h = h
  after_kept (devices ∷ periods) seen k a h =
      after_kept periods (status_fields fl group_name devices seen).1 k a
        (status_fields_kept devices seen k a h)

  -- The first reading for a key is reported as 0 and stays: however many periods follow, and whatever
  -- they read, each later value of an engine with that key, on whichever device, is the share of the
  -- time since that first reading.
  pub engine_value_since_first :
      (first e : Engine) (seen : Activities) (periods : List (List Status))
      → find (engine_key fl group_name first) seen ≡ none
      → engine_key fl group_name e ≡ engine_key fl group_name first
      → ((engine_value fl group_name first seen).0 ≡ fl.print (fl.of_ℕ 0))
        × ((engine_value fl group_name e
              (after periods (engine_value fl group_name first seen).1)).0
            ≡ ratio_text fl group_name first.activity e.activity)
  unfolding engine_value
  engine_value_since_first first e seen periods h k =
      let kept =
        after_kept periods (engine_value fl group_name first seen).1
          (engine_key fl group_name first) first.activity
          (rw (h, engine_value)
            (insert_first (engine_key fl group_name first) seen first.activity h)) in
      (rw (h, engine_value) refl, rw (k, engine_value) (rw (kept, engine_value) refl))
