-- ===== src/Stats/Csv.antt =====
-- One row of the CSV output.
use zerosum.Base.{ℕ, [], ◌∷◌, ◌++◌}
use zerosum.Text.{Text, to_string}

-- `"\"" + text + "\""`
abbrev pub quoted : Text → Text
quoted text = b'"' ∷ (text ++ b'"' ∷ [])

pub record Place : Type 0 where
  pub host : Text
  pub rank : ℕ
  pub shmrank : ℕ

-- The columns: hostname, rank, shmrank, step, resource, type, index, name and value.
unfoldable pub csv_row : Place → ℕ → Text → Text → ℕ → Text → Text → Text
csv_row p step resource kind index name value =
    quoted p.host
    ++ (b',' ∷ to_string p.rank)
    ++ (b',' ∷ to_string p.shmrank)
    ++ (b',' ∷ to_string step)
    ++ (b',' ∷ quoted resource)
    ++ (b',' ∷ quoted kind)
    ++ (b',' ∷ quoted (to_string index))
    ++ (b',' ∷ quoted name)
    ++ (b',' ∷ quoted value)
    ++ b'\n' ∷ []
