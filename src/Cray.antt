-- ===== src/Cray.antt =====
-- src/cray_pm_counters.cpp, class `cray_pm_counters`: the power counters of a Cray node. The number
-- of files that are open is part of the state.
pub mod Growth
use zerosum.Base.{
  ℕ, ◌+◌, ◌-◌, ◌%◌, ◌^◌, Bool, true, false, ◌||◌, List, [], ◌∷◌, ◌++◌, Option, none, some, ltb,
  ◌==◌, if◌then◌else◌,
}
use zerosum.Base.Int.{ℤ, pos, negsuc}
use zerosum.StdMap.{text_ord, Map, insert}
use zerosum.Text.{
  Text, codes, same_text, is_digit, is_space, skip_space, leading_number, getline_items, contains,
  to_string, Result, ok, err, ◌>>=◌, undefined,
}
use zerosum.Utils.Files.{FileSystem}
use zerosum.Utils.Running.{Fields}

-- The value of an `uint64_t` behind `in >> value`, and whether the stream is still good.
abbrev pub stored : Option ℤ → ℕ × Bool
stored none = (0, false)
stored (some (pos n)) = if ltb n (2 ^ 64) then (n, true) else (2 ^ 64 - 1, false)
stored (some (negsuc n)) =
    if ltb (n + 1) (2 ^ 64) then (2 ^ 64 - (n + 1), true) else (2 ^ 64 - 1, false)

abbrev pub stored_from : Text → Text → ℕ → ℕ × Bool
stored_from [] line old = (old, false)
stored_from (c ∷ s) line old = stored (leading_number line)

-- Nothing is stored where only white space is left.
unfoldable pub extract : Text → ℕ → ℕ × Bool
extract line old = stored_from (skip_space line) line old

drop_digits : Text → Text
drop_digits [] = []
drop_digits (c ∷ s) = if is_digit c then drop_digits s else c ∷ s

drop_sign : Text → Text
drop_sign [] = []
drop_sign (c ∷ s) = if c == b'-' || c == b'+' then s else c ∷ s

first_word : Text → Text
first_word [] = []
first_word (c ∷ s) = if is_space c then [] else c ∷ first_word s

abbrev word_or : Text → Text → Text
word_or old [] = old
word_or old (c ∷ s) = first_word (c ∷ s)

-- `in >> text` behind a number: the text stays where nothing is left.
unit_behind : Text → Text → Text
unfolding drop_digits drop_sign first_word
unit_behind line old = word_or old (skip_space (drop_digits (drop_sign (skip_space line))))

abbrev pub location : Text
location = codes "/sys/cray/pm_counters/"

-- The loop over the lines: the value, and whether the file is closed; the `return` inside comes
-- before `fclose`.
unitless_loop : List Text → ℕ → ℕ × Bool
unitless_loop [] value = (value, true)
unitless_loop (line ∷ lines) value =
    let rest = unitless_loop lines (extract line value).0 in
    if (extract line value).1 then ((extract line value).0, false) else rest

-- The value and the number of open files. A file that cannot be opened gives a null pointer, which
-- `getline` does not allow.
unfoldable pub get_unitless : FileSystem → Text → ℕ → Result (ℕ × ℕ)
unfolding unitless_loop extract
get_unitless fs name held = elim (fs (location ++ name)) [
  | none ↦ err undefined
  | some content ↦
      let (value, closed) = unitless_loop (getline_items b'\n' content) 0 in
      ok (value, if closed then held else held + 1)
]

with_unit_loop : List Text → ℕ × Text → ℕ × Text
unfolding unit_behind
with_unit_loop [] found = found
with_unit_loop (line ∷ lines) (value, unit) =
    with_unit_loop lines
      ((extract line value).0, if (extract line value).1 then unit_behind line unit else unit)

unfoldable pub get_with_unit : FileSystem → Text → Result (ℕ × Text)
unfolding with_unit_loop extract
get_with_unit fs name = elim (fs (location ++ name)) [
  | none ↦ err undefined
  | some content ↦ ok (with_unit_loop (getline_items b'\n' content) (0, []))
]

-- `cray_tuple`
pub record Counter : Type 0 where
  pub full_name : Text
  pub value : ℕ
  pub monotonic : Bool

pub record CrayCounters : Type 0 where
  pub supported : Bool
  pub previous : Map Text Counter
  pub generation : ℕ
  pub freshness : ℕ
  pub open_files : ℕ

-- What is reported for a value that was read, and the entry afterwards.
unfoldable pub advance : ℕ → Counter → ℕ × Counter
advance read counter =
    if counter.monotonic
    then ((read + 2 ^ 64 - counter.value) % 2 ^ 64, record counter { value = read })
    else (read, counter)

unfoldable pub read_loop :
    FileSystem → Map Text Counter → Fields → Result (Fields × Map Text Counter)
unfolding advance get_with_unit
read_loop fs [] fields = ok (fields, [])
read_loop fs ((name, counter) ∷ previous) fields = do
  (read, unit) ← get_with_unit fs name
  let (current, after) = advance read counter
  (all, others) ← read_loop fs previous (insert counter.full_name (to_string current) fields)
  ok (all, (name, after) ∷ others)

abbrev flag : Bool → Text
flag b = if b then codes "1" else codes "0"

unfoldable pub read_counters : FileSystem → CrayCounters → Result (Fields × CrayCounters)
unfolding read_loop get_unitless
read_counters fs c =
    if c.supported
    then (do
      (freshness, held) ← get_unitless fs (codes "freshness") c.open_files
      (generation, held') ← get_unitless fs (codes "generation") held
      (fields, previous) ← read_loop fs c.previous (
          insert (codes "cray_pm power cap changed") (flag (ltb c.generation generation))
            (insert (codes "cray_pm valid") (flag (ltb c.freshness freshness)) []))
      ok (
        fields,
        record c {
          previous = previous;
          generation = generation;
          freshness = freshness;
          open_files = held';
        },
      ))
    else ok ([], c)

abbrev is_skipped : Text → Bool
is_skipped name =
    contains (codes "_cap") name
    || same_text name (codes "startup")
    || same_text name (codes "version")
    || same_text name (codes "raw_scan_hz")
    || same_text name (codes "generation")
    || same_text name (codes "freshness")

-- The loop of the constructor over the files of the directory; the folders are left out.
list_counters : FileSystem → List Text → Map Text Counter → Result (Map Text Counter)
unfolding get_with_unit
list_counters fs [] previous = ok previous
list_counters fs (name ∷ names) previous =
    if is_skipped name then list_counters fs names previous else (do
      (value, unit) ← get_with_unit fs name
      list_counters fs names (
          insert name
            (record {
              full_name = codes "cray_pm " ++ name ++ codes " (" ++ unit ++ codes ")";
              value = value;
              monotonic = same_text unit (codes "J");
            })
            previous))

-- `names` are the files of the directory, where there is one.
unfoldable pub new : FileSystem → Option (List Text) → ℕ → Result CrayCounters
unfolding list_counters get_unitless
new fs none held =
    ok (record {
      supported = false;
      previous = [];
      generation = 0;
      freshness = 0;
      open_files = held;
    })
new fs (some names) held = do
  previous ← list_counters fs names []
  (freshness, open1) ← get_unitless fs (codes "freshness") held
  (generation, open2) ← get_unitless fs (codes "generation") open1
  ok (record {
    supported = true;
    previous = previous;
    generation = generation;
    freshness = freshness;
    open_files = open2;
  })
