-- ===== src/Collect.antt =====
-- The pure parts of src/kilix_telemetry/collect.py: what it makes of the texts under /proc and /sys.
-- A file is the text that `_read_text` returns for it, which is empty where the file cannot be read.
pub mod Cpu
pub mod Memory
pub mod Stat
pub mod State
pub mod Trees
pub mod Pss
pub mod Processes
pub mod Sensors
pub mod Sample
pub mod Published
pub mod Failures
pub mod Errors
pub mod Snapshots
use kilix_telemetry.Common.{
  ℕ, ℤ, pos, ◌≡◌, ◌*ℤ◌, max_ℤ, String, str_eq, Bool, true, false, ◌&&◌, Option, none, some, List,
  [], ◌∷◌, Result, ok, err, overflow_error, zero_division_error, if◌then◌else◌, ◌>>=◌,
}
use kilix_telemetry.Values.{Python}
use kilix_telemetry.Text.{Unicode, split, split_lines, split_at, strip}
use kilix_telemetry.Dict.{assign}

-- Python's float arithmetic: literals, sums, differences, products, quotients by a number that is not
-- zero, `abs`, `int / int`, and `float(f"{x:.3f}")`.
pub record Arithmetic (F : Type 0) : Type 0 where
  pub whole : ℕ → F
  pub add : F → F → F
  pub sub : F → F → F
  pub mul : F → F → F
  pub div : F → F → F
  pub absolute : F → F
  pub int_quotient : ℤ → ℤ → Result F
  pub three_digits : F → F
  pub round : F → Result ℤ

-- A fact of IEEE 754: what lies between two finite numbers is finite.
abbrev pub BetweenIsFinite : {F : Type 0} → Python F → Type 0
BetweenIsFinite {F} py =
    (f : F) → py.lt py.zero_float f ≡ true → py.lt f py.hundred_float ≡ true → py.is_finite f ≡ true

abbrev pub kib : ℤ
kib = pos 1024

-- The entries of a text table, in the order of its first keys.
abbrev pub Table : Type 0
Table = List (String × String)

-- The loop of `_parse_key_values`.
unfoldable pub key_values_of : Table → List String → Table
key_values_of values [] = values
key_values_of values (line ∷ rest) =
    let (key, separator, tail) = split_at b':' line in
    let next = if separator then assign str_eq key (strip tail) values else values in
    key_values_of next rest

-- `_parse_key_values`
unfoldable pub key_values : String → Table
key_values text = key_values_of [] (split_lines text)

module _ {F : Type 0} (py : Python F) where
  -- An integer operand of a float operation.
  abbrev pub to_float : ℤ → Result F
  to_float z = elim (py.float_of_int z) [ none ↦ err overflow_error | some f ↦ ok f ]

  -- `max(0, int(text))`, with the ValueError as `none`.
  unfoldable pub nonnegative : String → Option ℤ
  nonnegative text = elim (py.int_of_str text) [ none ↦ none | some z ↦ some (max_ℤ (pos 0) z) ]

  unfoldable pub nonnegatives : List String → Option (List ℤ)
  nonnegatives [] = some []
  nonnegatives (text ∷ rest) = elim (nonnegative text) [
    | none ↦ none
    | some z ↦ elim (nonnegatives rest) [ none ↦ none | some zs ↦ some (z ∷ zs) ]
  ]

  -- `_number`
  unfoldable pub number : String → Option F
  number text = elim (py.float_of_str (strip text)) [
    | none ↦ none
    | some value ↦ if py.is_finite value then some value else none
  ]

  module _ (arithmetic : Arithmetic F) where
    -- `a / b` on two floats.
    unfoldable pub quotient : F → F → Result F
    quotient a b =
        if py.eq b py.zero_float then err zero_division_error else ok (arithmetic.div a b)

    -- The range check of `_temperature`, and its rounding.
    unfoldable pub temperature_within : F → F → Option F
    temperature_within minimum celsius =
        if py.le celsius minimum
        then none
        else if py.lt (arithmetic.whole 250) celsius
        then none
        else some (arithmetic.three_digits celsius)

    -- `_temperature` on the file's text.
    unfoldable pub temperature : String → Bool → Option F
    temperature text threshold = elim (number text) [
      | none ↦ none
      | some value ↦ temperature_within (if threshold then arithmetic.whole 1 else py.zero_float) (
          if py.lt (arithmetic.whole 1000) (arithmetic.absolute value)
          then arithmetic.div value (arithmetic.whole 1000)
          else value)
    ]

module _ {F : Type 0} (py : Python F) (unicode : Unicode) where
  -- `value * KIB if len(fields) > 1 and fields[1].lower() == "kb" else value`
  unfoldable pub with_unit : ℤ → List String → ℤ
  with_unit amount [] = amount
  with_unit amount (unit ∷ rest) =
      if str_eq (unicode.lower unit) "kb" then amount *ℤ kib else amount

  -- The amount at the beginning of a line's fields; without one, or with no number there, `none`.
  unfoldable pub amount_of : List String → Option ℤ
  amount_of [] = none
  amount_of (first ∷ rest) = elim (nonnegative py first) [
    | none ↦ none
    | some amount ↦ some (with_unit amount rest)
  ]
