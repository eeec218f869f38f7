-- ===== src/Values.antt =====
-- The dynamic values that src/kilix_telemetry/model.py reads and builds: what `json.loads` returns
-- and `json.dumps` takes. A tuple is a `list`, since every test of the code accepts both.
-- Floats and the text conversions are Python's own, and enter as a parameter.
pub mod Laws
use kilix_telemetry.Common.{
  ℕ, zero, suc, ℤ, pos, max_ℤ, String, str_eq, Bool, true, false, Option, none, some, List, [], ◌∷◌,
  Result, ok, err, Exc, value_error, type_error, overflow_error, if◌then◌else◌, ◌≡◌, ◌>>=◌,
}
use Prim.Native.String as Str

mutual
  pub data Value (F : Type 0) : Type 0 where
    null : Value F
    bool : Bool → Value F
    int : ℤ → Value F
    float : F → Value F
    str : String → Value F
    list : Items F → Value F
    dict : Fields F → Value F

  pub data Items (F : Type 0) : Type 0 where
    nil : Items F
    cons : Value F → Items F → Items F

  -- A mapping in insertion order; its keys are texts and differ from one another.
  pub data Fields (F : Type 0) : Type 0 where
    end : Fields F
    field : String → Value F → Fields F → Fields F

-- Python's floats and conversions: `<`, `<=` and `==` on floats, `math.isfinite`, `float(int)` with
-- OverflowError as `none`, `int(float)` with ValueError on nan and OverflowError on an infinity,
-- `float(str)` and `int(str)` with ValueError as `none`, `str` of a value that is no text, and `sum`.
pub record Python (F : Type 0) : Type 0 where
  pub zero_float : F
  pub hundred_float : F
  pub minus_one_float : F
  pub lt : F → F → Bool
  pub le : F → F → Bool
  pub eq : F → F → Bool
  pub is_finite : F → Bool
  pub float_of_int : ℤ → Option F
  pub int_of_float : F → Result ℤ
  pub float_of_str : String → Option F
  pub int_of_str : String → Option ℤ
  pub str_of : Value F → String
  pub sum_float : List F → F

-- `text[:n]`
unfoldable pub prefix : ℕ → String → String
prefix zero s = ""
prefix (suc n) Str.[] = ""
prefix (suc n) (Str.◌∷◌ c s) = Str.◌∷◌ c (prefix n s)

module _ {F : Type 0} where
  -- `value.get(name)` with the missing key told apart.
  abbrev pub get? : String → Fields F → Option (Value F)
  get? name end = none
  get? name (field key value rest) = if str_eq key name then some value else get? name rest

  abbrev pub or_else : Value F → Option (Value F) → Value F
  or_else default none = default
  or_else default (some value) = value

  -- `value.get(name)` and `value.get(name, default)`
  abbrev pub get : String → Fields F → Value F
  get name fields = or_else null (get? name fields)

  abbrev pub get_default : String → Value F → Fields F → Value F
  get_default name default fields = or_else default (get? name fields)

  abbrev pub items_of : List (Value F) → Items F
  items_of [] = nil
  items_of (x ∷ xs) = cons x (items_of xs)

  abbrev pub list_of : Items F → List (Value F)
  list_of nil = []
  list_of (cons x xs) = x ∷ list_of xs

  abbrev pub fields_of : List (String × Value F) → Fields F
  fields_of [] = end
  fields_of ((key, value) ∷ rest) = field key value (fields_of rest)

  abbrev pub entries_of : Fields F → List (String × Value F)
  entries_of end = []
  entries_of (field key value rest) = (key, value) ∷ entries_of rest

  -- The elements that are mappings, `... for item in raw if isinstance(item, Mapping)`.
  unfoldable pub mappings : List (Value F) → List (Fields F)
  mappings [] = []
  mappings (dict fields ∷ rest) = fields ∷ mappings rest
  mappings (_ ∷ rest) = mappings rest

  -- `value is True`
  abbrev pub is_true : Value F → Bool
  is_true (bool b) = b
  is_true _ = false

module _ {F : Type 0} (py : Python F) where
  abbrev raised {ℓ} : {A : Type ℓ} → Exc → Option A → Result A
  raised e none = err e
  raised e (some a) = ok a

  abbrev pub int_of_bool : Bool → ℤ
  int_of_bool true = pos 1
  int_of_bool false = pos 0

  -- `int(value)`
  unfoldable pub int_of : Value F → Result ℤ
  int_of (bool b) = ok (int_of_bool b)
  int_of (int z) = ok z
  int_of (float f) = py.int_of_float f
  int_of (str s) = raised value_error (py.int_of_str s)
  int_of _ = err type_error

  -- `float(value)`
  unfoldable pub float_of : Value F → Result F
  float_of (bool b) = raised overflow_error (py.float_of_int (int_of_bool b))
  float_of (int z) = raised overflow_error (py.float_of_int z)
  float_of (float f) = ok f
  float_of (str s) = raised value_error (py.float_of_str s)
  float_of _ = err type_error

  -- `str(value)`
  unfoldable pub text_of : Value F → String
  text_of (str s) = s
  text_of value = py.str_of value

  -- `max(a, b)` and `min(a, b)` on floats keep the first of two arguments that are not ordered.
  abbrev pub max_float : F → F → F
  max_float a b = if py.lt a b then b else a

  abbrev pub min_float : F → F → F
  min_float a b = if py.lt b a then b else a

  -- `except (TypeError, ValueError)`: the handler does not take an OverflowError.
  abbrev pub catch_conversion {ℓ} : {A : Type ℓ} → Result A → A → Result A
  catch_conversion (ok a) default = ok a
  catch_conversion (err value_error) default = ok default
  catch_conversion (err type_error) default = ok default
  catch_conversion (err e) default = err e

  -- `_finite_float`
  unfoldable pub finite_float : Value F → F → Result F
  finite_float value default =
      catch_conversion
        (do parsed ← float_of value; ok (if py.is_finite parsed then parsed else default)) default

  -- `_nonnegative_int`
  unfoldable pub nonnegative_int : Value F → Result ℤ
  nonnegative_int value =
      catch_conversion (do parsed ← int_of value; ok (max_ℤ (pos 0) parsed)) (pos 0)
