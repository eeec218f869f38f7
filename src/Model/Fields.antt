-- ===== src/Model/Fields.antt =====
-- The conversions of single fields in model.py's `from_dict` methods: what each returns.
use kilix_telemetry.Common.{
  ℕ, ℤ, pos, ◌≤◌, ◌≤ℤ◌, IsNonneg, ◌≡◌, ◌⊎◌, true, String, List, [], ◌∷◌, Option, none, some, All,
  length, arith, traverse, if◌then◌else◌,
}
use kilix_telemetry.Values.{
  Value, Python, null, list, dict, list_of, entries_of, prefix, max_float, min_float, finite_float,
  nonnegative_int,
}
use kilix_telemetry.Values.Laws.{
  PythonLaws, Ensures, Ensures-bind, Ensures-traverse, Ensures-traverse-take, IsFinite, IsAboveZero,
  nonnegative_int-IsNonneg, finite_float-IsFinite, max_float-IsAboveZero, max_float-IsFinite,
}
use kilix_telemetry.Model.FromDict.{
  optional_float, optional_int, clamped_float, optional_percent, at_least_one, capped_rpm,
  optional_floats_item, optional_floats, pressure_line, vm_line, pressure_resources, pressure_of,
  vm_of,
}

abbrev pub AllSome {ℓ κ} : {A : Type ℓ} → (A → Type κ) → Option A → Type κ
AllSome P none = Unit
AllSome P (some a) = P a

-- A text of at most `n` characters.
abbrev pub IsShort : ℕ → String → Type 0
IsShort n s = prefix n s ≡ s

abbrev pub IsPositive : ℤ → Type 0
IsPositive z = pos 1 ≤ℤ z

abbrev pub IsRpm : ℤ → Type 0
IsRpm z = IsNonneg z × (z ≤ℤ pos 200_000)

abbrev pub AreNonneg : List (String × ℤ) → Type 0
AreNonneg = All (λ (key, number). IsNonneg number)

module _ {F : Type 0} (py : Python F) where
  abbrev pub IsAmount : F → Type 0
  IsAmount f = IsFinite py f × IsAboveZero py f

  -- What `max(0.0, min(100.0, ...))` returns.
  abbrev pub IsPercent : F → Type 0
  IsPercent f = IsAmount f × ((py.lt f py.hundred_float ≡ true) ⊎ (f ≡ py.hundred_float))

  abbrev pub IsReading : F → Type 0
  IsReading f = IsFinite py f × (py.le py.zero_float f ≡ true)

  abbrev pub AreReadings : List (Option F) → Type 0
  AreReadings xs = (length xs ≤ 4096) × All (AllSome IsReading) xs

  abbrev pub AreFinite : List (String × F) → Type 0
  AreFinite = All (λ (key, number). IsFinite py number)

  abbrev pub ArePressures : List (String × List (String × F)) → Type 0
  ArePressures = All (λ (resource, lines). AreFinite lines)

module _ {F : Type 0} (py : Python F) (laws : PythonLaws py) where
  pub optional_float-IsFinite :
      (value : Value F) → Ensures (AllSome (IsFinite py)) (optional_float py value)
  unfolding optional_float
  optional_float-IsFinite null = tt
  optional_float-IsFinite value =
      Ensures-bind (IsFinite py) (AllSome (IsFinite py)) (finite_float py value py.zero_float) _
        (finite_float-IsFinite py value py.zero_float laws.zero_finite) λ f h. h

  pub optional_int-IsNonneg : (value : Value F) → Ensures (AllSome IsNonneg) (optional_int py value)
  unfolding optional_int
  optional_int-IsNonneg null = tt
  optional_int-IsNonneg value =
      Ensures-bind IsNonneg (AllSome IsNonneg) (nonnegative_int py value) _
        (nonnegative_int-IsNonneg py value) λ z h. h

  pub clamped_float-IsAmount : (value : Value F) → Ensures (IsAmount py) (clamped_float py value)
  unfolding clamped_float
  clamped_float-IsAmount value =
      Ensures-bind (IsFinite py) (IsAmount py) (finite_float py value py.zero_float) _
        (finite_float-IsFinite py value py.zero_float laws.zero_finite)
        λ f h. (max_float-IsFinite py laws f h, max_float-IsAboveZero py f)

  IsPercent-of_finite :
      (f : F)
      → IsFinite py f
      → IsPercent py (max_float py py.zero_float (min_float py py.hundred_float f))
  IsPercent-of_finite f h =
      ground (arith, laws.zero_finite, laws.hundred_finite, laws.zero_lt_hundred)

  pub optional_percent-IsPercent :
      (value : Value F) → Ensures (AllSome (IsPercent py)) (optional_percent py value)
  unfolding optional_percent
  optional_percent-IsPercent null = tt
  optional_percent-IsPercent value =
      Ensures-bind (IsFinite py) (AllSome (IsPercent py)) (finite_float py value py.zero_float) _
        (finite_float-IsFinite py value py.zero_float laws.zero_finite) IsPercent-of_finite

  pub at_least_one-IsPositive : (value : Value F) → Ensures IsPositive (at_least_one py value)
  unfolding at_least_one
  at_least_one-IsPositive value =
      Ensures-bind IsNonneg IsPositive (nonnegative_int py value) _
        (nonnegative_int-IsNonneg py value) λ z h. ground arith

  pub capped_rpm-IsRpm : (value : Value F) → Ensures IsRpm (capped_rpm py value)
  unfolding capped_rpm
  capped_rpm-IsRpm value =
      Ensures-bind IsNonneg IsRpm (nonnegative_int py value) _ (nonnegative_int-IsNonneg py value)
        λ z h. ground arith

  optional_floats_item-IsReading :
      (value : Value F) → Ensures (AllSome (IsReading py)) (optional_floats_item py value)
  unfolding optional_floats_item
  optional_floats_item-IsReading null = tt
  optional_floats_item-IsReading value =
      Ensures-bind (IsFinite py) (AllSome (IsReading py)) (finite_float py value py.minus_one_float)
        _ (finite_float-IsFinite py value py.minus_one_float laws.minus_one_finite) kept
    where
      kept :
          (f : F)
          → IsFinite py f
          → AllSome (IsReading py) (if py.le py.zero_float f then some f else none)
      kept f h = ground arith

  pub optional_floats-AreReadings :
      (value : Value F) → Ensures (AreReadings py) (optional_floats py value)
  unfolding optional_floats
  optional_floats-AreReadings (list raw) =
      Ensures-traverse-take (AllSome (IsReading py)) (optional_floats_item py) 4096 (list_of raw)
        optional_floats_item-IsReading
  optional_floats-AreReadings _ = (omega arith, tt)

  vm_line-IsNonneg : (line : String × Value F) → Ensures (λ (key, n). IsNonneg n) (vm_line py line)
  unfolding vm_line
  vm_line-IsNonneg (key, number) =
      Ensures-bind IsNonneg (λ ((k, n) : String × ℤ). IsNonneg n) (nonnegative_int py number) _
        (nonnegative_int-IsNonneg py number) λ z h. h

  pub vm_of-AreNonneg : (value : Value F) → Ensures AreNonneg (vm_of py value)
  unfolding vm_of
  vm_of-AreNonneg (dict raw) =
      Ensures-traverse (λ (key, number). IsNonneg number) (vm_line py) (entries_of raw)
        vm_line-IsNonneg
  vm_of-AreNonneg _ = tt

  pressure_line-IsFinite :
      (line : String × Value F) → Ensures (λ (key, f). IsFinite py f) (pressure_line py line)
  unfolding pressure_line
  pressure_line-IsFinite (key, number) =
      Ensures-bind (IsFinite py) (λ ((k, f) : String × F). IsFinite py f)
        (finite_float py number py.zero_float) _
        (finite_float-IsFinite py number py.zero_float laws.zero_finite) λ f h. h

  pressure_resources-ArePressures :
      (entries : List (String × Value F))
      → Ensures (ArePressures py) (pressure_resources py entries)
  unfolding pressure_resources
  pressure_resources-ArePressures [] = tt
  pressure_resources-ArePressures ((resource, dict lines) ∷ rest) =
      Ensures-bind (AreFinite py) (ArePressures py) (traverse (pressure_line py) (entries_of lines))
        _
        (Ensures-traverse (λ (key, f). IsFinite py f) (pressure_line py) (entries_of lines)
          pressure_line-IsFinite)
        λ parsed p.
          Ensures-bind (ArePressures py) (ArePressures py) (pressure_resources py rest) _
            (pressure_resources-ArePressures rest) λ others ps. (p, ps)
  pressure_resources-ArePressures ((resource, _) ∷ rest) = pressure_resources-ArePressures rest

  pub pressure_of-ArePressures :
      (value : Value F) → Ensures (ArePressures py) (pressure_of py value)
  unfolding pressure_of
  pressure_of-ArePressures (dict raw) = pressure_resources-ArePressures (entries_of raw)
  pressure_of-ArePressures _ = tt
