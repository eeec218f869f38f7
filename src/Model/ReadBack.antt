-- ===== src/Model/ReadBack.antt =====
-- Each field of model.py's records reads back from the wire value that `to_dict` writes for it.
use kilix_telemetry.Common.{
  ℤ, IsNonneg, ◌≡◌, refl, ap, String, List, [], ◌∷◌, Option, none, some, map, take-of_le,
  length-map, arith, ok,
}
use kilix_telemetry.Values.{Python, int, float, list, items_of, min_float}
use kilix_telemetry.Values.Laws.{
  traverse-map, list_of-items_of, entries_of-fields_of, IsFinite, nonnegative_int-int,
  finite_float-float, max_float-of_IsAboveZero,
}
use kilix_telemetry.Model.ToDict.{
  float_or_null, int_or_null, float_entry, int_entry, resource_entry, pressure_dict, vm_dict,
}
use kilix_telemetry.Model.FromDict.{
  optional_float, optional_int, clamped_float, optional_percent, at_least_one, capped_rpm,
  optional_floats_item, optional_floats, pressure_line, vm_line, pressure_resources, pressure_of,
  vm_of,
}
use kilix_telemetry.Model.Fields.{
  AllSome, IsPositive, IsRpm, AreNonneg, IsAmount, IsPercent, IsReading, AreReadings, ArePressures,
}

module _ {F : Type 0} (py : Python F) where
  pub optional_float-null :
      (o : Option F) → AllSome (IsFinite py) o → optional_float py (float_or_null o) ≡ ok o
  unfolding optional_float
  optional_float-null none h = refl
  optional_float-null (some f) h = rw (finite_float-float py f py.zero_float h)

  pub optional_int-null :
      (o : Option ℤ) → AllSome IsNonneg o → optional_int py (int_or_null o) ≡ ok o
  unfolding optional_int
  optional_int-null none h = refl
  optional_int-null (some z) h = rw (nonnegative_int-int py z h)

  pub clamped_float-float : (f : F) → IsAmount py f → clamped_float py (float f) ≡ ok f
  unfolding clamped_float
  clamped_float-float f h =
      rw (finite_float-float py f py.zero_float h.0) (ap ok (max_float-of_IsAboveZero py f h.1))

  min_float-of_IsPercent : (f : F) → IsPercent py f → min_float py py.hundred_float f ≡ f
  min_float-of_IsPercent f h = ground arith

  pub optional_percent-null :
      (o : Option F) → AllSome (IsPercent py) o → optional_percent py (float_or_null o) ≡ ok o
  unfolding optional_percent
  optional_percent-null none h = refl
  optional_percent-null (some f) h =
      rw (finite_float-float py f py.zero_float h.0.0, min_float-of_IsPercent f h)
        (ap (λ t. ok (some t)) (max_float-of_IsAboveZero py f h.0.1))

  pub at_least_one-int : (z : ℤ) → IsPositive z → at_least_one py (int z) ≡ ok z
  unfolding at_least_one
  at_least_one-int z h = rw (nonnegative_int-int py z (omega arith)) (ap ok (ground arith))

  pub capped_rpm-int : (z : ℤ) → IsRpm z → capped_rpm py (int z) ≡ ok z
  unfolding capped_rpm
  capped_rpm-int z h = rw (nonnegative_int-int py z h.0) (ap ok (ground arith))

  optional_floats_item-null :
      (o : Option F) → AllSome (IsReading py) o → optional_floats_item py (float_or_null o) ≡ ok o
  unfolding optional_floats_item
  optional_floats_item-null none h = refl
  optional_floats_item-null (some f) h =
      rw (finite_float-float py f py.minus_one_float h.0, h.1) refl

  pub optional_floats-list :
      (xs : List (Option F))
      → AreReadings py xs
      → optional_floats py (list (items_of (map float_or_null xs))) ≡ ok xs
  unfolding optional_floats
  optional_floats-list xs h =
      rw
        (
          list_of-items_of (map float_or_null xs),
          take-of_le 4096 (map float_or_null xs) (omega (arith, length-map float_or_null xs)),
        )
        (traverse-map (AllSome (IsReading py)) (optional_floats_item py) float_or_null xs
          optional_floats_item-null h.1)

  vm_line-int : (line : String × ℤ) → IsNonneg line.1 → vm_line py (int_entry line) ≡ ok line
  unfolding vm_line
  vm_line-int (key, n) h = rw (nonnegative_int-int py n h)

  pub vm_of-dict : (vm : List (String × ℤ)) → AreNonneg vm → vm_of py (vm_dict vm) ≡ ok vm
  unfolding vm_of
  vm_of-dict vm h =
      rw (entries_of-fields_of (map int_entry vm))
        (traverse-map (λ (key, n). IsNonneg n) (vm_line py) int_entry vm vm_line-int h)

  pressure_line-float :
      (line : String × F) → IsFinite py line.1 → pressure_line py (float_entry line) ≡ ok line
  unfolding pressure_line
  pressure_line-float (key, f) h = rw (finite_float-float py f py.zero_float h)

  pressure_resources-map :
      (pressure : List (String × List (String × F)))
      → ArePressures py pressure
      → pressure_resources py (map resource_entry pressure) ≡ ok pressure
  unfolding pressure_resources
  pressure_resources-map [] h = refl
  pressure_resources-map ((resource, lines) ∷ rest) h = rw (
    entries_of-fields_of (map float_entry lines),
    traverse-map (λ (key, f). IsFinite py f) (pressure_line py) float_entry lines
        pressure_line-float h.0,
    pressure_resources-map rest h.1,
  )

  pub pressure_of-dict :
      (pressure : List (String × List (String × F)))
      → ArePressures py pressure
      → pressure_of py (pressure_dict pressure) ≡ ok pressure
  unfolding pressure_of
  pressure_of-dict pressure h =
      rw (entries_of-fields_of (map resource_entry pressure)) (pressure_resources-map pressure h)
