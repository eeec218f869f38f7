-- ===== src/Model/Limits.antt =====
-- Whatever mapping a record is read from, what `from_dict` returns is within the limits.
pub mod Small
pub mod System
use kilix_telemetry.Common.{
  ℤ, pos, ◌≤ℤ◌, ◌≡◌, All, length, max_ℤ, IsNonneg, arith, traverse, ==ℤ_iff,
}
use kilix_telemetry.Values.{
  Fields, Python, str, list, dict, nil, end, get, get_default, mappings, text_of, nonnegative_int,
  finite_float,
}
use kilix_telemetry.Values.Laws.{
  Ensures-any, PythonLaws, Ensures, Ensures-bind, Ensures-traverse, IsFinite, prefix-prefix,
  nonnegative_int-IsNonneg, finite_float-IsFinite,
}
use kilix_telemetry.Model.{schema_version}
use kilix_telemetry.Model.Records.{
  IsThermalRecord, IsFanRecord, IsProcessRecord, IsSystemRecord, IsPaneRecord, IsWireRecord,
}
use kilix_telemetry.Model.Fields.{
  AllSome, IsPositive, IsRpm, AreNonneg, IsAmount, IsPercent, AreReadings, ArePressures,
  optional_float-IsFinite, optional_int-IsNonneg, clamped_float-IsAmount,
  optional_percent-IsPercent, at_least_one-IsPositive, capped_rpm-IsRpm,
  optional_floats-AreReadings, vm_of-AreNonneg, pressure_of-ArePressures,
}
use kilix_telemetry.Model.FromDict.{
  optional_float, optional_int, clamped_float, optional_percent, at_least_one, capped_rpm,
  optional_floats, pressure_of, vm_of, array, mapping, supported, from_dict, thermal_from_dict,
  fan_from_dict, process_from_dict, system_from_dict, pane_from_dict,
}
use kilix_telemetry.Model.Limits.Small.{
  max_ℤ-ge, thermal_from_dict-IsThermalRecord, fan_from_dict-IsFanRecord,
  process_from_dict-IsProcessRecord, pane_from_dict-IsPaneRecord,
}
use kilix_telemetry.Model.Limits.System.{system_from_dict-IsSystemRecord}

module _ {F : Type 0} (py : Python F) (laws : PythonLaws py) where
  supported-eq : (schema : ℤ) → Ensures (λ _. schema ≡ schema_version) (supported py schema)
  unfolding supported
  supported-eq schema = ground (arith, ==ℤ_iff schema schema_version)

  -- Whatever mapping `Snapshot.from_dict` is given, it raises, or returns a snapshot of the
  -- supported schema whose texts are within their limits, whose counts are not negative and
  -- whose floats are finite, in each of its records.
  pub from_dict-IsWireRecord : (value : Fields F) → Ensures (IsWireRecord py) (from_dict py value)
  unfolding from_dict
  from_dict-IsWireRecord value =
      Ensures-bind IsNonneg (IsWireRecord py) (nonnegative_int py (get "schema" value)) _
        (nonnegative_int-IsNonneg py (get "schema" value))
        λ schema h_schema.
          Ensures-bind (λ _. schema ≡ schema_version) (IsWireRecord py) (supported py schema) _
            (supported-eq schema)
            λ _ h_supported.
              Ensures-bind (λ _. Unit {0}) (IsWireRecord py) (mapping py (get "system" value)) _
                (Ensures-any (mapping py (get "system" value)))
                λ raw_system h_raw_system.
                  Ensures-bind (λ _. Unit {0}) (IsWireRecord py) (array py "thermal" value) _
                    (Ensures-any (array py "thermal" value))
                    λ raw_thermal h_raw_thermal.
                      Ensures-bind (λ _. Unit {0}) (IsWireRecord py) (array py "processes" value) _
                        (Ensures-any (array py "processes" value))
                        λ raw_processes h_raw_processes.
                          Ensures-bind (λ _. Unit {0}) (IsWireRecord py) (array py "fans" value) _
                            (Ensures-any (array py "fans" value))
                            λ raw_fans h_raw_fans.
                              Ensures-bind (λ _. Unit {0}) (IsWireRecord py)
                                (array py "panes" value) _ (Ensures-any (array py "panes" value))
                                λ raw_panes h_raw_panes.
                                  Ensures-bind (All (IsProcessRecord py)) (IsWireRecord py)
                                    (traverse (process_from_dict py) (mappings raw_processes)) _
                                    (Ensures-traverse (IsProcessRecord py) (process_from_dict py)
                                      (mappings raw_processes)
                                      (process_from_dict-IsProcessRecord py laws))
                                    λ processes h_processes.
                                      Ensures-bind IsNonneg (IsWireRecord py)
                                        (nonnegative_int py (get "sequence" value)) _
                                        (nonnegative_int-IsNonneg py (get "sequence" value))
                                        λ sequence h_sequence.
                                          Ensures-bind IsNonneg (IsWireRecord py)
                                            (nonnegative_int py (get "wall_time_ns" value)) _
                                            (nonnegative_int-IsNonneg py (get "wall_time_ns" value))
                                            λ wall_time_ns h_wall_time_ns.
                                              Ensures-bind IsNonneg (IsWireRecord py)
                                                (nonnegative_int py (get "monotonic_ns" value)) _
                                                (nonnegative_int-IsNonneg py
                                                  (get "monotonic_ns" value))
                                                λ monotonic_ns h_monotonic_ns.
                                                  Ensures-bind IsNonneg (IsWireRecord py)
                                                    (nonnegative_int py (get "interval_ns" value)) _
                                                    (nonnegative_int-IsNonneg py
                                                      (get "interval_ns" value))
                                                    λ interval_ns h_interval_ns.
                                                      Ensures-bind (IsSystemRecord py)
                                                        (IsWireRecord py)
                                                        (system_from_dict py raw_system) _
                                                        (system_from_dict-IsSystemRecord py laws
                                                          raw_system)
                                                        λ system h_system.
                                                          Ensures-bind (All (IsThermalRecord py))
                                                            (IsWireRecord py)
                                                            (traverse (thermal_from_dict py)
                                                            (mappings raw_thermal))
                                                            _
                                                            (Ensures-traverse (IsThermalRecord py)
                                                            (thermal_from_dict py)
                                                            (mappings raw_thermal)
                                                            (thermal_from_dict-IsThermalRecord py
                                                            laws))
                                                            λ thermal h_thermal.
                                                            Ensures-bind (All IsFanRecord)
                                                            (IsWireRecord py)
                                                            (traverse (fan_from_dict py)
                                                            (mappings raw_fans))
                                                            _
                                                            (Ensures-traverse IsFanRecord
                                                            (fan_from_dict py) (mappings raw_fans)
                                                            (fan_from_dict-IsFanRecord py laws))
                                                            λ fans h_fans.
                                                            Ensures-bind (All (IsPaneRecord py))
                                                            (IsWireRecord py)
                                                            (traverse (pane_from_dict py)
                                                            (mappings raw_panes))
                                                            _
                                                            (Ensures-traverse (IsPaneRecord py)
                                                            (pane_from_dict py) (mappings raw_panes)
                                                            (pane_from_dict-IsPaneRecord py laws))
                                                            λ panes h_panes.
                                                            Ensures-bind IsNonneg (IsWireRecord py)
                                                            (nonnegative_int py
                                                            (get "processes_total" value))
                                                            _
                                                            (nonnegative_int-IsNonneg py
                                                            (get "processes_total" value))
                                                            λ processes_total h_processes_total.
                                                            record {
                                                            sequence = h_sequence;
                                                            wall_time_ns = h_wall_time_ns;
                                                            monotonic_ns = h_monotonic_ns;
                                                            interval_ns = h_interval_ns;
                                                            boot_id = prefix-prefix 128 (
                                                            text_of py
                                                            (get_default "boot_id" (str "") value));
                                                            system = h_system;
                                                            thermal = h_thermal;
                                                            processes = h_processes;
                                                            fans = h_fans;
                                                            schema = h_supported;
                                                            panes = h_panes;
                                                            processes_total =
                                                            max_ℤ-ge (pos (length processes))
                                                            processes_total;
                                                            }
