-- ===== src/Tests/Records.antt =====
-- The wire format at a concrete snapshot.
use kilix_telemetry.Common.{◌≡◌, refl, ok, traverse, ◌==ℤ◌}
use kilix_telemetry.Values.{
  prefix, mappings, text_of, int_of, float_of, nonnegative_int, finite_float,
}
use kilix_telemetry.Values.Laws.{Ensures, Ensures-ok}
use kilix_telemetry.Model.ToDict.{to_dict, system_dict, process_dict}
use kilix_telemetry.Model.FromDict.{
  from_dict, supported, mapping, array, process_from_dict, system_from_dict, optional_float,
  optional_int, clamped_float, optional_percent, at_least_one, optional_floats,
  optional_floats_item, pressure_of, pressure_resources, pressure_line, vm_of, vm_line,
}
use kilix_telemetry.Model.Records.{IsWireRecord}
use kilix_telemetry.Model.Limits.{from_dict-IsWireRecord}
use kilix_telemetry.Model.RoundTrip.{from_dict-to_dict}
use kilix_telemetry.Model.Stable.{from_dict-to_dict-from_dict}
use kilix_telemetry.Tests.Instances.{python, python_laws, snapshot}

snapshot_reads_back : from_dict python (to_dict snapshot) ≡ ok snapshot
unfolding from_dict supported mapping array process_from_dict system_from_dict optional_float
    optional_int clamped_float optional_percent at_least_one optional_floats optional_floats_item
    pressure_of pressure_resources pressure_line vm_of vm_line to_dict system_dict process_dict
    prefix mappings text_of int_of float_of nonnegative_int finite_float traverse ◌==ℤ◌
snapshot_reads_back = refl

pub snapshot-IsWireRecord : IsWireRecord python snapshot
snapshot-IsWireRecord =
    Ensures-ok (IsWireRecord python) (from_dict python (to_dict snapshot)) snapshot
      (from_dict-IsWireRecord python python_laws (to_dict snapshot)) snapshot_reads_back

from_dict-IsWireRecord_example : Ensures (IsWireRecord python) (from_dict python (to_dict snapshot))
from_dict-IsWireRecord_example = from_dict-IsWireRecord python python_laws (to_dict snapshot)

from_dict-to_dict_example : from_dict python (to_dict snapshot) ≡ ok snapshot
from_dict-to_dict_example = from_dict-to_dict python snapshot snapshot-IsWireRecord

from_dict-to_dict-from_dict_example : from_dict python (to_dict snapshot) ≡ ok snapshot
from_dict-to_dict-from_dict_example =
    from_dict-to_dict-from_dict python python_laws (to_dict snapshot) snapshot snapshot_reads_back
