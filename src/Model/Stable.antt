-- ===== src/Model/Stable.antt =====
-- Reading and writing the wire format once more changes nothing.
use kilix_telemetry.Common.{◌≡◌, ok}
use kilix_telemetry.Values.{Fields, Python}
use kilix_telemetry.Values.Laws.{PythonLaws, Ensures-ok}
use kilix_telemetry.Model.{Snapshot}
use kilix_telemetry.Model.ToDict.{to_dict}
use kilix_telemetry.Model.FromDict.{from_dict}
use kilix_telemetry.Model.Records.{IsWireRecord}
use kilix_telemetry.Model.Limits.{from_dict-IsWireRecord}
use kilix_telemetry.Model.RoundTrip.{from_dict-to_dict}

-- Whatever mapping a snapshot was read from, its own wire dictionary reads back to the same
-- snapshot.
pub from_dict-to_dict-from_dict :
    {F : Type 0} (py : Python F) (laws : PythonLaws py) (value : Fields F) (snapshot : Snapshot F)
    → from_dict py value ≡ ok snapshot
    → from_dict py (to_dict snapshot) ≡ ok snapshot
from_dict-to_dict-from_dict py laws value snapshot e = from_dict-to_dict py snapshot (
    Ensures-ok (IsWireRecord py) (from_dict py value) snapshot
      (from_dict-IsWireRecord py laws value) e)
