-- ===== src/Lib.antt =====
-- kilix-telemetry: a sampler that publishes snapshots of the system in a ring file, and the readers of
-- that ring. The sampler's collector builds a `Snapshot`; `RingWriter.publish` turns it into JSON, makes
-- it fit a slot, and stores it in a memory-mapped file under a lock; `RingReader` copies slots out of
-- the file under the same lock, checks them, and parses them back to snapshots; consumers ask a
-- snapshot for the panes of a process tree.
--
-- Files:
-- - Tree, Tree.Walk, Tree.Descendants, IntSet: `_process_children` and `_descendant_pids` of
--   src/kilix_telemetry/model.py. A Python set is a list without repetitions, and the stack of
--   pending PIDs is a list; the walk runs on fuel, one unit for each root and each child,
--   and the fuel is enough for every table.
-- - Values, Values.Laws: JSON values as Python sees them, and the conversions `_finite_float` and
--   `_nonnegative_int`. Floats, and the conversions of texts to numbers, belong to the interpreter:
--   they are the record `Python`, with the few laws that the results use in `PythonLaws`.
-- - Model and its modules: the dataclasses of model.py, `to_dict` (Model.ToDict), `from_dict`
--   (Model.FromDict), the limits of the wire format (Model.Records), and the results on them.
-- - Panes, Panes.Aggregate, Sorting: `Snapshot.pane` and `hottest_celsius`.
-- - Bytes, Json: the mapped file as a function from offsets to bytes, Python's `struct` on it, and
--   `json.dumps`; the texts of numbers and quoted strings are the interpreter's.
-- - Ring: constants, layouts and slot geometry of src/kilix_telemetry/ring.py. The zlib routines, the
--   checksum and `json.loads` are the record `Codec`, with zlib's round trip in `CodecLaws`; that
--   `json.loads` reads back a written text is a hypothesis on the text in question.
-- - Ring.Fit: `_pack`, `_encode`, `_fit` and `_fit_processes`. The binary search runs on fuel, one
--   unit more than the processes; its upper bound is kept one larger
--   than in the source, where it may be -1.
-- - Ring.Writer, Ring.Reader: `RingWriter` and `RingReader`. Each method holds the file lock while it
--   touches the mapping, so a method is one step on the mapped bytes. The constructor knows the size
--   of its file, and mapping a file that is too short fails.
-- - Ring.Log, Ring.History, Ring.Runs: the abstract view of the ring, a log of snapshots of which the
--   newest `slot_count` can be read, and that writer and reader implement it; Ring.Ages has
--   what an age limit means. A publication is taken
--   with the next number; where a snapshot is cut to fit, the log has the snapshot that was kept.
-- - Registry: `PaneRegistry` of src/kilix_telemetry/registry.py, as steps on the bytes of its file.
-- - Consumers: `ConsumerRegistry` of src/kilix_telemetry/consumers.py, as steps on the bytes of its
--   file, with `process_identity` as a parameter.
-- - Text, Dict: what Python's `str` methods do on the bytes of a text (facts of Unicode are the record
--   `Unicode`), and a Python dict as a list of entries in the order of their first assignment.
-- - Collect and its modules: `LinuxCollector` of src/kilix_telemetry/collect.py. A file is the text
--   that `_read_text` returns for it, and what one sample sees is the record `Machine`
--   (Collect.Sample). Collect.Cpu, Collect.Memory, Collect.Stat, Collect.Pss, Collect.Processes and
--   Collect.Sensors have a function for each method; each returns the attributes that the method
--   sets. Collect.State and Collect.Trees have the attributes and tables that they share. Float
--   arithmetic is the record `Arithmetic`. An error of a method has no state; the
--   collector that a failed sample leaves in a client is given to the call (Client). A division of
--   floats raises ZeroDivisionError on zero, and a missing field of a line IndexError.
-- - Daemon: the loop of `run_daemon` of src/kilix_telemetry/daemon.py, on the collector, the writer
--   and the loop's variables. A round is given what it sees: the clocks, the signals, the files of the
--   registries, and the machine.
-- - Mapping, Client and its modules: `TelemetryClient` and `ensure_running` of
--   src/kilix_telemetry/client.py. A call is given the file under the ring's path, the registry files,
--   the clocks and the answers of the writer's lock. Mapping has the reader that is kept,
--   Client.Current that it shows the file under the path,
--   Client.Registration the registration of panes, Client.Panes the method `pane`, and Client.Startup
--   the start of a writer, over a list of turns of its loop.
--
-- Not modelled: the scan of sysfs for sensors (`_discover_sensors` of collect.py), whose result is an
-- argument; the command line (src/kilix_telemetry/cli.py), which parses arguments and prints; how
-- client.py builds the command and the environment of the process that it starts; the file-system
-- checks, the paths and the daemon's lock of ring.py; closing of descriptors.
pub mod Common
pub mod IntSet
pub mod Tree
pub mod Values
pub mod Model
pub mod Sorting
pub mod Panes
pub mod Bytes
pub mod Json
pub mod Ring
pub mod Tests
pub mod Registry
pub mod Consumers
pub mod Dict
pub mod Text
pub mod Collect
pub mod Daemon
pub mod Mapping
pub mod Client
