-- ===== src/Tests/Machines.antt =====
-- A machine with two processes, and an idle one, as the collector samples them.
use kilix_telemetry.Common.{
  arith, ==ℤ_iff, pos, negsuc, ◌+ℤ◌, ◌-ℤ◌, ◌*ℤ◌, ◌==ℤ◌, String, Bool, true, false, Option, none,
  some, List, [], ◌∷◌, Result, ok, err, ◌≡◌, refl, traverse, sum_ℤ,
}
use Prim.Native.String as Str
use kilix_telemetry.IntSet.{contains, add, extend}
use kilix_telemetry.Sorting.{sort_by, insert}
use kilix_telemetry.Tree.{
  children_of, append_child, index_processes, process_children, walk, child_count, descendant_pids,
}
use kilix_telemetry.Values.{prefix}
use kilix_telemetry.Values.Laws.{Ensures}
use kilix_telemetry.Model.{PaneMetrics, Snapshot}
use kilix_telemetry.Panes.{by_pid, proportional, has_pss}
use kilix_telemetry.Text.{
  Unicode, is_space, is_break, suffix_from, is_empty, split, split_lines, split_at, strip, find,
  rfind, begins_with, masked, safe_text,
}
use kilix_telemetry.Dict.{lookup, assign, keep_keys}
use kilix_telemetry.Collect.{
  quotient, Arithmetic, BetweenIsFinite, key_values_of, key_values, nonnegative, nonnegatives,
  number, temperature_within, temperature, with_unit, amount_of,
}
use kilix_telemetry.Collect.Cpu.{
  ticks_of, max_key, range_from, logical_of, busy_percent, cpu_percent, note_ticks, cpu_fields,
  cpu_lines, percent_at, cpu,
}
use kilix_telemetry.Collect.Cpu.Percent.{AreShares, cpu-AreShares}
use kilix_telemetry.Collect.Memory.{
  with_available, is_vm_key, meminfo_entries, meminfo, vm_fields, vm_lines, vm, nonnegative_float,
  three_floats, loads, first_float, uptime, pressure_item, pressure_items, pressure_lines, pressure,
}
use kilix_telemetry.Collect.Memory.Bounds.{AreAmounts, IsBounded, meminfo-IsBounded}
use kilix_telemetry.Collect.Stat.{
  ProcessFiles, same_process, spaced, field_at, int_of_text, int_field, stat_of, stat_between,
  parse_stat, status_bytes, uid_of, process_meta, is_stale, metadata, raw_of_meta, process_of_stat,
  raw_process,
}
use kilix_telemetry.Collect.Processes.{
  cores_of, denominator_of, process_cores, metrics_of, all_metrics, tree_cores, root_cores, pane_of,
  all_panes, numbered, raw_processes, since, reuses, sampled, processes,
}
use kilix_telemetry.Collect.Pss.{pss_fields, pss_lines, pss, pss_if}
use kilix_telemetry.Collect.Trees.{
  positive_set, same_roots, raw_by_pid, tree_pids, in_some_tree, readings, is_live,
}
use kilix_telemetry.Collect.State.{Settings, ProcessState}
use kilix_telemetry.Collect.Sensors.{
  SensorState, is_within, read_temperatures, read_fans, scanned, refreshed, thermal, set_at,
  note_mhz, cpuinfo_line, cpuinfo_lines, scaled_khz, filled_in, frequencies, cpu_frequency,
}
use kilix_telemetry.Collect.Sample.{Machine, Collector, system_of, sample}
use kilix_telemetry.Collect.Failures.{FailsByNumber}
use kilix_telemetry.Collect.Errors.{processes-FailsByNumber}
use kilix_telemetry.Collect.Published.{IsCoherent, processes-IsCoherent}
use kilix_telemetry.Collect.Snapshots.{IsSample, sample-IsSample}
use kilix_telemetry.Tests.Instances.{Float, python, python_laws, decimal, int_of_test_float}

abbrev is_some {ℓ} : {A : Type ℓ} → Option A → Bool
is_some none = false
is_some (some a) = true

abbrev pub unicode : Unicode
unicode = record { is_printable = λ c. true; lower = λ s. s; is_digits = λ s. is_some (decimal s) }

abbrev add_float : Float → Float → Float
add_float (some a) (some b) = some (a +ℤ b)
add_float _ _ = none

abbrev sub_float : Float → Float → Float
sub_float (some a) (some b) = some (a -ℤ b)
sub_float _ _ = none

-- Quotients are their numerators.
abbrev pub arithmetic : Arithmetic Float
arithmetic = record {
  whole = λ n. some (pos n);
  add = add_float;
  sub = sub_float;
  mul = λ a b. b;
  div = λ a b. a;
  absolute = λ a. a;
  int_quotient = λ a b. ok (some a);
  three_digits = λ a. a;
  round = int_of_test_float;
}

between : BetweenIsFinite python
between none low high = absurd (cc)
between (some z) low high = refl

-- The stat file of a process with its parent's PID and its user ticks.
abbrev stat_file : String → String → String
stat_file ppid ticks =
    Str.◌++◌ "7 (sh) S "
      (Str.◌++◌ ppid (Str.◌++◌ " 0 0 0 0 0 0 0 0 0 " (Str.◌++◌ ticks " 4 0 0 0 0 1 0 5 600 7")))

abbrev directory : String → String → String → ProcessFiles
directory name ppid ticks = record {
  directory = name;
  stat = stat_file ppid ticks;
  status = "Uid: 5 5\nRssAnon: 2 kB\n";
  cmdline = "sh";
}

abbrev settings : Settings
settings = record {
  process_interval_ns = pos 2;
  metadata_interval_ns = pos 5;
  pss_interval_ns = pos 2;
  ticks_per_second = pos 100;
  page_size = pos 2;
  uid = pos 5;
}

abbrev process_state : ProcessState Float
process_state = record {
  process_sample_ns = none;
  process_pss_roots = [];
  process_cache = [];
  pane_cache = [];
  previous_process_when_ns = none;
  previous_processes = [];
  previous_pane_ticks = [];
  pss_cache = [];
  metadata_cache = [];
}

abbrev sensor_state : SensorState Float
sensor_state = record {
  thermal_sample_ns = none;
  thermal_cache = [];
  fan_cache = [];
  sensors_scanned_ns = none;
  rescan_sensors = false;
  temperature_sources = [];
  fan_sources = [];
}

abbrev pub collector : Collector Float
collector = record {
  settings = settings;
  thermal_interval_ns = pos 2;
  sensor_rescan_ns = pos 60;
  boot_id = "boot";
  sequence = pos 0;
  previous_when_ns = none;
  previous_cpu = none;
  previous_per_cpu = [];
  process_state = process_state;
  sensor_state = sensor_state;
  frequency = (none, []);
}

abbrev meminfo_file : String
meminfo_file = "MemTotal: 100 kB\nMemFree: 40 kB\nMemAvailable: 300 kB\n"

abbrev stat_of_cpus : String
stat_of_cpus = "cpu 10 0 10 80\ncpu0 10 0 10 80\nintr 1\n"

abbrev pub idle_machine : Machine Float
idle_machine = record {
  monotonic_ns = pos 12;
  wall_time_ns = pos 11;
  cpu_count = pos 1;
  stat = "";
  loadavg = "";
  uptime = "";
  meminfo = "";
  vmstat = "";
  pressure = λ resource. "";
  cpuinfo = "";
  scaling = λ cpu. "";
  directories = [];
  smaps = λ pid. "";
  sensors = record { text = λ path. ""; exists = λ path. false };
  found = ([], []);
}

abbrev machine : Machine Float
machine = record idle_machine {
  stat = stat_of_cpus;
  meminfo = meminfo_file;
  directories = directory "30" "1" "3" ∷ directory "x" "1" "3" ∷ directory "7" "30" "2" ∷ [];
  smaps = λ pid. "Rss: 4 kB\nPss: 3 kB\n";
}

abbrev after_sample : Result (Collector Float × Snapshot Float) → List (PaneMetrics Float)
after_sample (ok r) = r.1.panes
after_sample (err e) = []

-- The pane of process 30 has both processes.
pane_30 :
    after_sample (sample python unicode arithmetic collector machine (pos 30 ∷ negsuc 3 ∷ []))
    ≡ record {
      root_pid = pos 30;
      process_count = pos 2;
      cpu_cores = some (pos 0);
      rss_bytes = pos 28;
      proportional_bytes = pos 6144;
      complete_pss = true;
    }
      ∷ []
unfolding quotient sample system_of ◌+ℤ◌ ◌-ℤ◌ ◌*ℤ◌ ◌==ℤ◌ traverse sum_ℤ contains add extend sort_by
    insert children_of append_child index_processes process_children walk child_count
    descendant_pids prefix by_pid proportional has_pss is_space is_break suffix_from is_empty split
    split_lines split_at strip find rfind begins_with masked safe_text lookup assign keep_keys
    key_values_of key_values nonnegative nonnegatives number temperature_within temperature
    with_unit amount_of ticks_of max_key range_from logical_of busy_percent cpu_percent note_ticks
    cpu_fields cpu_lines percent_at cpu with_available is_vm_key meminfo_entries meminfo vm_fields
    vm_lines vm nonnegative_float three_floats loads first_float uptime pressure_item pressure_items
    pressure_lines pressure same_process spaced field_at int_of_text int_field stat_of stat_between
    parse_stat status_bytes uid_of process_meta is_stale metadata raw_of_meta process_of_stat
    raw_process positive_set same_roots raw_by_pid tree_pids in_some_tree readings is_live
    pss_fields pss_lines pss pss_if cores_of denominator_of process_cores metrics_of all_metrics
    tree_cores root_cores pane_of all_panes numbered raw_processes since reuses sampled processes
    is_within read_temperatures read_fans scanned refreshed thermal set_at note_mhz cpuinfo_line
    cpuinfo_lines scaled_khz filled_in frequencies cpu_frequency
pane_30 = refl

meminfo-IsBounded_example :
    AreAmounts (meminfo python unicode meminfo_file)
    × IsBounded (meminfo python unicode meminfo_file)
meminfo-IsBounded_example = meminfo-IsBounded python unicode meminfo_file

cpu-AreShares_example :
    Ensures
      (AreShares python python_laws between arithmetic unicode)
      (cpu python arithmetic unicode (pos 1) stat_of_cpus (some (pos 40, pos 30)) [])
cpu-AreShares_example =
    cpu-AreShares python python_laws between arithmetic unicode (pos 1) stat_of_cpus
      (some (pos 40, pos 30)) []

processes-IsCoherent_example : Ensures (IsCoherent python) (
    processes python unicode arithmetic settings process_state
      (pos 12)
      machine.directories
      machine.smaps
      (pos 30 ∷ []))
processes-IsCoherent_example =
    processes-IsCoherent python unicode arithmetic settings process_state (pos 12)
      machine.directories machine.smaps (pos 30 ∷ []) tt

sample-IsSample_example :
    Ensures
      (λ r. IsSample python unicode collector r.0 machine r.1)
      (sample python unicode arithmetic collector machine (pos 30 ∷ []))
sample-IsSample_example =
    sample-IsSample python unicode python_laws between arithmetic collector machine (pos 30 ∷ []) tt

float_above_zero :
    (d : Float) → python.lt python.zero_float d ≡ true → python.eq d python.zero_float ≡ false
float_above_zero none above = refl
float_above_zero (some a) above = ground (arith, ==ℤ_iff a (pos 0))

processes-FailsByNumber_example : FailsByNumber (
    processes python unicode arithmetic settings process_state
      (pos 12)
      machine.directories
      machine.smaps
      (pos 30 ∷ []))
processes-FailsByNumber_example =
    processes-FailsByNumber python arithmetic float_above_zero (λ ticks. tt) unicode settings
      process_state (pos 12) machine.directories machine.smaps (pos 30 ∷ [])
