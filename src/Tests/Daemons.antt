-- ===== src/Tests/Daemons.antt =====
-- One round of the sampling loop on an idle machine.
use kilix_telemetry.Common.{
  pos, ◌+ℤ◌, ◌-ℤ◌, ◌*ℤ◌, ◌==ℤ◌, ◌≡◌, refl, sym, ap, ◌∙◌, true, false, none, some, Result, ok, err,
  [], ◌∷◌, length, leb, arith, traverse, sum_ℤ,
}
use kilix_telemetry.IntSet.{contains, add, extend}
use kilix_telemetry.Sorting.{sort_by, insert}
use kilix_telemetry.Tree.{
  children_of, append_child, index_processes, process_children, walk, child_count, descendant_pids,
}
use kilix_telemetry.Json.{dumps}
use kilix_telemetry.Values.{
  prefix, mappings, text_of, int_of, float_of, nonnegative_int, finite_float, dict,
}
use kilix_telemetry.Values.Laws.{Ensures-ok}
use kilix_telemetry.Model.{SystemMetrics, Snapshot}
use kilix_telemetry.Model.ToDict.{to_dict, system_dict, process_dict}
use kilix_telemetry.Model.FromDict.{
  from_dict, supported, mapping, array, process_from_dict, system_from_dict, optional_float,
  optional_int, clamped_float, optional_percent, at_least_one, optional_floats,
  optional_floats_item, pressure_of, pressure_resources, pressure_line, vm_of, vm_line,
}
use kilix_telemetry.Model.Records.{IsWireRecord}
use kilix_telemetry.Model.Limits.{from_dict-IsWireRecord}
use kilix_telemetry.Ring.{Codec, CodecLaws}
use kilix_telemetry.Ring.Fit.{encode, pack, fit}
use kilix_telemetry.Ring.Writer.{Writer, publish}
use kilix_telemetry.Ring.Log.{publish-Holds}
use kilix_telemetry.Panes.{by_pid, proportional, has_pss}
use kilix_telemetry.Text.{
  is_space, is_break, suffix_from, is_empty, split, split_lines, split_at, strip, find, rfind,
  begins_with, masked, safe_text,
}
use kilix_telemetry.Dict.{lookup, assign, keep_keys}
use kilix_telemetry.Collect.{
  quotient, key_values_of, key_values, nonnegative, nonnegatives, number, temperature_within,
  temperature, with_unit, amount_of,
}
use kilix_telemetry.Collect.Cpu.{
  ticks_of, max_key, range_from, logical_of, busy_percent, cpu_percent, note_ticks, cpu_fields,
  cpu_lines, percent_at, cpu,
}
use kilix_telemetry.Collect.Memory.{
  with_available, is_vm_key, meminfo_entries, meminfo, vm_fields, vm_lines, vm, nonnegative_float,
  three_floats, loads, first_float, uptime, pressure_item, pressure_items, pressure_lines, pressure,
}
use kilix_telemetry.Collect.Stat.{
  same_process, spaced, field_at, int_of_text, int_field, stat_of, stat_between, parse_stat,
  status_bytes, uid_of, process_meta, is_stale, metadata, raw_of_meta, process_of_stat, raw_process,
}
use kilix_telemetry.Collect.Processes.{
  cores_of, denominator_of, process_cores, metrics_of, all_metrics, tree_cores, root_cores, pane_of,
  all_panes, numbered, raw_processes, since, reuses, sampled, processes,
}
use kilix_telemetry.Collect.Pss.{pss_fields, pss_lines, pss, pss_if}
use kilix_telemetry.Collect.Trees.{
  positive_set, same_roots, raw_by_pid, tree_pids, in_some_tree, readings, is_live,
}
use kilix_telemetry.Collect.Sensors.{
  is_within, read_temperatures, read_fans, scanned, refreshed, thermal, set_at, note_mhz,
  cpuinfo_line, cpuinfo_lines, scaled_khz, filled_in, frequencies, cpu_frequency,
}
use kilix_telemetry.Collect.Sample.{Collector, system_of, sample}
use kilix_telemetry.Registry.{registered_roots}
use kilix_telemetry.Daemon.{
  Config, Round, Daemon, continues, sampled_round, serve_sample, serve_round, still_wanted,
  published, finished, announced, next_deadline,
}
use kilix_telemetry.Daemon.Serving.{
  IsKept, IsNext-of_IsKept, Served, begun, then_served, IsServing, Served-IsServing,
}
use kilix_telemetry.Daemon.Idle.{register-still_wanted}
use kilix_telemetry.Tests.Instances.{Float, python, python_laws, codec, codec_laws}
use kilix_telemetry.Tests.Rings.{writer, writer-Holds, writer_size}
use kilix_telemetry.Tests.Machines.{unicode, arithmetic, collector, idle_machine}
use kilix_telemetry.Tests.Lifetimes.{
  one_number, boot_1, lifetime_codec, written, first_registered, alive, reads_back, written_small,
}

abbrev system : SystemMetrics Float
system = record {
  cpu_percent = none;
  load_1 = some (pos 0);
  load_5 = some (pos 0);
  load_15 = some (pos 0);
  logical_cpus = pos 1;
  uptime_seconds = some (pos 0);
  memory_total = pos 0;
  memory_available = pos 0;
  memory_free = pos 0;
  memory_buffers = pos 0;
  memory_cached = pos 0;
  memory_reclaimable = pos 0;
  memory_shared = pos 0;
  memory_active = pos 0;
  memory_inactive = pos 0;
  memory_anon = pos 0;
  memory_slab = pos 0;
  memory_page_tables = pos 0;
  memory_kernel_stack = pos 0;
  memory_dirty = pos 0;
  memory_writeback = pos 0;
  swap_total = pos 0;
  swap_free = pos 0;
  pressure = [];
  vm = [];
  per_cpu_percent = none ∷ [];
  cpu_frequency_mhz = none ∷ [];
  memory_huge_total = pos 0;
  memory_huge_free = pos 0;
  memory_huge_page_size = pos 0;
}

-- What the idle machine is sampled to.
abbrev idle : Snapshot Float
idle = record {
  sequence = pos 1;
  wall_time_ns = pos 11;
  monotonic_ns = pos 12;
  interval_ns = pos 0;
  boot_id = "boot";
  system = system;
  thermal = [];
  processes = [];
  fans = [];
  schema = pos 1;
  panes = [];
  processes_total = pos 0;
  processes_truncated = false;
}

abbrev idle_codec : Codec Float
idle_codec = record codec { loads = λ raw. some (dict (to_dict idle)) }

idle_laws : CodecLaws idle_codec
idle_laws = record {
  decompress-compress = codec_laws.decompress-compress;
  compress-nonempty = codec_laws.compress-nonempty;
}

abbrev config : Config Float
config = record {
  interval = some (pos 1);
  once = false;
  idle_timeout = some (pos 0);
  stale_ns = pos 15;
}

abbrev round : Round Float
round = record {
  stopping = false;
  consumers_file = none;
  process_identity = λ pid. none;
  idle_now = some (pos 1);
  panes_file = none;
  panes_now = pos 12;
  machine = idle_machine;
  publish_now = pos 20;
  pause_now = some (pos 1);
  late_now = some (pos 1);
}

abbrev start : Daemon Float
start = record {
  collector = collector;
  writer = writer;
  idle_since = some (pos 0);
  deadline = some (pos 0);
  first = true;
  ready_calls = 0;
}

abbrev counted : Result (Collector Float × Snapshot Float) → Collector Float
counted (ok r) = r.0
counted (err e) = collector

abbrev sampled_collector : Collector Float
sampled_collector = counted (sample python unicode arithmetic collector idle_machine [])

idle_sampled :
    sampled_round python arithmetic idle_codec unicode config round collector
    ≡ ok (sampled_collector, idle)
unfolding quotient sampled_round registered_roots sample system_of ◌+ℤ◌ ◌-ℤ◌ ◌*ℤ◌ ◌==ℤ◌ traverse
    sum_ℤ contains add extend sort_by insert children_of append_child index_processes
    process_children walk child_count descendant_pids prefix by_pid proportional has_pss is_space
    is_break suffix_from is_empty split split_lines split_at strip find rfind begins_with masked
    safe_text lookup assign keep_keys key_values_of key_values nonnegative nonnegatives number
    temperature_within temperature with_unit amount_of ticks_of max_key range_from logical_of
    busy_percent cpu_percent note_ticks cpu_fields cpu_lines percent_at cpu with_available is_vm_key
    meminfo_entries meminfo vm_fields vm_lines vm nonnegative_float three_floats loads first_float
    uptime pressure_item pressure_items pressure_lines pressure same_process spaced field_at
    int_of_text int_field stat_of stat_between parse_stat status_bytes uid_of process_meta is_stale
    metadata raw_of_meta process_of_stat raw_process positive_set same_roots raw_by_pid tree_pids
    in_some_tree readings is_live pss_fields pss_lines pss pss_if cores_of denominator_of
    process_cores metrics_of all_metrics tree_cores root_cores pane_of all_panes numbered
    raw_processes since reuses sampled processes is_within read_temperatures read_fans scanned
    refreshed thermal set_at note_mhz cpuinfo_line cpuinfo_lines scaled_khz filled_in frequencies
    cpu_frequency
idle_sampled = refl

idle_reads_back : from_dict python (to_dict idle) ≡ ok idle
unfolding from_dict supported mapping array process_from_dict system_from_dict optional_float
    optional_int clamped_float optional_percent at_least_one optional_floats optional_floats_item
    pressure_of pressure_resources pressure_line vm_of vm_line to_dict system_dict process_dict
    prefix mappings text_of int_of float_of nonnegative_int finite_float traverse ◌==ℤ◌
idle_reads_back = refl

idle_small : leb (length (encode idle_codec idle).payload) 65472 ≡ true
unfolding encode pack dumps to_dict system_dict process_dict
idle_small = refl

idle_raw_small : leb (encode idle_codec idle).raw_size 67108864 ≡ true
unfolding encode pack dumps to_dict system_dict process_dict
idle_raw_small = refl

idle_whole : fit python idle_codec idle 65472 ≡ ok (encode idle_codec idle)
unfolding fit
idle_whole = rw idle_small

idle-IsKept : IsKept idle_codec python writer (pos 20) idle idle 1
idle-IsKept = record {
  chosen = rw writer_size idle_whole;
  room = ground (arith, idle_small, writer_size);
  kept_sequence = refl;
  kept_monotonic_ns = refl;
  kept_wall_time_ns = refl;
  kept_valid =
      Ensures-ok (IsWireRecord python) (from_dict python (to_dict idle)) idle
        (from_dict-IsWireRecord python python_laws (to_dict idle)) idle_reads_back;
  kept_readable = refl;
  sequence_fits = ground arith;
  monotonic_fits = ground arith;
  wall_fits = ground arith;
  now_fits = ground arith;
  raw_room = ground (arith, idle_raw_small);
}

start-IsServing : IsServing python arithmetic idle_codec unicode config [] start
start-IsServing = (writer-Holds idle_codec idle_laws, refl)

abbrev next : Daemon Float
next = record start {
  collector = sampled_collector;
  writer = (publish idle_codec python writer (pos 20) idle).0;
  deadline = some (pos 1);
  first = false;
  ready_calls = 1;
}

idle_published :
    publish idle_codec python writer (pos 20) idle
    ≡ ((publish idle_codec python writer (pos 20) idle).0, ok tt)
idle_published =
    let (w', e, holds) =
      publish-Holds idle_codec idle_laws python writer (pos 20) idle idle []
        (writer-Holds idle_codec idle_laws)
        (IsNext-of_IsKept idle_codec python writer (pos 20) idle idle 1 refl idle-IsKept) in
    let reached : (publish idle_codec python writer (pos 20) idle).0 ≡ w' =
      ap (λ (r : Writer × Result (Unit {0})). r.0) e in
    e ∙ ap (λ (v : Writer). (v, ok tt)) (sym reached)

round_served : serve_round python arithmetic idle_codec unicode config start round ≡ continues next
unfolding serve_round serve_sample still_wanted published finished announced next_deadline ◌-ℤ◌ ◌+ℤ◌
round_served =
    ap (serve_sample python arithmetic idle_codec unicode config round start) idle_sampled
    ∙ ap
        (λ (r : Writer × Result (Unit {0})).
          published python arithmetic idle_codec config round
            (record start { collector = sampled_collector; writer = r.0 }) r.1)
        idle_published

Served-once : Served python arithmetic idle_codec unicode config start (idle ∷ []) next
Served-once =
    then_served (begun refl) round sampled_collector idle idle idle_sampled idle-IsKept round_served

Served-IsServing_example : IsServing python arithmetic idle_codec unicode config (idle ∷ []) next
Served-IsServing_example =
    Served-IsServing python arithmetic idle_codec unicode config idle_laws start start-IsServing
      Served-once

-- A round that sees the file that a consumer's registration left.
abbrev busy_round : Round Float
busy_round = record round { process_identity = boot_1; consumers_file = some written }

abbrev short_config : Config Float
short_config = record config { idle_timeout = some (pos 5) }

register-still_wanted_example :
    (since : Float) × (still_wanted one_number arithmetic lifetime_codec short_config busy_round
        (some (pos 0))
      ≡ some since)
register-still_wanted_example =
    register-still_wanted one_number arithmetic lifetime_codec short_config busy_round none (pos 42)
      "boot:1" (some (pos 0)) alive refl first_registered reads_back (ground (arith, written_small))
