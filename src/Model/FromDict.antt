-- ===== src/Model/FromDict.antt =====
-- The readers of model.py: the `from_dict` class methods. Each is the chain of conversions of the
-- source, in its order; what a conversion raises and does not catch ends the chain.
use kilix_telemetry.Common.{
  ℕ, ℤ, pos, max_ℤ, min_ℤ, String, Option, none, some, List, [], ◌∷◌, length, take, Result, ok, err,
  value_error, type_error, ◌>>=◌, ◌>>◌, ◌==ℤ◌, if◌then◌else◌, traverse,
}
use kilix_telemetry.Values.{
  Value, Fields, Python, null, str, list, dict, nil, end, get, get_default, list_of, entries_of,
  mappings, is_true, prefix, text_of, max_float, min_float, finite_float, nonnegative_int,
}
use kilix_telemetry.Model.{
  schema_version, ThermalSensor, FanSensor, ProcessMetrics, SystemMetrics, PaneMetrics, Snapshot,
}

module _ {F : Type 0} (py : Python F) where
  -- `str(value.get(name, default))[:limit]`
  abbrev pub text_field : String → String → ℕ → Fields F → String
  text_field name default limit value =
      prefix limit (text_of py (get_default name (str default) value))

  -- `None if raw is None else _finite_float(raw)`
  unfoldable pub optional_float : Value F → Result (Option F)
  optional_float null = ok none
  optional_float raw = do parsed ← finite_float py raw py.zero_float; ok (some parsed)

  -- `None if pss is None else _nonnegative_int(pss)`
  unfoldable pub optional_int : Value F → Result (Option ℤ)
  optional_int null = ok none
  optional_int raw = do parsed ← nonnegative_int py raw; ok (some parsed)

  -- `max(0.0, _finite_float(raw))`
  unfoldable pub clamped_float : Value F → Result F
  clamped_float raw = do
    parsed ← finite_float py raw py.zero_float
    ok (max_float py py.zero_float parsed)

  -- `None if cpu is None else max(0.0, min(100.0, _finite_float(cpu)))`
  unfoldable pub optional_percent : Value F → Result (Option F)
  optional_percent null = ok none
  optional_percent raw = do
    parsed ← finite_float py raw py.zero_float
    ok (some (max_float py py.zero_float (min_float py py.hundred_float parsed)))

  -- `max(1, _nonnegative_int(raw))`
  unfoldable pub at_least_one : Value F → Result ℤ
  at_least_one raw = do parsed ← nonnegative_int py raw; ok (max_ℤ (pos 1) parsed)

  -- `min(200_000, _nonnegative_int(raw))`
  unfoldable pub capped_rpm : Value F → Result ℤ
  capped_rpm raw = do parsed ← nonnegative_int py raw; ok (min_ℤ (pos 200_000) parsed)

  -- One element of `optional_floats`.
  unfoldable pub optional_floats_item : Value F → Result (Option F)
  optional_floats_item null = ok none
  optional_floats_item item = do
    parsed ← finite_float py item py.minus_one_float
    ok (if py.le py.zero_float parsed then some parsed else none)

  -- `optional_floats`, on `value.get(name, ())`
  unfoldable pub optional_floats : Value F → Result (List (Option F))
  optional_floats (list raw) = traverse optional_floats_item (take 4096 (list_of raw))
  optional_floats _ = ok []

  -- `str(key): _finite_float(number)` and `str(key): _nonnegative_int(number)`
  unfoldable pub pressure_line : String × Value F → Result (String × F)
  pressure_line (key, number) = do parsed ← finite_float py number py.zero_float; ok (key, parsed)

  unfoldable pub vm_line : String × Value F → Result (String × ℤ)
  vm_line (key, number) = do parsed ← nonnegative_int py number; ok (key, parsed)

  -- The loop over `raw_pressure.items()`, which passes over lines that are no mapping.
  unfoldable pub pressure_resources :
      List (String × Value F) → Result (List (String × List (String × F)))
  pressure_resources [] = ok []
  pressure_resources ((resource, dict lines) ∷ rest) = do
    parsed ← traverse pressure_line (entries_of lines)
    others ← pressure_resources rest
    ok ((resource, parsed) ∷ others)
  pressure_resources ((resource, _) ∷ rest) = pressure_resources rest

  unfoldable pub pressure_of : Value F → Result (List (String × List (String × F)))
  pressure_of (dict raw) = pressure_resources (entries_of raw)
  pressure_of _ = ok []

  unfoldable pub vm_of : Value F → Result (List (String × ℤ))
  vm_of (dict raw) = traverse vm_line (entries_of raw)
  vm_of _ = ok []

  unfoldable pub thermal_from_dict : Fields F → Result (ThermalSensor F)
  thermal_from_dict value = do
    celsius ← finite_float py (get "celsius" value) py.zero_float
    warning_celsius ← optional_float (get "warning_celsius" value)
    critical_celsius ← optional_float (get "critical_celsius" value)
    ok (record {
      key = text_field "key" "" 256 value;
      chip = text_field "chip" "" 80 value;
      label = text_field "label" "" 80 value;
      source = text_field "source" "" 80 value;
      celsius = celsius;
      warning_celsius = warning_celsius;
      critical_celsius = critical_celsius;
    })

  unfoldable pub fan_from_dict : Fields F → Result FanSensor
  fan_from_dict value = do
    rpm ← capped_rpm (get "rpm" value)
    ok (record {
      key = text_field "key" "" 256 value;
      chip = text_field "chip" "" 80 value;
      label = text_field "label" "" 80 value;
      source = text_field "source" "" 80 value;
      rpm = rpm;
    })

  unfoldable pub process_from_dict : Fields F → Result (ProcessMetrics F)
  process_from_dict value = do
    pid ← nonnegative_int py (get "pid" value)
    ppid ← nonnegative_int py (get "ppid" value)
    start_ticks ← nonnegative_int py (get "start_ticks" value)
    cpu_ticks ← nonnegative_int py (get "cpu_ticks" value)
    cpu_cores ← clamped_float (get "cpu_cores" value)
    rss_bytes ← nonnegative_int py (get "rss_bytes" value)
    pss_bytes ← optional_int (get "pss_bytes" value)
    virtual_bytes ← nonnegative_int py (get "virtual_bytes" value)
    uid ← nonnegative_int py (get "uid" value)
    threads ← at_least_one (get "threads" value)
    anon_bytes ← nonnegative_int py (get "anon_bytes" value)
    file_bytes ← nonnegative_int py (get "file_bytes" value)
    shared_bytes ← nonnegative_int py (get "shared_bytes" value)
    ok (record {
      pid = pid;
      ppid = ppid;
      start_ticks = start_ticks;
      cpu_ticks = cpu_ticks;
      cpu_cores = cpu_cores;
      rss_bytes = rss_bytes;
      pss_bytes = pss_bytes;
      virtual_bytes = virtual_bytes;
      uid = uid;
      name = text_field "name" "" 80 value;
      state = text_field "state" "?" 8 value;
      threads = threads;
      command = text_field "command" "" 4096 value;
      anon_bytes = anon_bytes;
      file_bytes = file_bytes;
      shared_bytes = shared_bytes;
    })

  unfoldable pub system_from_dict : Fields F → Result (SystemMetrics F)
  system_from_dict value = do
    pressure ← pressure_of (get_default "pressure" (dict end) value)
    vm ← vm_of (get_default "vm" (dict end) value)
    cpu_percent ← optional_percent (get "cpu_percent" value)
    load_1 ← clamped_float (get "load_1" value)
    load_5 ← clamped_float (get "load_5" value)
    load_15 ← clamped_float (get "load_15" value)
    logical_cpus ← at_least_one (get "logical_cpus" value)
    uptime_seconds ← clamped_float (get "uptime_seconds" value)
    memory_total ← nonnegative_int py (get "memory_total" value)
    memory_available ← nonnegative_int py (get "memory_available" value)
    memory_free ← nonnegative_int py (get "memory_free" value)
    memory_buffers ← nonnegative_int py (get "memory_buffers" value)
    memory_cached ← nonnegative_int py (get "memory_cached" value)
    memory_reclaimable ← nonnegative_int py (get "memory_reclaimable" value)
    memory_shared ← nonnegative_int py (get "memory_shared" value)
    memory_active ← nonnegative_int py (get "memory_active" value)
    memory_inactive ← nonnegative_int py (get "memory_inactive" value)
    memory_anon ← nonnegative_int py (get "memory_anon" value)
    memory_slab ← nonnegative_int py (get "memory_slab" value)
    memory_page_tables ← nonnegative_int py (get "memory_page_tables" value)
    memory_kernel_stack ← nonnegative_int py (get "memory_kernel_stack" value)
    memory_dirty ← nonnegative_int py (get "memory_dirty" value)
    memory_writeback ← nonnegative_int py (get "memory_writeback" value)
    swap_total ← nonnegative_int py (get "swap_total" value)
    swap_free ← nonnegative_int py (get "swap_free" value)
    per_cpu_percent ← optional_floats (get_default "per_cpu_percent" (list nil) value)
    cpu_frequency_mhz ← optional_floats (get_default "cpu_frequency_mhz" (list nil) value)
    memory_huge_total ← nonnegative_int py (get "memory_huge_total" value)
    memory_huge_free ← nonnegative_int py (get "memory_huge_free" value)
    memory_huge_page_size ← nonnegative_int py (get "memory_huge_page_size" value)
    ok (record {
      cpu_percent = cpu_percent;
      load_1 = load_1;
      load_5 = load_5;
      load_15 = load_15;
      logical_cpus = logical_cpus;
      uptime_seconds = uptime_seconds;
      memory_total = memory_total;
      memory_available = memory_available;
      memory_free = memory_free;
      memory_buffers = memory_buffers;
      memory_cached = memory_cached;
      memory_reclaimable = memory_reclaimable;
      memory_shared = memory_shared;
      memory_active = memory_active;
      memory_inactive = memory_inactive;
      memory_anon = memory_anon;
      memory_slab = memory_slab;
      memory_page_tables = memory_page_tables;
      memory_kernel_stack = memory_kernel_stack;
      memory_dirty = memory_dirty;
      memory_writeback = memory_writeback;
      swap_total = swap_total;
      swap_free = swap_free;
      pressure = pressure;
      vm = vm;
      per_cpu_percent = per_cpu_percent;
      cpu_frequency_mhz = cpu_frequency_mhz;
      memory_huge_total = memory_huge_total;
      memory_huge_free = memory_huge_free;
      memory_huge_page_size = memory_huge_page_size;
    })

  unfoldable pub pane_from_dict : Fields F → Result (PaneMetrics F)
  pane_from_dict value = do
    root_pid ← nonnegative_int py (get "root_pid" value)
    process_count ← nonnegative_int py (get "process_count" value)
    cpu_cores ← clamped_float (get "cpu_cores" value)
    rss_bytes ← nonnegative_int py (get "rss_bytes" value)
    proportional_bytes ← nonnegative_int py (get "proportional_bytes" value)
    ok (record {
      root_pid = root_pid;
      process_count = process_count;
      cpu_cores = cpu_cores;
      rss_bytes = rss_bytes;
      proportional_bytes = proportional_bytes;
      complete_pss = is_true (get "complete_pss" value);
    })

  -- `value.get(name, ())`, which must be a list or a tuple.
  unfoldable pub array : String → Fields F → Result (List (Value F))
  array name value = elim (get_default name (list nil) value) [
    | list raw ↦ ok (list_of raw)
    | _ ↦ err type_error
  ]

  -- `value.get("system")`, which must be a mapping.
  unfoldable pub mapping : Value F → Result (Fields F)
  mapping (dict fields) = ok fields
  mapping _ = err type_error

  unfoldable pub supported : ℤ → Result (Unit {0})
  supported schema = if schema ==ℤ schema_version then ok tt else err value_error

  unfoldable pub from_dict : Fields F → Result (Snapshot F)
  from_dict value = do
    schema ← nonnegative_int py (get "schema" value)
    supported schema
    raw_system ← mapping (get "system" value)
    raw_thermal ← array "thermal" value
    raw_processes ← array "processes" value
    raw_fans ← array "fans" value
    raw_panes ← array "panes" value
    processes ← traverse process_from_dict (mappings raw_processes)
    sequence ← nonnegative_int py (get "sequence" value)
    wall_time_ns ← nonnegative_int py (get "wall_time_ns" value)
    monotonic_ns ← nonnegative_int py (get "monotonic_ns" value)
    interval_ns ← nonnegative_int py (get "interval_ns" value)
    system ← system_from_dict raw_system
    thermal ← traverse thermal_from_dict (mappings raw_thermal)
    fans ← traverse fan_from_dict (mappings raw_fans)
    panes ← traverse pane_from_dict (mappings raw_panes)
    processes_total ← nonnegative_int py (get "processes_total" value)
    ok (record {
      sequence = sequence;
      wall_time_ns = wall_time_ns;
      monotonic_ns = monotonic_ns;
      interval_ns = interval_ns;
      boot_id = text_field "boot_id" "" 128 value;
      system = system;
      thermal = thermal;
      processes = processes;
      fans = fans;
      schema = schema;
      panes = panes;
      processes_total = max_ℤ (pos (length processes)) processes_total;
      processes_truncated = is_true (get "processes_truncated" value);
    })
