-- ===== src/Model/ToDict.antt =====
-- The wire dictionaries of model.py: `_thermal_dict`, `_fan_dict`, `_process_dict`, `_system_dict`,
-- `_pane_dict` and `Snapshot.to_dict`, with their keys in the source's order.
use kilix_telemetry.Common.{ℤ, String, Option, none, some, List, [], ◌∷◌, map}
use kilix_telemetry.Values.{
  Value, Fields, null, bool, int, float, str, list, dict, items_of, fields_of,
}
use kilix_telemetry.Model.{
  ThermalSensor, FanSensor, ProcessMetrics, SystemMetrics, PaneMetrics, Snapshot,
}

module _ {F : Type 0} where
  abbrev pub float_or_null : Option F → Value F
  float_or_null none = null
  float_or_null (some f) = float f

  abbrev pub int_or_null : Option ℤ → Value F
  int_or_null none = null
  int_or_null (some z) = int z

  -- `dict(values)` for each resource, and `dict(vm)`.
  abbrev pub float_entry : String × F → String × Value F
  float_entry (key, number) = (key, float number)

  abbrev pub int_entry : String × ℤ → String × Value F
  int_entry (key, number) = (key, int number)

  abbrev pub resource_entry : String × List (String × F) → String × Value F
  resource_entry (resource, lines) = (resource, dict (fields_of (map float_entry lines)))

  abbrev pub pressure_dict : List (String × List (String × F)) → Value F
  pressure_dict pressure = dict (fields_of (map resource_entry pressure))

  abbrev pub vm_dict : List (String × ℤ) → Value F
  vm_dict vm = dict (fields_of (map int_entry vm))

  unfoldable pub thermal_dict : ThermalSensor F → Fields F
  thermal_dict thermal = fields_of (
      ("key", str thermal.key)
      ∷ ("chip", str thermal.chip)
      ∷ ("label", str thermal.label)
      ∷ ("source", str thermal.source)
      ∷ ("celsius", float thermal.celsius)
      ∷ ("warning_celsius", float_or_null thermal.warning_celsius)
      ∷ ("critical_celsius", float_or_null thermal.critical_celsius)
      ∷ [])

  unfoldable pub fan_dict : FanSensor → Fields F
  fan_dict fan = fields_of (
      ("key", str fan.key)
      ∷ ("chip", str fan.chip)
      ∷ ("label", str fan.label)
      ∷ ("source", str fan.source)
      ∷ ("rpm", int fan.rpm)
      ∷ [])

  unfoldable pub process_dict : ProcessMetrics F → Fields F
  process_dict process = fields_of (
      ("pid", int process.pid)
      ∷ ("ppid", int process.ppid)
      ∷ ("start_ticks", int process.start_ticks)
      ∷ ("cpu_ticks", int process.cpu_ticks)
      ∷ ("cpu_cores", float process.cpu_cores)
      ∷ ("rss_bytes", int process.rss_bytes)
      ∷ ("pss_bytes", int_or_null process.pss_bytes)
      ∷ ("virtual_bytes", int process.virtual_bytes)
      ∷ ("uid", int process.uid)
      ∷ ("name", str process.name)
      ∷ ("state", str process.state)
      ∷ ("threads", int process.threads)
      ∷ ("command", str process.command)
      ∷ ("anon_bytes", int process.anon_bytes)
      ∷ ("file_bytes", int process.file_bytes)
      ∷ ("shared_bytes", int process.shared_bytes)
      ∷ [])

  unfoldable pub system_dict : SystemMetrics F → Fields F
  system_dict system = fields_of (
      ("cpu_percent", float_or_null system.cpu_percent)
      ∷ ("load_1", float system.load_1)
      ∷ ("load_5", float system.load_5)
      ∷ ("load_15", float system.load_15)
      ∷ ("logical_cpus", int system.logical_cpus)
      ∷ ("uptime_seconds", float system.uptime_seconds)
      ∷ ("memory_total", int system.memory_total)
      ∷ ("memory_available", int system.memory_available)
      ∷ ("memory_free", int system.memory_free)
      ∷ ("memory_buffers", int system.memory_buffers)
      ∷ ("memory_cached", int system.memory_cached)
      ∷ ("memory_reclaimable", int system.memory_reclaimable)
      ∷ ("memory_shared", int system.memory_shared)
      ∷ ("memory_active", int system.memory_active)
      ∷ ("memory_inactive", int system.memory_inactive)
      ∷ ("memory_anon", int system.memory_anon)
      ∷ ("memory_slab", int system.memory_slab)
      ∷ ("memory_page_tables", int system.memory_page_tables)
      ∷ ("memory_kernel_stack", int system.memory_kernel_stack)
      ∷ ("memory_dirty", int system.memory_dirty)
      ∷ ("memory_writeback", int system.memory_writeback)
      ∷ ("swap_total", int system.swap_total)
      ∷ ("swap_free", int system.swap_free)
      ∷ ("pressure", pressure_dict system.pressure)
      ∷ ("vm", vm_dict system.vm)
      ∷ ("per_cpu_percent", list (items_of (map float_or_null system.per_cpu_percent)))
      ∷ ("cpu_frequency_mhz", list (items_of (map float_or_null system.cpu_frequency_mhz)))
      ∷ ("memory_huge_total", int system.memory_huge_total)
      ∷ ("memory_huge_free", int system.memory_huge_free)
      ∷ ("memory_huge_page_size", int system.memory_huge_page_size)
      ∷ [])

  unfoldable pub pane_dict : PaneMetrics F → Fields F
  pane_dict pane = fields_of (
      ("root_pid", int pane.root_pid)
      ∷ ("process_count", int pane.process_count)
      ∷ ("cpu_cores", float pane.cpu_cores)
      ∷ ("rss_bytes", int pane.rss_bytes)
      ∷ ("proportional_bytes", int pane.proportional_bytes)
      ∷ ("complete_pss", bool pane.complete_pss)
      ∷ [])

  unfoldable pub to_dict : Snapshot F → Fields F
  to_dict snapshot = fields_of (
      ("sequence", int snapshot.sequence)
      ∷ ("wall_time_ns", int snapshot.wall_time_ns)
      ∷ ("monotonic_ns", int snapshot.monotonic_ns)
      ∷ ("interval_ns", int snapshot.interval_ns)
      ∷ ("boot_id", str snapshot.boot_id)
      ∷ ("system", dict (system_dict snapshot.system))
      ∷ ("thermal", list (items_of (map (λ sensor. dict (thermal_dict sensor)) snapshot.thermal)))
      ∷ (
        "processes",
        list (items_of (map (λ process. dict (process_dict process)) snapshot.processes)),
      )
      ∷ ("fans", list (items_of (map (λ fan. dict (fan_dict fan)) snapshot.fans)))
      ∷ ("schema", int snapshot.schema)
      ∷ ("panes", list (items_of (map (λ pane. dict (pane_dict pane)) snapshot.panes)))
      ∷ ("processes_total", int snapshot.processes_total)
      ∷ ("processes_truncated", bool snapshot.processes_truncated)
      ∷ [])
