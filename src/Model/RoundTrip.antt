-- ===== src/Model/RoundTrip.antt =====
-- `from_dict` reads back what `to_dict` writes.
use kilix_telemetry.Common.{
  ℕ, ℤ, pos, ◌≤ℤ◌, ◌≡◌, List, All, length, map, max_ℤ, IsNonneg, Result, ok, arith, traverse,
  ==ℤ_iff,
}
use kilix_telemetry.Values.{Fields, Python, dict, items_of, list_of, mappings, text_of}
use kilix_telemetry.Values.Laws.{
  traverse-map, nonnegative_int-int, finite_float-float, list_of-items_of, mappings-dicts,
}
use kilix_telemetry.Model.{
  schema_version, ThermalSensor, FanSensor, ProcessMetrics, SystemMetrics, PaneMetrics, Snapshot,
}
use kilix_telemetry.Model.Records.{
  IsThermalRecord, IsFanRecord, IsProcessRecord, IsSystemRecord, IsPaneRecord, IsWireRecord,
}
use kilix_telemetry.Model.ReadBack.{
  optional_float-null, optional_int-null, clamped_float-float, optional_percent-null,
  at_least_one-int, capped_rpm-int, optional_floats-list, vm_of-dict, pressure_of-dict,
}
use kilix_telemetry.Model.FromDict.{
  array, mapping, supported, from_dict, thermal_from_dict, fan_from_dict, process_from_dict,
  system_from_dict, pane_from_dict,
}
use kilix_telemetry.Model.ToDict.{
  thermal_dict, fan_dict, process_dict, system_dict, pane_dict, to_dict,
}

module _ {F : Type 0} (py : Python F) where
  pub thermal_from_dict-thermal_dict :
      (thermal : ThermalSensor F)
      → IsThermalRecord py thermal
      → thermal_from_dict py (thermal_dict thermal) ≡ ok thermal
  unfolding thermal_from_dict thermal_dict text_of
  thermal_from_dict-thermal_dict thermal h = simp (
    h.key,
    h.chip,
    h.label,
    h.source,
    finite_float-float py thermal.celsius py.zero_float h.celsius,
    optional_float-null py thermal.warning_celsius h.warning_celsius,
    optional_float-null py thermal.critical_celsius h.critical_celsius,
  )

  pub fan_from_dict-fan_dict :
      (fan : FanSensor) → IsFanRecord fan → fan_from_dict py (fan_dict fan) ≡ ok fan
  unfolding fan_from_dict fan_dict text_of
  fan_from_dict-fan_dict fan h =
      simp (h.key, h.chip, h.label, h.source, capped_rpm-int py fan.rpm h.rpm)

  pub process_from_dict-process_dict :
      (process : ProcessMetrics F)
      → IsProcessRecord py process
      → process_from_dict py (process_dict process) ≡ ok process
  unfolding process_from_dict process_dict text_of
  process_from_dict-process_dict process h = simp (
    nonnegative_int-int py process.pid h.pid,
    nonnegative_int-int py process.ppid h.ppid,
    nonnegative_int-int py process.start_ticks h.start_ticks,
    nonnegative_int-int py process.cpu_ticks h.cpu_ticks,
    clamped_float-float py process.cpu_cores h.cpu_cores,
    nonnegative_int-int py process.rss_bytes h.rss_bytes,
    optional_int-null py process.pss_bytes h.pss_bytes,
    nonnegative_int-int py process.virtual_bytes h.virtual_bytes,
    nonnegative_int-int py process.uid h.uid,
    h.name,
    h.state,
    at_least_one-int py process.threads h.threads,
    h.command,
    nonnegative_int-int py process.anon_bytes h.anon_bytes,
    nonnegative_int-int py process.file_bytes h.file_bytes,
    nonnegative_int-int py process.shared_bytes h.shared_bytes,
  )

  pub system_from_dict-system_dict :
      (system : SystemMetrics F)
      → IsSystemRecord py system
      → system_from_dict py (system_dict system) ≡ ok system
  unfolding system_from_dict system_dict text_of
  system_from_dict-system_dict system h = simp (
    optional_percent-null py system.cpu_percent h.cpu_percent,
    clamped_float-float py system.load_1 h.load_1,
    clamped_float-float py system.load_5 h.load_5,
    clamped_float-float py system.load_15 h.load_15,
    at_least_one-int py system.logical_cpus h.logical_cpus,
    clamped_float-float py system.uptime_seconds h.uptime_seconds,
    nonnegative_int-int py system.memory_total h.memory_total,
    nonnegative_int-int py system.memory_available h.memory_available,
    nonnegative_int-int py system.memory_free h.memory_free,
    nonnegative_int-int py system.memory_buffers h.memory_buffers,
    nonnegative_int-int py system.memory_cached h.memory_cached,
    nonnegative_int-int py system.memory_reclaimable h.memory_reclaimable,
    nonnegative_int-int py system.memory_shared h.memory_shared,
    nonnegative_int-int py system.memory_active h.memory_active,
    nonnegative_int-int py system.memory_inactive h.memory_inactive,
    nonnegative_int-int py system.memory_anon h.memory_anon,
    nonnegative_int-int py system.memory_slab h.memory_slab,
    nonnegative_int-int py system.memory_page_tables h.memory_page_tables,
    nonnegative_int-int py system.memory_kernel_stack h.memory_kernel_stack,
    nonnegative_int-int py system.memory_dirty h.memory_dirty,
    nonnegative_int-int py system.memory_writeback h.memory_writeback,
    nonnegative_int-int py system.swap_total h.swap_total,
    nonnegative_int-int py system.swap_free h.swap_free,
    pressure_of-dict py system.pressure h.pressure,
    vm_of-dict py system.vm h.vm,
    optional_floats-list py system.per_cpu_percent h.per_cpu_percent,
    optional_floats-list py system.cpu_frequency_mhz h.cpu_frequency_mhz,
    nonnegative_int-int py system.memory_huge_total h.memory_huge_total,
    nonnegative_int-int py system.memory_huge_free h.memory_huge_free,
    nonnegative_int-int py system.memory_huge_page_size h.memory_huge_page_size,
  )

  pub pane_from_dict-pane_dict :
      (pane : PaneMetrics F) → IsPaneRecord py pane → pane_from_dict py (pane_dict pane) ≡ ok pane
  unfolding pane_from_dict pane_dict text_of
  pane_from_dict-pane_dict pane h = simp (
    nonnegative_int-int py pane.root_pid h.root_pid,
    nonnegative_int-int py pane.process_count h.process_count,
    clamped_float-float py pane.cpu_cores h.cpu_cores,
    nonnegative_int-int py pane.rss_bytes h.rss_bytes,
    nonnegative_int-int py pane.proportional_bytes h.proportional_bytes,
  )

  -- A list of records, written as mappings and read back.
  records_back :
      {A : Type 0} (P : A → Type 0) (write : A → Fields F) (read : Fields F → Result A)
      → ((x : A) → P x → read (write x) ≡ ok x)
      → (xs : List A) → All P xs
      → traverse read (mappings (list_of (items_of (map (λ x. dict (write x)) xs)))) ≡ ok xs
  records_back P write read back xs h =
      rw (list_of-items_of (map (λ x. dict (write x)) xs), mappings-dicts write xs)
        (traverse-map P read write xs back h)

  total-IsNonneg : (n : ℕ) (total : ℤ) → pos n ≤ℤ total → IsNonneg total
  total-IsNonneg n total h = omega arith

  max_total : (n total : ℤ) → n ≤ℤ total → max_ℤ n total ≡ total
  max_total n total h = ground arith

  supported-ok : (schema : ℤ) → schema ≡ schema_version → supported py schema ≡ ok tt
  unfolding supported
  supported-ok schema e = rw ((==ℤ_iff schema schema_version).1 e)

  schema-IsNonneg : (schema : ℤ) → schema ≡ schema_version → IsNonneg schema
  schema-IsNonneg schema e = ground arith

  -- A snapshot within the limits of the wire format reads back unchanged.
  pub from_dict-to_dict :
      (snapshot : Snapshot F)
      → IsWireRecord py snapshot
      → from_dict py (to_dict snapshot) ≡ ok snapshot
  unfolding from_dict to_dict mapping array text_of
  from_dict-to_dict snapshot h = simp (
    nonnegative_int-int py snapshot.schema (schema-IsNonneg snapshot.schema h.schema),
    supported-ok snapshot.schema h.schema,
    records_back (IsProcessRecord py) process_dict (process_from_dict py)
        process_from_dict-process_dict snapshot.processes h.processes,
    nonnegative_int-int py snapshot.sequence h.sequence,
    nonnegative_int-int py snapshot.wall_time_ns h.wall_time_ns,
    nonnegative_int-int py snapshot.monotonic_ns h.monotonic_ns,
    nonnegative_int-int py snapshot.interval_ns h.interval_ns,
    system_from_dict-system_dict snapshot.system h.system,
    records_back (IsThermalRecord py) thermal_dict (thermal_from_dict py)
        thermal_from_dict-thermal_dict snapshot.thermal h.thermal,
    records_back IsFanRecord fan_dict (fan_from_dict py) fan_from_dict-fan_dict snapshot.fans
        h.fans,
    records_back (IsPaneRecord py) pane_dict (pane_from_dict py) pane_from_dict-pane_dict
        snapshot.panes h.panes,
    nonnegative_int-int py snapshot.processes_total
        (total-IsNonneg (length snapshot.processes) snapshot.processes_total h.processes_total),
    max_total (pos (length snapshot.processes)) snapshot.processes_total h.processes_total,
    h.boot_id,
  )
