-- ===== src/Model/Records.antt =====
-- What the `from_dict` methods of model.py build, record by record: texts within their limits,
-- counts that are not negative, floats that are finite and in range.
use kilix_telemetry.Common.{pos, ◌≤ℤ◌, ◌≡◌, IsNonneg, All, length}
use kilix_telemetry.Values.{Python}
use kilix_telemetry.Values.Laws.{IsFinite}
use kilix_telemetry.Model.{
  schema_version, ThermalSensor, FanSensor, ProcessMetrics, SystemMetrics, PaneMetrics, Snapshot,
}
use kilix_telemetry.Model.Fields.{
  AllSome, IsShort, IsPositive, IsRpm, AreNonneg, IsAmount, IsPercent, AreReadings, ArePressures,
}

pub record IsFanRecord (fan : FanSensor) : Type 0 where
  pub key : IsShort 256 fan.key
  pub chip : IsShort 80 fan.chip
  pub label : IsShort 80 fan.label
  pub source : IsShort 80 fan.source
  pub rpm : IsRpm fan.rpm

module _ {F : Type 0} (py : Python F) where
  pub record IsThermalRecord (thermal : ThermalSensor F) : Type 0 where
    pub key : IsShort 256 thermal.key
    pub chip : IsShort 80 thermal.chip
    pub label : IsShort 80 thermal.label
    pub source : IsShort 80 thermal.source
    pub celsius : IsFinite py thermal.celsius
    pub warning_celsius : AllSome (IsFinite py) thermal.warning_celsius
    pub critical_celsius : AllSome (IsFinite py) thermal.critical_celsius

  pub record IsProcessRecord (process : ProcessMetrics F) : Type 0 where
    pub pid : IsNonneg process.pid
    pub ppid : IsNonneg process.ppid
    pub start_ticks : IsNonneg process.start_ticks
    pub cpu_ticks : IsNonneg process.cpu_ticks
    pub cpu_cores : IsAmount py process.cpu_cores
    pub rss_bytes : IsNonneg process.rss_bytes
    pub pss_bytes : AllSome IsNonneg process.pss_bytes
    pub virtual_bytes : IsNonneg process.virtual_bytes
    pub uid : IsNonneg process.uid
    pub name : IsShort 80 process.name
    pub state : IsShort 8 process.state
    pub threads : IsPositive process.threads
    pub command : IsShort 4096 process.command
    pub anon_bytes : IsNonneg process.anon_bytes
    pub file_bytes : IsNonneg process.file_bytes
    pub shared_bytes : IsNonneg process.shared_bytes

  pub record IsSystemRecord (system : SystemMetrics F) : Type 0 where
    pub cpu_percent : AllSome (IsPercent py) system.cpu_percent
    pub load_1 : IsAmount py system.load_1
    pub load_5 : IsAmount py system.load_5
    pub load_15 : IsAmount py system.load_15
    pub logical_cpus : IsPositive system.logical_cpus
    pub uptime_seconds : IsAmount py system.uptime_seconds
    pub memory_total : IsNonneg system.memory_total
    pub memory_available : IsNonneg system.memory_available
    pub memory_free : IsNonneg system.memory_free
    pub memory_buffers : IsNonneg system.memory_buffers
    pub memory_cached : IsNonneg system.memory_cached
    pub memory_reclaimable : IsNonneg system.memory_reclaimable
    pub memory_shared : IsNonneg system.memory_shared
    pub memory_active : IsNonneg system.memory_active
    pub memory_inactive : IsNonneg system.memory_inactive
    pub memory_anon : IsNonneg system.memory_anon
    pub memory_slab : IsNonneg system.memory_slab
    pub memory_page_tables : IsNonneg system.memory_page_tables
    pub memory_kernel_stack : IsNonneg system.memory_kernel_stack
    pub memory_dirty : IsNonneg system.memory_dirty
    pub memory_writeback : IsNonneg system.memory_writeback
    pub swap_total : IsNonneg system.swap_total
    pub swap_free : IsNonneg system.swap_free
    pub pressure : ArePressures py system.pressure
    pub vm : AreNonneg system.vm
    pub per_cpu_percent : AreReadings py system.per_cpu_percent
    pub cpu_frequency_mhz : AreReadings py system.cpu_frequency_mhz
    pub memory_huge_total : IsNonneg system.memory_huge_total
    pub memory_huge_free : IsNonneg system.memory_huge_free
    pub memory_huge_page_size : IsNonneg system.memory_huge_page_size

  pub record IsPaneRecord (pane : PaneMetrics F) : Type 0 where
    pub root_pid : IsNonneg pane.root_pid
    pub process_count : IsNonneg pane.process_count
    pub cpu_cores : IsAmount py pane.cpu_cores
    pub rss_bytes : IsNonneg pane.rss_bytes
    pub proportional_bytes : IsNonneg pane.proportional_bytes

  pub record IsWireRecord (snapshot : Snapshot F) : Type 0 where
    pub sequence : IsNonneg snapshot.sequence
    pub wall_time_ns : IsNonneg snapshot.wall_time_ns
    pub monotonic_ns : IsNonneg snapshot.monotonic_ns
    pub interval_ns : IsNonneg snapshot.interval_ns
    pub boot_id : IsShort 128 snapshot.boot_id
    pub system : IsSystemRecord snapshot.system
    pub thermal : All IsThermalRecord snapshot.thermal
    pub processes : All IsProcessRecord snapshot.processes
    pub fans : All IsFanRecord snapshot.fans
    pub schema : snapshot.schema ≡ schema_version
    pub panes : All IsPaneRecord snapshot.panes
    pub processes_total : pos (length snapshot.processes) ≤ℤ snapshot.processes_total
