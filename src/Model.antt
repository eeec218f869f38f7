-- ===== src/Model.antt =====
-- The records of src/kilix_telemetry/model.py. A Python `int` is an integer of any sign, a float is
-- of the abstract type `F`, a tuple is a list, and a `Mapping` is the list of its entries, whose
-- keys differ from one another.
pub mod ToDict
pub mod FromDict
pub mod Fields
pub mod ReadBack
pub mod Records
pub mod Limits
pub mod RoundTrip
pub mod Stable
use kilix_telemetry.Common.{ℤ, pos, String, Bool, Option, List}

-- `SCHEMA_VERSION`
abbrev pub schema_version : ℤ
schema_version = pos 1

pub record ThermalSensor (F : Type 0) : Type 0 where
  pub key : String
  pub chip : String
  pub label : String
  pub source : String
  pub celsius : F
  pub warning_celsius : Option F
  pub critical_celsius : Option F

pub record FanSensor : Type 0 where
  pub key : String
  pub chip : String
  pub label : String
  pub source : String
  pub rpm : ℤ

pub record ProcessMetrics (F : Type 0) : Type 0 where
  pub pid : ℤ
  pub ppid : ℤ
  pub start_ticks : ℤ
  pub cpu_ticks : ℤ
  pub cpu_cores : F
  pub rss_bytes : ℤ
  pub pss_bytes : Option ℤ
  pub virtual_bytes : ℤ
  pub uid : ℤ
  pub name : String
  pub state : String
  pub threads : ℤ
  pub command : String
  pub anon_bytes : ℤ
  pub file_bytes : ℤ
  pub shared_bytes : ℤ

pub record SystemMetrics (F : Type 0) : Type 0 where
  pub cpu_percent : Option F
  pub load_1 : F
  pub load_5 : F
  pub load_15 : F
  pub logical_cpus : ℤ
  pub uptime_seconds : F
  pub memory_total : ℤ
  pub memory_available : ℤ
  pub memory_free : ℤ
  pub memory_buffers : ℤ
  pub memory_cached : ℤ
  pub memory_reclaimable : ℤ
  pub memory_shared : ℤ
  pub memory_active : ℤ
  pub memory_inactive : ℤ
  pub memory_anon : ℤ
  pub memory_slab : ℤ
  pub memory_page_tables : ℤ
  pub memory_kernel_stack : ℤ
  pub memory_dirty : ℤ
  pub memory_writeback : ℤ
  pub swap_total : ℤ
  pub swap_free : ℤ
  pub pressure : List (String × List (String × F))
  pub vm : List (String × ℤ)
  pub per_cpu_percent : List (Option F)
  pub cpu_frequency_mhz : List (Option F)
  pub memory_huge_total : ℤ
  pub memory_huge_free : ℤ
  pub memory_huge_page_size : ℤ

pub record PaneMetrics (F : Type 0) : Type 0 where
  pub root_pid : ℤ
  pub process_count : ℤ
  pub cpu_cores : F
  pub rss_bytes : ℤ
  pub proportional_bytes : ℤ
  pub complete_pss : Bool

pub record Snapshot (F : Type 0) : Type 0 where
  pub sequence : ℤ
  pub wall_time_ns : ℤ
  pub monotonic_ns : ℤ
  pub interval_ns : ℤ
  pub boot_id : String
  pub system : SystemMetrics F
  pub thermal : List (ThermalSensor F)
  pub processes : List (ProcessMetrics F)
  pub fans : List FanSensor
  pub schema : ℤ
  pub panes : List (PaneMetrics F)
  pub processes_total : ℤ
  pub processes_truncated : Bool
