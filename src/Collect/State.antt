-- ===== src/Collect/State.antt =====
-- The settings of `LinuxCollector` of src/kilix_telemetry/collect.py and what it keeps of processes.
use kilix_telemetry.Common.{ℤ, Option, List}
use kilix_telemetry.Model.{ProcessMetrics, PaneMetrics}
use kilix_telemetry.Collect.Stat.{Identity, MetaCache}

-- When a value was read, and the value.
abbrev pub PssEntry : Type 0
PssEntry = ℤ × Option ℤ

abbrev pub PssCache : Type 0
PssCache = List (Identity × PssEntry)

-- The start and the CPU ticks of a process.
abbrev pub Reading : Type 0
Reading = ℤ × ℤ

-- The collector's settings: intervals in nanoseconds, the two values of `os.sysconf`, and the user.
pub record Settings : Type 0 where
  pub process_interval_ns : ℤ
  pub metadata_interval_ns : ℤ
  pub pss_interval_ns : ℤ
  pub ticks_per_second : ℤ
  pub page_size : ℤ
  pub uid : ℤ

-- The attributes of the collector that `_processes` reads and sets.
pub record ProcessState (F : Type 0) : Type 0 where
  pub process_sample_ns : Option ℤ
  pub process_pss_roots : List ℤ
  pub process_cache : List (ProcessMetrics F)
  pub pane_cache : List (PaneMetrics F)
  pub previous_process_when_ns : Option ℤ
  pub previous_processes : List (ℤ × Reading)
  pub previous_pane_ticks : List (Identity × ℤ)
  pub pss_cache : PssCache
  pub metadata_cache : MetaCache
