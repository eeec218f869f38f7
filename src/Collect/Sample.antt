-- ===== src/Collect/Sample.antt =====
-- `LinuxCollector.sample`: one snapshot from everything that the machine shows at one time.
use kilix_telemetry.Common.{
  ℕ, ℤ, pos, pos_part, ◌+ℤ◌, String, false, Option, some, List, [], ◌∷◌, length, Result, ok, ◌>>=◌,
}
use kilix_telemetry.Values.{Python}
use kilix_telemetry.Model.{SystemMetrics, Snapshot, schema_version}
use kilix_telemetry.Text.{Unicode}
use kilix_telemetry.Collect.{Arithmetic}
use kilix_telemetry.Collect.Cpu.{Ticks, PerCpu, cpu}
use kilix_telemetry.Collect.Memory.{Amounts, amount, meminfo, vm, loads, uptime, pressure}
use kilix_telemetry.Collect.Stat.{ProcessFiles}
use kilix_telemetry.Collect.Processes.{since, processes}
use kilix_telemetry.Collect.State.{Settings, ProcessState}
use kilix_telemetry.Collect.Sensors.{
  TemperatureSource, FanSource, SensorState, SensorFiles, thermal, cpu_frequency,
}

-- What a sample reads: two clocks, the number of CPUs, and the files.
pub record Machine (F : Type 0) : Type 0 where
  pub monotonic_ns : ℤ
  pub wall_time_ns : ℤ
  pub cpu_count : ℤ
  pub stat : String
  pub loadavg : String
  pub uptime : String
  pub meminfo : String
  pub vmstat : String
  pub pressure : String → String
  pub cpuinfo : String
  pub scaling : ℕ → String
  pub directories : List ProcessFiles
  pub smaps : ℤ → String
  pub sensors : SensorFiles
  pub found : List (TemperatureSource F) × List FanSource

-- The collector: what the constructor fixes, and the attributes that its methods set.
pub record Collector (F : Type 0) : Type 0 where
  pub settings : Settings
  pub thermal_interval_ns : ℤ
  pub sensor_rescan_ns : ℤ
  pub boot_id : String
  pub sequence : ℤ
  pub previous_when_ns : Option ℤ
  pub previous_cpu : Option Ticks
  pub previous_per_cpu : PerCpu
  pub process_state : ProcessState F
  pub sensor_state : SensorState F
  pub frequency : Option ℤ × List (Option F)

module _ {F : Type 0} (py : Python F) (unicode : Unicode) (arithmetic : Arithmetic F) where
  -- `SystemMetrics(...)`
  unfoldable pub system_of :
      Machine F → Amounts → Option F → ℤ → List (Option F) → List (Option F) → SystemMetrics F
  system_of machine memory cpu_percent logical_cpus per_cpu_percent cpu_frequency_mhz =
      let (load_1, load_5, load_15) = loads py unicode machine.loadavg in
      record {
        cpu_percent = cpu_percent;
        load_1 = load_1;
        load_5 = load_5;
        load_15 = load_15;
        logical_cpus = logical_cpus;
        uptime_seconds = uptime py unicode machine.uptime;
        memory_total = amount "MemTotal" (pos 0) memory;
        memory_available = amount "MemAvailable" (pos 0) memory;
        memory_free = amount "MemFree" (pos 0) memory;
        memory_buffers = amount "Buffers" (pos 0) memory;
        memory_cached = amount "Cached" (pos 0) memory;
        memory_reclaimable = amount "SReclaimable" (pos 0) memory;
        memory_shared = amount "Shmem" (pos 0) memory;
        memory_active = amount "Active" (pos 0) memory;
        memory_inactive = amount "Inactive" (pos 0) memory;
        memory_anon = amount "AnonPages" (pos 0) memory;
        memory_slab = amount "Slab" (pos 0) memory;
        memory_page_tables = amount "PageTables" (pos 0) memory;
        memory_kernel_stack = amount "KernelStack" (pos 0) memory;
        memory_dirty = amount "Dirty" (pos 0) memory;
        memory_writeback = amount "Writeback" (pos 0) memory;
        swap_total = amount "SwapTotal" (pos 0) memory;
        swap_free = amount "SwapFree" (pos 0) memory;
        pressure = pressure py unicode machine.pressure ("cpu" ∷ "memory" ∷ "io" ∷ []);
        vm = vm py unicode machine.vmstat;
        per_cpu_percent = per_cpu_percent;
        cpu_frequency_mhz = cpu_frequency_mhz;
        memory_huge_total = amount "HugePages_Total" (pos 0) memory;
        memory_huge_free = amount "HugePages_Free" (pos 0) memory;
        memory_huge_page_size = amount "Hugepagesize" (pos 0) memory;
      }

  -- `sample`
  unfoldable pub sample : Collector F → Machine F → List ℤ → Result (Collector F × Snapshot F)
  sample collector machine pss_roots =
      let now_ns = machine.monotonic_ns in
      do
        shares ←
            cpu py arithmetic unicode machine.cpu_count machine.stat collector.previous_cpu
              collector.previous_per_cpu
        table ←
            processes py unicode arithmetic collector.settings collector.process_state now_ns
              machine.directories machine.smaps pss_roots
        readings ←
            thermal py arithmetic collector.thermal_interval_ns collector.sensor_rescan_ns now_ns
              machine.found machine.sensors collector.sensor_state
        let (noted, cpu_percent, logical_cpus, per_cpu_percent) = shares
        let frequency =
            cpu_frequency py arithmetic unicode collector.thermal_interval_ns now_ns machine.cpuinfo
              machine.scaling (pos_part logical_cpus) collector.frequency
        ok (
          record collector {
            sequence = collector.sequence +ℤ pos 1;
            previous_when_ns = some now_ns;
            previous_cpu = some noted.0;
            previous_per_cpu = noted.1;
            process_state = table;
            sensor_state = readings;
            frequency = frequency;
          },
          record {
            sequence = collector.sequence +ℤ pos 1;
            wall_time_ns = machine.wall_time_ns;
            monotonic_ns = now_ns;
            interval_ns = since py unicode now_ns collector.previous_when_ns;
            boot_id = collector.boot_id;
            system =
                system_of machine (meminfo py unicode machine.meminfo) cpu_percent logical_cpus
                  per_cpu_percent frequency.1;
            thermal = readings.thermal_cache;
            processes = table.process_cache;
            fans = readings.fan_cache;
            schema = schema_version;
            panes = table.pane_cache;
            processes_total = pos (length table.process_cache);
            processes_truncated = false;
          },
        )
