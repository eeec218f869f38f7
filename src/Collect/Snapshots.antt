-- ===== src/Collect/Snapshots.antt =====
-- What one sample is, whatever the machine shows.
use kilix_telemetry.Common.{
  ℤ, pos, pos_part, ◌+ℤ◌, ◌-ℤ◌, ◌≤ℤ◌, IsNonneg, max_ℤ-IsNonneg, ◌≡◌, refl, Option, none, some, List,
  length, All, arith,
}
use kilix_telemetry.Values.{Python}
use kilix_telemetry.Values.Laws.{PythonLaws, Ensures, Ensures-any, Ensures-bind}
use kilix_telemetry.Model.{Snapshot}
use kilix_telemetry.Model.Fields.{AllSome, IsPercent}
use kilix_telemetry.Text.{Unicode}
use kilix_telemetry.Collect.{Arithmetic, BetweenIsFinite}
use kilix_telemetry.Collect.Cpu.{cpu}
use kilix_telemetry.Collect.Cpu.Percent.{AreShares, cpu-AreShares}
use kilix_telemetry.Collect.Memory.Bounds.{meminfo-IsBounded}
use kilix_telemetry.Collect.Processes.{since, processes}
use kilix_telemetry.Collect.Sensors.{thermal}
use kilix_telemetry.Collect.Sample.{Machine, Collector, system_of, sample}
use kilix_telemetry.Collect.Published.{IsLocalPane, IsCoherent, processes-IsCoherent}

module _ {F : Type 0} (py : Python F) (unicode : Unicode) where
  since-IsNonneg : (now_ns : ℤ) (previous : Option ℤ) → IsNonneg (since py unicode now_ns previous)
  unfolding since
  since-IsNonneg now_ns none = omega arith
  since-IsNonneg now_ns (some previous) = max_ℤ-IsNonneg (now_ns -ℤ previous)

  -- A snapshot that a collector samples, and the collector that is left.
  pub record IsSample (collector next : Collector F) (machine : Machine F) (snapshot : Snapshot F)
      : Type 0 where
    pub sequence : snapshot.sequence ≡ collector.sequence +ℤ pos 1
    pub counted : next.sequence ≡ snapshot.sequence
    pub monotonic_ns : snapshot.monotonic_ns ≡ machine.monotonic_ns
    pub interval : IsNonneg snapshot.interval_ns
    pub available : IsNonneg snapshot.system.memory_available
    pub available_within : snapshot.system.memory_available ≤ℤ snapshot.system.memory_total
    pub share : AllSome (IsPercent py) snapshot.system.cpu_percent
    pub shares : All (AllSome (IsPercent py)) snapshot.system.per_cpu_percent
    pub cpus : length snapshot.system.per_cpu_percent ≡ pos_part snapshot.system.logical_cpus
    pub panes : All (IsLocalPane py snapshot.processes) snapshot.panes
    pub coherent : IsCoherent py next.process_state

  -- A sample has the next number, and the collector counts it.
  pub sample_counts :
      (arithmetic : Arithmetic F) (collector : Collector F) (machine : Machine F)
      (pss_roots : List ℤ)
      → Ensures
          (λ r.
            (r.1.sequence ≡ collector.sequence +ℤ pos 1)
            × (r.0.sequence ≡ collector.sequence +ℤ pos 1))
          (sample py unicode arithmetic collector machine pss_roots)
  unfolding sample
  sample_counts arithmetic collector machine pss_roots =
      let P : Collector F × Snapshot F → Type 0 = λ r.
        (r.1.sequence ≡ collector.sequence +ℤ pos 1)
        × (r.0.sequence ≡ collector.sequence +ℤ pos 1) in
      Ensures-bind (λ _. Unit {0}) P
        (cpu py arithmetic unicode machine.cpu_count machine.stat collector.previous_cpu
          collector.previous_per_cpu)
        _ (Ensures-any _)
        λ found _.
          Ensures-bind (λ _. Unit {0}) P
            (processes py unicode arithmetic collector.settings collector.process_state
              machine.monotonic_ns machine.directories machine.smaps pss_roots)
            _ (Ensures-any _)
            λ table _.
              Ensures-bind (λ _. Unit {0}) P
                (thermal py arithmetic collector.thermal_interval_ns collector.sensor_rescan_ns
                  machine.monotonic_ns machine.found machine.sensors collector.sensor_state)
                _ (Ensures-any _) λ readings _. (refl, refl)

  module _ (laws : PythonLaws py) (between : BetweenIsFinite py) (arithmetic : Arithmetic F) where
    -- Whatever the machine shows, `sample` on a collector whose panes agree with its table
    -- raises, or returns a snapshot with the next number, the time of the clock, a duration
    -- that is not negative, available memory between 0 and the total, shares of CPU between 0
    -- and 100, one for each logical CPU, and panes that agree with its table, and leaves a
    -- collector that has counted it and whose panes agree, where what lies between two finite
    -- floats is finite.
    pub sample-IsSample :
        (collector : Collector F) (machine : Machine F) (pss_roots : List ℤ)
        → IsCoherent py collector.process_state
        → Ensures
            (λ r. IsSample collector r.0 machine r.1)
            (sample py unicode arithmetic collector machine pss_roots)
    unfolding sample system_of
    sample-IsSample collector machine pss_roots h =
        let P : Collector F × Snapshot F → Type 0 = λ r. IsSample collector r.0 machine r.1 in
        Ensures-bind (AreShares py laws between arithmetic unicode) P
          (cpu py arithmetic unicode machine.cpu_count machine.stat collector.previous_cpu
            collector.previous_per_cpu)
          _
          (cpu-AreShares py laws between arithmetic unicode machine.cpu_count machine.stat
            collector.previous_cpu collector.previous_per_cpu)
          λ found s.
            Ensures-bind (IsCoherent py) P
              (processes py unicode arithmetic collector.settings collector.process_state
                machine.monotonic_ns machine.directories machine.smaps pss_roots)
              _
              (processes-IsCoherent py unicode arithmetic collector.settings collector.process_state
                machine.monotonic_ns machine.directories machine.smaps pss_roots h)
              λ table coherent.
                Ensures-bind (λ _. Unit {0}) P
                  (thermal py arithmetic collector.thermal_interval_ns collector.sensor_rescan_ns
                    machine.monotonic_ns machine.found machine.sensors collector.sensor_state)
                  _ (Ensures-any _)
                  λ readings _.
                    let (amounts, (nonneg, within, free)) =
                      meminfo-IsBounded py unicode machine.meminfo in
                    record {
                      sequence = refl;
                      counted = refl;
                      monotonic_ns = refl;
                      interval = since-IsNonneg machine.monotonic_ns collector.previous_when_ns;
                      available = nonneg;
                      available_within = within;
                      share = s.0;
                      shares = s.3;
                      cpus = s.2;
                      panes = coherent;
                      coherent = coherent;
                    }
