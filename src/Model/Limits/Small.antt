-- ===== src/Model/Limits/Small.antt =====
-- The sensors, processes and panes that `from_dict` returns are within their limits.
use kilix_telemetry.Common.{ℤ, ◌≤ℤ◌, max_ℤ, IsNonneg, arith}
use kilix_telemetry.Values.{
  Fields, Python, str, get, get_default, text_of, nonnegative_int, finite_float,
}
use kilix_telemetry.Values.Laws.{
  PythonLaws, Ensures, Ensures-bind, IsFinite, prefix-prefix, nonnegative_int-IsNonneg,
  finite_float-IsFinite,
}
use kilix_telemetry.Model.Records.{IsThermalRecord, IsFanRecord, IsProcessRecord, IsPaneRecord}
use kilix_telemetry.Model.Fields.{
  AllSome, IsPositive, IsRpm, IsAmount, optional_float-IsFinite, optional_int-IsNonneg,
  clamped_float-IsAmount, at_least_one-IsPositive, capped_rpm-IsRpm,
}
use kilix_telemetry.Model.FromDict.{
  optional_float, optional_int, clamped_float, at_least_one, capped_rpm, thermal_from_dict,
  fan_from_dict, process_from_dict, pane_from_dict,
}

pub max_ℤ-ge : (a b : ℤ) → a ≤ℤ max_ℤ a b
max_ℤ-ge a b = ground arith

module _ {F : Type 0} (py : Python F) (laws : PythonLaws py) where
  pub thermal_from_dict-IsThermalRecord :
      (value : Fields F) → Ensures (IsThermalRecord py) (thermal_from_dict py value)
  unfolding thermal_from_dict
  thermal_from_dict-IsThermalRecord value =
      Ensures-bind (IsFinite py) (IsThermalRecord py)
        (finite_float py (get "celsius" value) py.zero_float) _
        (finite_float-IsFinite py (get "celsius" value) py.zero_float laws.zero_finite)
        λ celsius h_celsius.
          Ensures-bind (AllSome (IsFinite py)) (IsThermalRecord py)
            (optional_float py (get "warning_celsius" value)) _
            (optional_float-IsFinite py laws (get "warning_celsius" value))
            λ warning_celsius h_warning_celsius.
              Ensures-bind (AllSome (IsFinite py)) (IsThermalRecord py)
                (optional_float py (get "critical_celsius" value)) _
                (optional_float-IsFinite py laws (get "critical_celsius" value))
                λ critical_celsius h_critical_celsius. record {
                  key = prefix-prefix 256 (text_of py (get_default "key" (str "") value));
                  chip = prefix-prefix 80 (text_of py (get_default "chip" (str "") value));
                  label = prefix-prefix 80 (text_of py (get_default "label" (str "") value));
                  source = prefix-prefix 80 (text_of py (get_default "source" (str "") value));
                  celsius = h_celsius;
                  warning_celsius = h_warning_celsius;
                  critical_celsius = h_critical_celsius;
                }

  pub fan_from_dict-IsFanRecord : (value : Fields F) → Ensures IsFanRecord (fan_from_dict py value)
  unfolding fan_from_dict
  fan_from_dict-IsFanRecord value =
      Ensures-bind IsRpm IsFanRecord (capped_rpm py (get "rpm" value)) _
        (capped_rpm-IsRpm py laws (get "rpm" value))
        λ rpm h_rpm. record {
          key = prefix-prefix 256 (text_of py (get_default "key" (str "") value));
          chip = prefix-prefix 80 (text_of py (get_default "chip" (str "") value));
          label = prefix-prefix 80 (text_of py (get_default "label" (str "") value));
          source = prefix-prefix 80 (text_of py (get_default "source" (str "") value));
          rpm = h_rpm;
        }

  pub process_from_dict-IsProcessRecord :
      (value : Fields F) → Ensures (IsProcessRecord py) (process_from_dict py value)
  unfolding process_from_dict
  process_from_dict-IsProcessRecord value =
      Ensures-bind IsNonneg (IsProcessRecord py) (nonnegative_int py (get "pid" value)) _
        (nonnegative_int-IsNonneg py (get "pid" value))
        λ pid h_pid.
          Ensures-bind IsNonneg (IsProcessRecord py) (nonnegative_int py (get "ppid" value)) _
            (nonnegative_int-IsNonneg py (get "ppid" value))
            λ ppid h_ppid.
              Ensures-bind IsNonneg (IsProcessRecord py)
                (nonnegative_int py (get "start_ticks" value)) _
                (nonnegative_int-IsNonneg py (get "start_ticks" value))
                λ start_ticks h_start_ticks.
                  Ensures-bind IsNonneg (IsProcessRecord py)
                    (nonnegative_int py (get "cpu_ticks" value)) _
                    (nonnegative_int-IsNonneg py (get "cpu_ticks" value))
                    λ cpu_ticks h_cpu_ticks.
                      Ensures-bind (IsAmount py) (IsProcessRecord py)
                        (clamped_float py (get "cpu_cores" value)) _
                        (clamped_float-IsAmount py laws (get "cpu_cores" value))
                        λ cpu_cores h_cpu_cores.
                          Ensures-bind IsNonneg (IsProcessRecord py)
                            (nonnegative_int py (get "rss_bytes" value)) _
                            (nonnegative_int-IsNonneg py (get "rss_bytes" value))
                            λ rss_bytes h_rss_bytes.
                              Ensures-bind (AllSome IsNonneg) (IsProcessRecord py)
                                (optional_int py (get "pss_bytes" value)) _
                                (optional_int-IsNonneg py laws (get "pss_bytes" value))
                                λ pss_bytes h_pss_bytes.
                                  Ensures-bind IsNonneg (IsProcessRecord py)
                                    (nonnegative_int py (get "virtual_bytes" value)) _
                                    (nonnegative_int-IsNonneg py (get "virtual_bytes" value))
                                    λ virtual_bytes h_virtual_bytes.
                                      Ensures-bind IsNonneg (IsProcessRecord py)
                                        (nonnegative_int py (get "uid" value)) _
                                        (nonnegative_int-IsNonneg py (get "uid" value))
                                        λ uid h_uid.
                                          Ensures-bind IsPositive (IsProcessRecord py)
                                            (at_least_one py (get "threads" value)) _
                                            (at_least_one-IsPositive py laws (get "threads" value))
                                            λ threads h_threads.
                                              Ensures-bind IsNonneg (IsProcessRecord py)
                                                (nonnegative_int py (get "anon_bytes" value)) _
                                                (nonnegative_int-IsNonneg py
                                                  (get "anon_bytes" value))
                                                λ anon_bytes h_anon_bytes.
                                                  Ensures-bind IsNonneg (IsProcessRecord py)
                                                    (nonnegative_int py (get "file_bytes" value)) _
                                                    (nonnegative_int-IsNonneg py
                                                      (get "file_bytes" value))
                                                    λ file_bytes h_file_bytes.
                                                      Ensures-bind IsNonneg (IsProcessRecord py)
                                                        (nonnegative_int py
                                                          (get "shared_bytes" value))
                                                        _
                                                        (nonnegative_int-IsNonneg py
                                                          (get "shared_bytes" value))
                                                        λ shared_bytes h_shared_bytes. record {
                                                          pid = h_pid;
                                                          ppid = h_ppid;
                                                          start_ticks = h_start_ticks;
                                                          cpu_ticks = h_cpu_ticks;
                                                          cpu_cores = h_cpu_cores;
                                                          rss_bytes = h_rss_bytes;
                                                          pss_bytes = h_pss_bytes;
                                                          virtual_bytes = h_virtual_bytes;
                                                          uid = h_uid;
                                                          name = prefix-prefix 80 (
                                                            text_of py
                                                            (get_default "name" (str "") value));
                                                          state = prefix-prefix 8 (
                                                            text_of py
                                                            (get_default "state" (str "?") value));
                                                          threads = h_threads;
                                                          command = prefix-prefix 4096 (
                                                            text_of py
                                                            (get_default "command" (str "") value));
                                                          anon_bytes = h_anon_bytes;
                                                          file_bytes = h_file_bytes;
                                                          shared_bytes = h_shared_bytes;
                                                        }

  pub pane_from_dict-IsPaneRecord :
      (value : Fields F) → Ensures (IsPaneRecord py) (pane_from_dict py value)
  unfolding pane_from_dict
  pane_from_dict-IsPaneRecord value =
      Ensures-bind IsNonneg (IsPaneRecord py) (nonnegative_int py (get "root_pid" value)) _
        (nonnegative_int-IsNonneg py (get "root_pid" value))
        λ root_pid h_root_pid.
          Ensures-bind IsNonneg (IsPaneRecord py) (nonnegative_int py (get "process_count" value)) _
            (nonnegative_int-IsNonneg py (get "process_count" value))
            λ process_count h_process_count.
              Ensures-bind (IsAmount py) (IsPaneRecord py)
                (clamped_float py (get "cpu_cores" value)) _
                (clamped_float-IsAmount py laws (get "cpu_cores" value))
                λ cpu_cores h_cpu_cores.
                  Ensures-bind IsNonneg (IsPaneRecord py)
                    (nonnegative_int py (get "rss_bytes" value)) _
                    (nonnegative_int-IsNonneg py (get "rss_bytes" value))
                    λ rss_bytes h_rss_bytes.
                      Ensures-bind IsNonneg (IsPaneRecord py)
                        (nonnegative_int py (get "proportional_bytes" value)) _
                        (nonnegative_int-IsNonneg py (get "proportional_bytes" value))
                        λ proportional_bytes h_proportional_bytes. record {
                          root_pid = h_root_pid;
                          process_count = h_process_count;
                          cpu_cores = h_cpu_cores;
                          rss_bytes = h_rss_bytes;
                          proportional_bytes = h_proportional_bytes;
                        }
