-- ===== src/Model/Limits/System.antt =====
-- The system record that `SystemMetrics.from_dict` returns is within its limits: one rule for each
-- of its fields, in the order in which they are read.
use kilix_telemetry.Common.{IsNonneg}
use kilix_telemetry.Values.{Fields, Python, list, dict, nil, end, get, get_default, nonnegative_int}
use kilix_telemetry.Values.Laws.{PythonLaws, Ensures, Ensures-bind, nonnegative_int-IsNonneg}
use kilix_telemetry.Model.Records.{IsSystemRecord}
use kilix_telemetry.Model.Fields.{
  AllSome, IsPositive, AreNonneg, IsAmount, IsPercent, AreReadings, ArePressures,
  clamped_float-IsAmount, optional_percent-IsPercent, at_least_one-IsPositive,
  optional_floats-AreReadings, vm_of-AreNonneg, pressure_of-ArePressures,
}
use kilix_telemetry.Model.FromDict.{
  clamped_float, optional_percent, at_least_one, optional_floats, pressure_of, vm_of,
  system_from_dict,
}

module _ {F : Type 0} (py : Python F) (laws : PythonLaws py) where
  pub system_from_dict-IsSystemRecord :
      (value : Fields F) → Ensures (IsSystemRecord py) (system_from_dict py value)
  unfolding system_from_dict
  system_from_dict-IsSystemRecord value =
      Ensures-bind (ArePressures py) (IsSystemRecord py)
        (pressure_of py (get_default "pressure" (dict end) value)) _
        (pressure_of-ArePressures py laws (get_default "pressure" (dict end) value))
        λ pressure h_pressure.
          Ensures-bind AreNonneg (IsSystemRecord py) (vm_of py (get_default "vm" (dict end) value))
            _ (vm_of-AreNonneg py laws (get_default "vm" (dict end) value))
            λ vm h_vm.
              Ensures-bind (AllSome (IsPercent py)) (IsSystemRecord py)
                (optional_percent py (get "cpu_percent" value)) _
                (optional_percent-IsPercent py laws (get "cpu_percent" value))
                λ cpu_percent h_cpu_percent.
                  Ensures-bind (IsAmount py) (IsSystemRecord py)
                    (clamped_float py (get "load_1" value)) _
                    (clamped_float-IsAmount py laws (get "load_1" value))
                    λ load_1 h_load_1.
                      Ensures-bind (IsAmount py) (IsSystemRecord py)
                        (clamped_float py (get "load_5" value)) _
                        (clamped_float-IsAmount py laws (get "load_5" value))
                        λ load_5 h_load_5.
                          Ensures-bind (IsAmount py) (IsSystemRecord py)
                            (clamped_float py (get "load_15" value)) _
                            (clamped_float-IsAmount py laws (get "load_15" value))
                            λ load_15 h_load_15.
                              Ensures-bind IsPositive (IsSystemRecord py)
                                (at_least_one py (get "logical_cpus" value)) _
                                (at_least_one-IsPositive py laws (get "logical_cpus" value))
                                λ logical_cpus h_logical_cpus.
                                  Ensures-bind (IsAmount py) (IsSystemRecord py)
                                    (clamped_float py (get "uptime_seconds" value)) _
                                    (clamped_float-IsAmount py laws (get "uptime_seconds" value))
                                    λ uptime_seconds h_uptime_seconds.
                                      Ensures-bind IsNonneg (IsSystemRecord py)
                                        (nonnegative_int py (get "memory_total" value)) _
                                        (nonnegative_int-IsNonneg py (get "memory_total" value))
                                        λ memory_total h_memory_total.
                                          Ensures-bind IsNonneg (IsSystemRecord py)
                                            (nonnegative_int py (get "memory_available" value)) _
                                            (nonnegative_int-IsNonneg py
                                              (get "memory_available" value))
                                            λ memory_available h_memory_available.
                                              Ensures-bind IsNonneg (IsSystemRecord py)
                                                (nonnegative_int py (get "memory_free" value)) _
                                                (nonnegative_int-IsNonneg py
                                                  (get "memory_free" value))
                                                λ memory_free h_memory_free.
                                                  Ensures-bind IsNonneg (IsSystemRecord py)
                                                    (nonnegative_int py
                                                      (get "memory_buffers" value))
                                                    _
                                                    (nonnegative_int-IsNonneg py
                                                      (get "memory_buffers" value))
                                                    λ memory_buffers h_memory_buffers.
                                                      Ensures-bind IsNonneg (IsSystemRecord py)
                                                        (nonnegative_int py
                                                          (get "memory_cached" value))
                                                        _
                                                        (nonnegative_int-IsNonneg py
                                                          (get "memory_cached" value))
                                                        λ memory_cached h_memory_cached.
                                                          Ensures-bind IsNonneg (IsSystemRecord py)
                                                            (nonnegative_int py
                                                            (get "memory_reclaimable" value))
                                                            _
                                                            (nonnegative_int-IsNonneg py
                                                            (get "memory_reclaimable" value))
                                                            λ memory_reclaimable
                                                            h_memory_reclaimable.
                                                            Ensures-bind IsNonneg
                                                            (IsSystemRecord py)
                                                            (nonnegative_int py
                                                            (get "memory_shared" value))
                                                            _
                                                            (nonnegative_int-IsNonneg py
                                                            (get "memory_shared" value))
                                                            λ memory_shared h_memory_shared.
                                                            Ensures-bind IsNonneg
                                                            (IsSystemRecord py)
                                                            (nonnegative_int py
                                                            (get "memory_active" value))
                                                            _
                                                            (nonnegative_int-IsNonneg py
                                                            (get "memory_active" value))
                                                            λ memory_active h_memory_active.
                                                            Ensures-bind IsNonneg
                                                            (IsSystemRecord py)
                                                            (nonnegative_int py
                                                            (get "memory_inactive" value))
                                                            _
                                                            (nonnegative_int-IsNonneg py
                                                            (get "memory_inactive" value))
                                                            λ memory_inactive h_memory_inactive.
                                                            Ensures-bind IsNonneg
                                                            (IsSystemRecord py)
                                                            (nonnegative_int py
                                                            (get "memory_anon" value))
                                                            _
                                                            (nonnegative_int-IsNonneg py
                                                            (get "memory_anon" value))
                                                            λ memory_anon h_memory_anon.
                                                            Ensures-bind IsNonneg
                                                            (IsSystemRecord py)
                                                            (nonnegative_int py
                                                            (get "memory_slab" value))
                                                            _
                                                            (nonnegative_int-IsNonneg py
                                                            (get "memory_slab" value))
                                                            λ memory_slab h_memory_slab.
                                                            Ensures-bind IsNonneg
                                                            (IsSystemRecord py)
                                                            (nonnegative_int py
                                                            (get "memory_page_tables" value))
                                                            _
                                                            (nonnegative_int-IsNonneg py
                                                            (get "memory_page_tables" value))
                                                            λ memory_page_tables
                                                            h_memory_page_tables.
                                                            Ensures-bind IsNonneg
                                                            (IsSystemRecord py)
                                                            (nonnegative_int py
                                                            (get "memory_kernel_stack" value))
                                                            _
                                                            (nonnegative_int-IsNonneg py
                                                            (get "memory_kernel_stack" value))
                                                            λ memory_kernel_stack
                                                            h_memory_kernel_stack.
                                                            Ensures-bind IsNonneg
                                                            (IsSystemRecord py)
                                                            (nonnegative_int py
                                                            (get "memory_dirty" value))
                                                            _
                                                            (nonnegative_int-IsNonneg py
                                                            (get "memory_dirty" value))
                                                            λ memory_dirty h_memory_dirty.
                                                            Ensures-bind IsNonneg
                                                            (IsSystemRecord py)
                                                            (nonnegative_int py
                                                            (get "memory_writeback" value))
                                                            _
                                                            (nonnegative_int-IsNonneg py
                                                            (get "memory_writeback" value))
                                                            λ memory_writeback h_memory_writeback.
                                                            Ensures-bind IsNonneg
                                                            (IsSystemRecord py)
                                                            (nonnegative_int py
                                                            (get "swap_total" value))
                                                            _
                                                            (nonnegative_int-IsNonneg py
                                                            (get "swap_total" value))
                                                            λ swap_total h_swap_total.
                                                            Ensures-bind IsNonneg
                                                            (IsSystemRecord py)
                                                            (nonnegative_int py
                                                            (get "swap_free" value))
                                                            _
                                                            (nonnegative_int-IsNonneg py
                                                            (get "swap_free" value))
                                                            λ swap_free h_swap_free.
                                                            Ensures-bind (AreReadings py)
                                                            (IsSystemRecord py)
                                                            (optional_floats py (
                                                            get_default "per_cpu_percent" (list nil)
                                                            value))
                                                            _
                                                            (optional_floats-AreReadings py laws (
                                                            get_default "per_cpu_percent" (list nil)
                                                            value))
                                                            λ per_cpu_percent h_per_cpu_percent.
                                                            Ensures-bind (AreReadings py)
                                                            (IsSystemRecord py)
                                                            (optional_floats py (
                                                            get_default "cpu_frequency_mhz"
                                                            (list nil) value))
                                                            _
                                                            (optional_floats-AreReadings py laws (
                                                            get_default "cpu_frequency_mhz"
                                                            (list nil) value))
                                                            λ cpu_frequency_mhz h_cpu_frequency_mhz.
                                                            Ensures-bind IsNonneg
                                                            (IsSystemRecord py)
                                                            (nonnegative_int py
                                                            (get "memory_huge_total" value))
                                                            _
                                                            (nonnegative_int-IsNonneg py
                                                            (get "memory_huge_total" value))
                                                            λ memory_huge_total h_memory_huge_total.
                                                            Ensures-bind IsNonneg
                                                            (IsSystemRecord py)
                                                            (nonnegative_int py
                                                            (get "memory_huge_free" value))
                                                            _
                                                            (nonnegative_int-IsNonneg py
                                                            (get "memory_huge_free" value))
                                                            λ memory_huge_free h_memory_huge_free.
                                                            Ensures-bind IsNonneg
                                                            (IsSystemRecord py)
                                                            (nonnegative_int py
                                                            (get "memory_huge_page_size" value))
                                                            _
                                                            (nonnegative_int-IsNonneg py
                                                            (get "memory_huge_page_size" value))
                                                            λ memory_huge_page_size
                                                            h_memory_huge_page_size.
                                                            record {
                                                            cpu_percent = h_cpu_percent;
                                                            load_1 = h_load_1;
                                                            load_5 = h_load_5;
                                                            load_15 = h_load_15;
                                                            logical_cpus = h_logical_cpus;
                                                            uptime_seconds = h_uptime_seconds;
                                                            memory_total = h_memory_total;
                                                            memory_available = h_memory_available;
                                                            memory_free = h_memory_free;
                                                            memory_buffers = h_memory_buffers;
                                                            memory_cached = h_memory_cached;
                                                            memory_reclaimable =
                                                            h_memory_reclaimable;
                                                            memory_shared = h_memory_shared;
                                                            memory_active = h_memory_active;
                                                            memory_inactive = h_memory_inactive;
                                                            memory_anon = h_memory_anon;
                                                            memory_slab = h_memory_slab;
                                                            memory_page_tables =
                                                            h_memory_page_tables;
                                                            memory_kernel_stack =
                                                            h_memory_kernel_stack;
                                                            memory_dirty = h_memory_dirty;
                                                            memory_writeback = h_memory_writeback;
                                                            swap_total = h_swap_total;
                                                            swap_free = h_swap_free;
                                                            pressure = h_pressure;
                                                            vm = h_vm;
                                                            per_cpu_percent = h_per_cpu_percent;
                                                            cpu_frequency_mhz = h_cpu_frequency_mhz;
                                                            memory_huge_total = h_memory_huge_total;
                                                            memory_huge_free = h_memory_huge_free;
                                                            memory_huge_page_size =
                                                            h_memory_huge_page_size;
                                                            }
