-- ===== src/Collect/Sensors.antt =====
-- `_thermal` and `_cpu_frequency`: the readings that are refreshed on a slower cadence. What
-- `_discover_sensors` finds is an argument.
use kilix_telemetry.Common.{
  ℕ, zero, suc, ℤ, pos, pos_part, ◌-ℤ◌, leb_ℤ, ltb_ℤ, String, str_eq, Bool, true, false, not, ◌&&◌,
  ◌||◌, ◌==◌, Option, none, some, List, [], ◌∷◌, length, replicate, Result, ok, if◌then◌else◌,
  ◌>>=◌,
}
use kilix_telemetry.Values.{Python}
use kilix_telemetry.Model.{ThermalSensor, FanSensor}
use kilix_telemetry.Text.{Unicode, split_lines, split_at, strip}
use kilix_telemetry.Collect.{Arithmetic, number, temperature}

-- `_TemperatureSource`
pub record TemperatureSource (F : Type 0) : Type 0 where
  pub input_path : String
  pub key : String
  pub chip : String
  pub label : String
  pub source : String
  pub warning_celsius : Option F
  pub critical_celsius : Option F

-- `_FanSource`
pub record FanSource : Type 0 where
  pub input_path : String
  pub key : String
  pub chip : String
  pub label : String
  pub source : String

-- The attributes of the collector that `_thermal` reads and sets.
pub record SensorState (F : Type 0) : Type 0 where
  pub thermal_sample_ns : Option ℤ
  pub thermal_cache : List (ThermalSensor F)
  pub fan_cache : List FanSensor
  pub sensors_scanned_ns : Option ℤ
  pub rescan_sensors : Bool
  pub temperature_sources : List (TemperatureSource F)
  pub fan_sources : List FanSource

-- A file system for the sensors: the text of a file, and whether the path exists.
pub record SensorFiles : Type 0 where
  pub text : String → String
  pub exists : String → Bool

-- Whether an earlier time lies within an interval.
unfoldable pub is_within : ℤ → ℤ → Option ℤ → Bool
is_within now_ns interval_ns none = false
is_within now_ns interval_ns (some when) = ltb_ℤ (now_ns -ℤ when) interval_ns

module _ {F : Type 0} (py : Python F) (arithmetic : Arithmetic F) where
  unfoldable pub sensor_of : TemperatureSource F → F → ThermalSensor F
  sensor_of source celsius = record {
    key = source.key;
    chip = source.chip;
    label = source.label;
    source = source.source;
    celsius = celsius;
    warning_celsius = source.warning_celsius;
    critical_celsius = source.critical_celsius;
  }

  -- The loop over the temperatures: the sensors with a reading, and whether to rescan.
  unfoldable pub read_temperatures :
      SensorFiles → Bool → List (TemperatureSource F) → List (ThermalSensor F) × Bool
  read_temperatures files rescan [] = ([], rescan)
  read_temperatures files rescan (source ∷ rest) =
      elim (temperature py arithmetic (files.text source.input_path) false) [
        | none ↦ read_temperatures files (rescan || not (files.exists source.input_path)) rest
        | some celsius ↦
            let (sensors, last) = read_temperatures files rescan rest in
            (sensor_of source celsius ∷ sensors, last)
      ]

  unfoldable pub fan_of : FanSource → ℤ → FanSensor
  fan_of fan rpm = record {
    key = fan.key;
    chip = fan.chip;
    label = fan.label;
    source = fan.source;
    rpm = rpm;
  }

  -- `rpm < 0.0 or rpm > 200_000.0`
  unfoldable pub is_odd_rpm : F → Bool
  is_odd_rpm rpm = py.lt rpm py.zero_float || py.lt (arithmetic.whole 200_000) rpm

  -- The loop over the fans.
  unfoldable pub read_fans : SensorFiles → Bool → List FanSource → Result (List FanSensor × Bool)
  read_fans files rescan [] = ok ([], rescan)
  read_fans files rescan (fan ∷ rest) = elim (number py (files.text fan.input_path)) [
    | none ↦ read_fans files (rescan || not (files.exists fan.input_path)) rest
    | some rpm ↦ elim (is_odd_rpm rpm) [
      | true ↦ read_fans files rescan rest
      | false ↦ do
        rounded ← arithmetic.round rpm
        others ← read_fans files rescan rest
        ok (fan_of fan rounded ∷ others.0, others.1)
    ]
  ]

  -- The sources behind the test for a scan: the old ones, or those that a scan now finds.
  unfoldable pub scanned :
      ℤ → ℤ → List (TemperatureSource F) × List FanSource → SensorState F → SensorState F
  scanned rescan_ns now_ns (temperatures, fans) state =
      if state.rescan_sensors || not (is_within now_ns rescan_ns state.sensors_scanned_ns)
      then record state {
        temperature_sources = temperatures;
        fan_sources = fans;
        sensors_scanned_ns = some now_ns;
        rescan_sensors = false;
      }
      else state

  -- `_thermal` behind the early return and the scan.
  unfoldable pub refreshed : ℤ → SensorFiles → SensorState F → Result (SensorState F)
  refreshed now_ns files state =
      let (sensors, missing) =
        read_temperatures files state.rescan_sensors state.temperature_sources in
      do
        fans ← read_fans files missing state.fan_sources
        ok (record state {
          thermal_sample_ns = some now_ns;
          thermal_cache = sensors;
          fan_cache = fans.0;
          rescan_sensors = fans.1;
        })

  -- `_thermal`: the state that it leaves, whose caches are the readings.
  unfoldable pub thermal :
      ℤ
      → ℤ
      → ℤ
      → List (TemperatureSource F) × List FanSource
      → SensorFiles
      → SensorState F
      → Result (SensorState F)
  thermal interval_ns rescan_ns now_ns found files state =
      let next = refreshed now_ns files (scanned rescan_ns now_ns found state) in
      if is_within now_ns interval_ns state.thermal_sample_ns then ok state else next

  -- `values[index] = value`
  unfoldable pub set_at : ℕ → Option F → List (Option F) → List (Option F)
  set_at i value [] = []
  set_at zero value (x ∷ rest) = value ∷ rest
  set_at (suc i) value (x ∷ rest) = x ∷ set_at i value rest

  -- A CPU's frequency as /proc/cpuinfo gives it.
  unfoldable pub note_mhz : Option ℤ → Option F → List (Option F) → List (Option F)
  note_mhz (some cpu) (some mhz) values =
      if py.lt py.zero_float mhz
        && py.lt mhz (arithmetic.whole 1_000_000)
        && leb_ℤ (pos 0) cpu
        && ltb_ℤ cpu (pos (length values))
      then set_at (pos_part cpu) (some (arithmetic.three_digits mhz)) values
      else values
  note_mhz _ _ values = values

  module _ (unicode : Unicode) where
    -- One line of /proc/cpuinfo: the CPU that the next lines are about, and the frequencies so far.
    unfoldable pub cpuinfo_line : Option ℤ × List (Option F) → String → Option ℤ × List (Option F)
    cpuinfo_line (current, values) line =
        let (before, separator, raw) = split_at b':' line in
        let key = unicode.lower (strip before) in
        if not separator
        then (current, values)
        else if str_eq key "processor"
        then (py.int_of_str (strip raw), values)
        else if str_eq key "cpu mhz"
        then (current, note_mhz current (number py raw) values)
        else (current, values)

    unfoldable pub cpuinfo_lines :
        Option ℤ × List (Option F) → List String → Option ℤ × List (Option F)
    cpuinfo_lines state [] = state
    cpuinfo_lines state (line ∷ rest) = cpuinfo_lines (cpuinfo_line state line) rest

    -- `0.0 < khz < 1_000_000_000.0`, and the frequency in MHz.
    unfoldable pub scaled_khz : Option F → Option F
    scaled_khz none = none
    scaled_khz (some khz) =
        if py.lt py.zero_float khz && py.lt khz (arithmetic.whole 1_000_000_000)
        then some (arithmetic.three_digits (arithmetic.div khz (arithmetic.whole 1000)))
        else none

    -- The loop over the CPUs that /proc/cpuinfo gave no frequency for; `scaling` is the text of each
    -- one's scaling_cur_freq.
    unfoldable pub filled_in : (ℕ → String) → ℕ → List (Option F) → List (Option F)
    filled_in scaling i [] = []
    filled_in scaling i (some mhz ∷ rest) = some mhz ∷ filled_in scaling (suc i) rest
    filled_in scaling i (none ∷ rest) =
        scaled_khz (number py (scaling i)) ∷ filled_in scaling (suc i) rest

    -- `_cpu_frequency` from the texts.
    unfoldable pub frequencies : String → (ℕ → String) → ℕ → List (Option F)
    frequencies cpuinfo scaling logical_cpus =
        filled_in scaling 0
          (cpuinfo_lines (none, replicate logical_cpus none) (split_lines cpuinfo)).1

    -- `_cpu_frequency`: the time of the readings and the readings, which are kept for an interval as
    -- long as their number is that of the CPUs.
    unfoldable pub cpu_frequency :
        ℤ → ℤ → String → (ℕ → String) → ℕ → Option ℤ × List (Option F) → Option ℤ × List (Option F)
    cpu_frequency interval_ns now_ns cpuinfo scaling logical_cpus (when, cache) =
        if is_within now_ns interval_ns when && length cache == logical_cpus
        then (when, cache)
        else (some now_ns, frequencies cpuinfo scaling logical_cpus)
