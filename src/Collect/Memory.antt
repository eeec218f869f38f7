-- ===== src/Collect/Memory.antt =====
-- `_meminfo`, `_vm`, `_loads` and `_uptime`: the system's counters.
pub mod Bounds
use kilix_telemetry.Common.{
  ℕ, ℤ, pos, ◌+ℤ◌, ◌-ℤ◌, max_ℤ, min_ℤ, String, str_eq, Bool, true, false, not, ◌&&◌, ◌||◌, Option,
  none, some, List, [], ◌∷◌, map, if◌then◌else◌,
}
use Prim.Native.String as Str
use kilix_telemetry.Values.{Python, max_float}
use kilix_telemetry.Text.{Unicode, split, split_lines, split_at, begins_with}
use kilix_telemetry.Dict.{lookup, assign, or_default}
use kilix_telemetry.Collect.{Table, key_values, nonnegative, amount_of}

abbrev pub Amounts : Type 0
Amounts = List (String × ℤ)

-- `values.get(key, default)`
abbrev pub amount : String → ℤ → Amounts → ℤ
amount key default values = or_default default (lookup str_eq key values)

-- The end of `_meminfo`, which sets MemAvailable.
unfoldable pub with_available : Amounts → Amounts
with_available values =
    let total = amount "MemTotal" (pos 0) values in
    let free = min_ℤ total (amount "MemFree" (pos 0) values) in
    let fallback =
      free
      +ℤ amount "Buffers" (pos 0) values
      +ℤ amount "Cached" (pos 0) values
      +ℤ amount "SReclaimable" (pos 0) values
      -ℤ amount "Shmem" (pos 0) values in
    assign str_eq "MemAvailable" (max_ℤ free (min_ℤ total (amount "MemAvailable" fallback values)))
      values

-- `key not in _VM_KEYS and not key.startswith(_VM_PREFIXES)`, negated.
unfoldable pub is_vm_key : String → Bool
is_vm_key key =
    str_eq key "pgfault"
    || str_eq key "pgmajfault"
    || str_eq key "pswpin"
    || str_eq key "pswpout"
    || str_eq key "oom_kill"
    || str_eq key "compact_stall"
    || begins_with "pgscan_" key
    || begins_with "pgsteal_" key
    || begins_with "allocstall" key

module _ {F : Type 0} (py : Python F) (unicode : Unicode) where
  -- The loop of `_meminfo`.
  unfoldable pub meminfo_entries : Amounts → Table → Amounts
  meminfo_entries values [] = values
  meminfo_entries values ((key, tail) ∷ rest) = elim (amount_of py unicode (split tail)) [
    | none ↦ meminfo_entries values rest
    | some z ↦ meminfo_entries (assign str_eq key z values) rest
  ]

  -- `_meminfo` on the text of /proc/meminfo.
  unfoldable pub meminfo : String → Amounts
  meminfo text = with_available (meminfo_entries [] (key_values text))

  -- One line of /proc/vmstat, by its fields.
  unfoldable pub vm_fields : Amounts → List String → Amounts
  vm_fields values (key ∷ count ∷ []) =
      let set : Amounts = elim (nonnegative py count) [
        | none ↦ values
        | some z ↦ assign str_eq key z values
      ] in
      if is_vm_key key then set else values
  vm_fields values _ = values

  unfoldable pub vm_lines : Amounts → List String → Amounts
  vm_lines values [] = values
  vm_lines values (line ∷ rest) = vm_lines (vm_fields values (split line)) rest

  -- `_vm` on the text of /proc/vmstat.
  unfoldable pub vm : String → Amounts
  vm text = vm_lines [] (split_lines text)

  -- `max(0.0, float(text))`, with the ValueError as `none`.
  unfoldable pub nonnegative_float : String → Option F
  nonnegative_float text = elim (py.float_of_str text) [
    | none ↦ none
    | some f ↦ some (max_float py py.zero_float f)
  ]

  unfoldable pub three_floats : List String → Option (F × F × F)
  three_floats (a ∷ b ∷ c ∷ rest) = elim (nonnegative_float a) [
    | none ↦ none
    | some x ↦ elim (nonnegative_float b) [
      | none ↦ none
      | some y ↦ elim (nonnegative_float c) [ none ↦ none | some z ↦ some (x, y, z) ]
    ]
  ]
  three_floats _ = none

  -- `_loads` on the text of /proc/loadavg.
  unfoldable pub loads : String → F × F × F
  loads text = or_default (py.zero_float, py.zero_float, py.zero_float) (three_floats (split text))

  unfoldable pub first_float : List String → Option F
  first_float [] = none
  first_float (first ∷ rest) = nonnegative_float first

  -- `_uptime` on the text of /proc/uptime.
  unfoldable pub uptime : String → F
  uptime text = or_default py.zero_float (first_float (split text))

  -- One item `key=value` of a line of pressure.
  unfoldable pub pressure_item : String → List (String × F) → String → List (String × F)
  pressure_item first values item =
      let (key, separator, raw) = split_at b'=' item in
      let set : List (String × F) = elim (nonnegative_float raw) [
        | none ↦ values
        | some value ↦ assign str_eq (Str.◌++◌ first (Str.◌++◌ "_" key)) value values
      ] in
      if separator then set else values

  unfoldable pub pressure_items : String → List (String × F) → List String → List (String × F)
  pressure_items first values [] = values
  pressure_items first values (item ∷ rest) =
      pressure_items first (pressure_item first values item) rest

  unfoldable pub pressure_lines : List (String × F) → List (List String) → List (String × F)
  pressure_lines values [] = values
  pressure_lines values ([] ∷ rest) = pressure_lines values rest
  pressure_lines values ((first ∷ items) ∷ rest) =
      pressure_lines (pressure_items first values items) rest

  -- `_pressure` on the texts of the three files below /proc/pressure.
  unfoldable pub pressure : (String → String) → List String → List (String × List (String × F))
  pressure file [] = []
  pressure file (resource ∷ rest) =
      let later = pressure file rest in
      elim (pressure_lines [] (map split (split_lines (file resource)))) [
        | [] ↦ later
        | value ∷ values ↦ (resource, value ∷ values) ∷ later
      ]
