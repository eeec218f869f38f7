-- ===== src/Collect/Cpu.antt =====
-- `_cpu_percent` and `_cpu`: the shares of busy time between two readings of /proc/stat.
pub mod Percent
use kilix_telemetry.Common.{
  ℕ, zero, suc, ◌+◌, ℤ, pos, pos_part, ◌+ℤ◌, ◌-ℤ◌, ◌==ℤ◌, max_ℤ, leb_ℤ, sum_ℤ, String, str_eq, Bool,
  true, false, Option, none, some, List, [], ◌∷◌, map, traverse, Result, ok, err, value_error,
  if◌then◌else◌, ◌>>=◌,
}
use kilix_telemetry.Values.{Python, max_float, min_float}
use kilix_telemetry.Text.{Unicode, split, split_lines, suffix_from, begins_with}
use kilix_telemetry.Dict.{lookup, assign}
use kilix_telemetry.Collect.{Arithmetic, to_float, quotient, nonnegatives}

-- The sums `(total, idle)` of one line of /proc/stat.
abbrev pub Ticks : Type 0
Ticks = ℤ × ℤ

abbrev pub PerCpu : Type 0
PerCpu = List (ℤ × Ticks)

unfoldable pub ticks_of : List ℤ → Option Ticks
ticks_of (user ∷ nice ∷ system ∷ idle ∷ []) =
    some (sum_ℤ (user ∷ nice ∷ system ∷ idle ∷ []), idle +ℤ pos 0)
ticks_of (user ∷ nice ∷ system ∷ idle ∷ iowait ∷ rest) =
    some (sum_ℤ (user ∷ nice ∷ system ∷ idle ∷ iowait ∷ rest), idle +ℤ iowait)
ticks_of _ = none

-- `max(d)` of a dictionary that is not empty.
unfoldable pub max_key : ℤ → PerCpu → ℤ
max_key best [] = best
max_key best ((key, ticks) ∷ rest) = max_key (max_ℤ best key) rest

-- `range(n)`
unfoldable pub range_from : ℤ → ℕ → List ℤ
range_from start zero = []
range_from start (suc n) = start ∷ range_from (start +ℤ pos 1) n

-- `max(1, (max(per_cpu) + 1) if per_cpu else (os.cpu_count() or 1))`, where `os.cpu_count() or 1` is
-- the argument.
unfoldable pub logical_of : ℤ → PerCpu → ℤ
logical_of cpu_count [] = max_ℤ (pos 1) cpu_count
logical_of cpu_count ((key, ticks) ∷ rest) = max_ℤ (pos 1) (max_key key rest +ℤ pos 1)

module _ {F : Type 0} (py : Python F) (arithmetic : Arithmetic F) where
  -- `max(0.0, min(100.0, percent))`
  abbrev pub clamp_percent : F → F
  clamp_percent percent = max_float py py.zero_float (min_float py py.hundred_float percent)

  unfoldable pub busy_percent : ℤ → ℤ → Result F
  busy_percent busy total = do
    numerator ← to_float py busy
    denominator ← to_float py total
    share ← quotient py arithmetic (arithmetic.mul py.hundred_float numerator) denominator
    ok (clamp_percent share)

  -- `_cpu_percent`
  unfoldable pub cpu_percent : Ticks → Option Ticks → Result (Option F)
  cpu_percent (total, idle) none = ok none
  cpu_percent (total, idle) (some (old_total, old_idle)) =
      let total_delta = total -ℤ old_total in
      let idle_delta = max_ℤ (pos 0) (idle -ℤ old_idle) in
      if leb_ℤ total old_total then ok none else do
        percent ← busy_percent (max_ℤ (pos 0) (total_delta -ℤ idle_delta)) total_delta
        ok (some percent)

  module _ (unicode : Unicode) where
    -- One line with readable ticks: the aggregate, or one CPU's. Text that only looks like digits
    -- raises the ValueError of `int`.
    unfoldable pub note_ticks : String → Ticks → Ticks × PerCpu → Result (Ticks × PerCpu)
    note_ticks name ticks (aggregate, per_cpu) =
        let index = suffix_from 3 name in
        let numbered : Result (Ticks × PerCpu) = elim (py.int_of_str index) [
          | none ↦ err value_error
          | some cpu ↦ ok (aggregate, assign ◌==ℤ◌ cpu ticks per_cpu)
        ] in
        if str_eq name "cpu"
        then ok (ticks, per_cpu)
        else if unicode.is_digits index
        then numbered
        else ok (aggregate, per_cpu)

    unfoldable pub cpu_fields : List String → Ticks × PerCpu → Result (Ticks × PerCpu)
    cpu_fields [] noted = ok noted
    cpu_fields (name ∷ fields) noted =
        let read : Result (Ticks × PerCpu) = elim (nonnegatives py fields) [
          | none ↦ ok noted
          | some values ↦ elim (ticks_of values) [
            | none ↦ ok noted
            | some ticks ↦ note_ticks name ticks noted
          ]
        ] in
        if begins_with "cpu" name then read else ok noted

    unfoldable pub cpu_lines : List String → Ticks × PerCpu → Result (Ticks × PerCpu)
    cpu_lines [] noted = ok noted
    cpu_lines (line ∷ rest) noted = do next ← cpu_fields (split line) noted; cpu_lines rest next

    unfoldable pub percent_at : PerCpu → PerCpu → ℤ → Result (Option F)
    percent_at per_cpu previous index = elim (lookup ◌==ℤ◌ index per_cpu) [
      | none ↦ ok none
      | some ticks ↦ cpu_percent ticks (lookup ◌==ℤ◌ index previous)
    ]

    -- `_cpu` on the text of /proc/stat: the readings `self._previous_cpu` and
    -- `self._previous_per_cpu` that it replaces, and what it returns.
    unfoldable pub cpu :
        ℤ
        → String
        → Option Ticks
        → PerCpu
        → Result ((Ticks × PerCpu) × Option F × ℤ × List (Option F))
    cpu cpu_count text previous previous_per_cpu = do
      noted ← cpu_lines (split_lines text) ((pos 0, pos 0), [])
      percent ← cpu_percent noted.0 previous
      let logical = logical_of cpu_count noted.1
      per_percent ←
          traverse (percent_at noted.1 previous_per_cpu) (range_from (pos 0) (pos_part logical))
      ok (noted, percent, logical, per_percent)
