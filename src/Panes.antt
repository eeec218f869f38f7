-- ===== src/Panes.antt =====
-- The properties and the pane aggregation of model.py's records: `memory_used`, `hottest_celsius`
-- and `Snapshot.pane`.
pub mod Aggregate
use kilix_telemetry.Common.{
  ℕ, suc, ℤ, pos, negsuc, ◌-ℤ◌, ◌==ℤ◌, max_ℤ, min_ℤ, leb_ℤ, sum_ℤ, Bool, true, false, not, ◌&&◌,
  ◌||◌, Option, none, some, List, [], ◌∷◌, map, length, all, is_nonempty, Result, ok, err,
  key_error, ◌>>=◌, if◌then◌else◌, traverse,
}
use kilix_telemetry.IntSet.{contains}
use kilix_telemetry.Sorting.{sorted}
use kilix_telemetry.Values.{Python}
use kilix_telemetry.Tree.{process_children, descendant_pids}
use kilix_telemetry.Model.{ThermalSensor, ProcessMetrics, SystemMetrics, PaneMetrics, Snapshot}

unfoldable pub memory_used : {F : Type 0} → SystemMetrics F → ℤ
memory_used system =
    max_ℤ (pos 0) (system.memory_total -ℤ min_ℤ system.memory_total system.memory_available)

-- `by_pid[pid]`
abbrev pub or_key_error {ℓ} : {A : Type ℓ} → Option A → Result A
or_key_error none = err key_error
or_key_error (some a) = ok a

module _ {F : Type 0} where
  -- `by_pid = {process.pid: process for process in processes}`, read at one PID: the last record
  -- of the table with that PID is kept.
  unfoldable pub by_pid : ℤ → List (ProcessMetrics F) → Option (ProcessMetrics F)
  by_pid pid [] = none
  by_pid pid (process ∷ rest) = elim (by_pid pid rest) [
    | some later ↦ some later
    | none ↦ if process.pid ==ℤ pid then some process else none
  ]

  -- The first published pane with this root, if any.
  unfoldable pub published_pane : ℤ → List (PaneMetrics F) → Option (PaneMetrics F)
  published_pane root_pid [] = none
  published_pane root_pid (pane ∷ rest) =
      if pane.root_pid ==ℤ root_pid then some pane else published_pane root_pid rest

  -- `process.rss_bytes if process.pss_bytes is None else process.pss_bytes`
  unfoldable pub proportional : ProcessMetrics F → ℤ
  proportional process = elim process.pss_bytes [ none ↦ process.rss_bytes | some pss ↦ pss ]

  unfoldable pub has_pss : ProcessMetrics F → Bool
  has_pss process = elim process.pss_bytes [ none ↦ false | some pss ↦ true ]

  -- `sorted(_descendant_pids(live, children, (root_pid,)))`
  unfoldable pub selected_pids : List (ProcessMetrics F) → ℤ → List ℤ
  selected_pids processes root_pid =
      let (live, children) = process_children (λ p. p.pid) (λ p. p.ppid) processes in
      sorted (descendant_pids live children (root_pid ∷ []))

module _ {F : Type 0} (py : Python F) where
  -- `max((sensor.celsius for sensor in self.thermal), default=None)`
  unfoldable pub hottest_from : F → List (ThermalSensor F) → F
  hottest_from best [] = best
  hottest_from best (sensor ∷ rest) =
      hottest_from (if py.lt best sensor.celsius then sensor.celsius else best) rest

  unfoldable pub hottest_celsius : Snapshot F → Option F
  hottest_celsius snapshot = elim snapshot.thermal [
    | [] ↦ none
    | sensor ∷ rest ↦ some (hottest_from sensor.celsius rest)
  ]

  -- The pane of a root with no process.
  unfoldable pub empty_pane : ℤ → PaneMetrics F
  empty_pane root_pid = record {
    root_pid = root_pid;
    process_count = pos 0;
    cpu_cores = py.zero_float;
    rss_bytes = pos 0;
    proportional_bytes = pos 0;
    complete_pss = false;
  }

  unfoldable pub aggregate : ℤ → List (ProcessMetrics F) → PaneMetrics F
  aggregate root_pid selected = record {
    root_pid = root_pid;
    process_count = pos (length selected);
    cpu_cores = py.sum_float (map (λ process. process.cpu_cores) selected);
    rss_bytes = sum_ℤ (map (λ process. process.rss_bytes) selected);
    proportional_bytes = sum_ℤ (map proportional selected);
    complete_pss = is_nonempty selected && all has_pss selected;
  }

  -- The part of `pane` behind the loop over the published panes.
  unfoldable pub local_pane : List (ProcessMetrics F) → ℤ → Result (PaneMetrics F)
  local_pane processes root_pid =
      if leb_ℤ root_pid (pos 0)
      then ok (empty_pane root_pid)
      else elim (by_pid root_pid processes) [
        | none ↦ ok (empty_pane root_pid)
        | some root ↦ do
          selected ←
              traverse (λ pid. or_key_error (by_pid pid processes))
                (selected_pids processes root_pid)
          ok (aggregate root_pid selected)
      ]

  -- `Snapshot.pane` at an integer, where `_nonnegative_int` cuts off at 0.
  unfoldable pub pane : Snapshot F → ℤ → Result (PaneMetrics F)
  pane snapshot root =
      let root_pid = max_ℤ (pos 0) root in
      elim (published_pane root_pid snapshot.panes) [
        | some published ↦ ok published
        | none ↦ local_pane snapshot.processes root_pid
      ]
