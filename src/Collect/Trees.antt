-- ===== src/Collect/Trees.antt =====
-- The sets and tables of `LinuxCollector._processes` of src/kilix_telemetry/collect.py.
use kilix_telemetry.Common.{
  ℤ, pos, ◌+ℤ◌, ◌==ℤ◌, ltb_ℤ, sum_ℤ, Bool, true, false, ◌&&◌, ◌||◌, Option, none, some, List, [],
  ◌∷◌, map, if◌then◌else◌,
}
use kilix_telemetry.IntSet.{contains, add}
use kilix_telemetry.Sorting.{sorted}
use kilix_telemetry.Tree.{process_children, descendant_pids}
use kilix_telemetry.Dict.{assign}
use kilix_telemetry.Collect.State.{Reading}
use kilix_telemetry.Collect.Stat.{RawProcess, Identity, same_process}

abbrev pub identity_of : RawProcess → Identity
identity_of process = (process.pid, process.start_ticks)

-- `tuple(sorted({pid for pid in pss_roots if pid > 0}))`
unfoldable pub positive_set : List ℤ → List ℤ
positive_set [] = []
positive_set (pid ∷ rest) =
    let pids = positive_set rest in if ltb_ℤ (pos 0) pid then add pid pids else pids

unfoldable pub same_roots : List ℤ → List ℤ → Bool
same_roots [] [] = true
same_roots (a ∷ rest) (b ∷ others) = a ==ℤ b && same_roots rest others
same_roots _ _ = false

-- `by_pid = {process.pid: process for process in raw}`, read at one PID.
unfoldable pub raw_by_pid : ℤ → List RawProcess → Option RawProcess
raw_by_pid pid [] = none
raw_by_pid pid (process ∷ rest) = elim (raw_by_pid pid rest) [
  | some later ↦ some later
  | none ↦ if process.pid ==ℤ pid then some process else none
]

-- `trees[root_pid]`
unfoldable pub tree_pids : List RawProcess → ℤ → List ℤ
tree_pids raw root_pid =
    let (live, children) = process_children (λ p. p.pid) (λ p. p.ppid) raw in
    sorted (descendant_pids live children (root_pid ∷ []))

-- `pid in pss_pids`
unfoldable pub in_some_tree : List RawProcess → List ℤ → ℤ → Bool
in_some_tree raw [] pid = false
in_some_tree raw (root ∷ roots) pid =
    contains pid (tree_pids raw root) || in_some_tree raw roots pid

-- `{process.pid: (process.start_ticks, process.cpu_ticks) for process in raw}`
unfoldable pub readings : List (ℤ × Reading) → List RawProcess → List (ℤ × Reading)
readings current [] = current
readings current (process ∷ rest) =
    readings (assign ◌==ℤ◌ process.pid (process.start_ticks, process.cpu_ticks) current) rest

-- `identity in live`
unfoldable pub is_live : List RawProcess → Identity → Bool
is_live [] identity = false
is_live (process ∷ rest) identity =
    same_process (identity_of process) identity || is_live rest identity

-- `sum(process.cpu_ticks + process.child_cpu_ticks for process in selected_raw)`
abbrev pub tree_ticks : List RawProcess → ℤ
tree_ticks selected = sum_ℤ (map (λ p. p.cpu_ticks +ℤ p.child_cpu_ticks) selected)
