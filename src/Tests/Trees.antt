-- ===== src/Tests/Trees.antt =====
-- The process tree and its panes at a concrete table.
use kilix_telemetry.Common.{
  ℤ, pos, ◌==ℤ◌, max_ℤ, ◌≡◌, refl, ◌↔◌, ◌+◌, true, inl, inr, some, none, List, [], ◌∷◌, ok, arith,
}
use kilix_telemetry.IntSet.{contains, extend, add, IsDistinct}
use kilix_telemetry.Sorting.{sort_by}
use kilix_telemetry.Tree.{
  children_of, append_child, index_processes, process_children, walk, child_count, descendant_pids,
}
use kilix_telemetry.Tree.Descendants.{Descendant, descendant_pids_correct}
use kilix_telemetry.Model.{PaneMetrics, ProcessMetrics}
use kilix_telemetry.Panes.{aggregate, pane, selected_pids, published_pane}
use kilix_telemetry.Panes.Aggregate.{IsTree, pid_of, ppid_of, pane-IsTree, pane_returns}
use kilix_telemetry.Tests.Instances.{Float, python, table, snapshot}

tree_of_one : selected_pids table (pos 1) ≡ pos 1 ∷ pos 2 ∷ pos 3 ∷ []
unfolding selected_pids process_children descendant_pids sort_by walk child_count index_processes
    append_child ◌==ℤ◌ extend contains add children_of
tree_of_one = refl

descendant_pids_correct_example :
    (walk
        (process_children pid_of ppid_of table).0
        (process_children pid_of ppid_of table).1
        (1 + child_count (process_children pid_of ppid_of table).1)
        []
        (extend (pos 1 ∷ []) [])
      ≡ some (
          descendant_pids
            (process_children pid_of ppid_of table).0
            (process_children pid_of ppid_of table).1
            (pos 1 ∷ [])))
    × IsDistinct (
        descendant_pids
          (process_children pid_of ppid_of table).0
          (process_children pid_of ppid_of table).1
          (pos 1 ∷ []))
    × ((v : ℤ)
        → (contains v (
              descendant_pids
                (process_children pid_of ppid_of table).0
                (process_children pid_of ppid_of table).1
                (pos 1 ∷ []))
            ≡ true)
          ↔ Descendant pid_of ppid_of table (pos 1 ∷ []) v)
descendant_pids_correct_example = descendant_pids_correct pid_of ppid_of table (pos 1 ∷ [])

no_pane : published_pane (pos 1) snapshot.panes ≡ none
unfolding published_pane
no_pane = refl

pane-IsTree_example :
    (selected : List (ProcessMetrics Float)) × (pane python snapshot (pos 1)
      ≡ ok (aggregate python (pos 1) selected))
    × IsTree snapshot.processes (pos 1) selected
pane-IsTree_example = pane-IsTree python snapshot (pos 1) (omega arith) no_pane (inr (inl refl))

pane_returns_example :
    (result : PaneMetrics Float) × (pane python snapshot (pos 9) ≡ ok result)
    × (result.root_pid ≡ max_ℤ (pos 0) (pos 9))
pane_returns_example = pane_returns python snapshot (pos 9)
