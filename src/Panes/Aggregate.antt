-- ===== src/Panes/Aggregate.antt =====
-- `Snapshot.pane`: which processes it aggregates, and that it never raises.
use kilix_telemetry.Common.{
  ℤ, pos, ◌≤ℤ◌, ==ℤ_iff, max_ℤ, max_ℤ-of_IsNonneg, leb_ℤ, ltb_ℤ, ◌≡◌, refl, ◌↔◌, inl, inr, true,
  none, some, List, [], ◌∷◌, map, All, arith, ok, traverse, Bool-cases, Option-cases,
}
use kilix_telemetry.IntSet.{contains, contains-cons, IsDistinct}
use kilix_telemetry.Sorting.{
  sorted, IsSorted, sort_by_key-IsSorted, contains-sort_by, sort_by-IsDistinct,
}
use kilix_telemetry.Values.{Python}
use kilix_telemetry.Tree.{process_children, descendant_pids}
use kilix_telemetry.Tree.Descendants.{
  HasPid, Descendant, descendant_pids_correct, HasPid-of_Descendant,
}
use kilix_telemetry.Model.{ProcessMetrics, PaneMetrics, Snapshot}
use kilix_telemetry.Panes.{
  by_pid, or_key_error, published_pane, aggregate, empty_pane, selected_pids, local_pane, pane,
}

All-of_contains :
    (P : ℤ → Type 0) (pids : List ℤ) → ((v : ℤ) → contains v pids ≡ true → P v) → All P pids
All-of_contains P [] h = tt
All-of_contains P (x ∷ xs) h = (
  h x ((contains-cons x x xs).1 (inl refl)),
  All-of_contains P xs (λ v c. h v ((contains-cons v x xs).1 (inr c))),
)

module _ {F : Type 0} where
  abbrev pub pid_of : ProcessMetrics F → ℤ
  pid_of process = process.pid

  abbrev pub ppid_of : ProcessMetrics F → ℤ
  ppid_of process = process.ppid

  published_pane-root :
      (root : ℤ) (panes : List (PaneMetrics F)) (found : PaneMetrics F)
      → published_pane root panes ≡ some found
      → found.root_pid ≡ root
  unfolding published_pane
  published_pane-root root [] found e = cc
  published_pane-root root (pane ∷ rest) found e =
      ground (arith, ==ℤ_iff pane.root_pid root, published_pane-root root rest found)

  by_pid_pid :
      (pid : ℤ) (processes : List (ProcessMetrics F)) (process : ProcessMetrics F)
      → by_pid pid processes ≡ some process
      → process.pid ≡ pid
  unfolding by_pid
  by_pid_pid pid [] process e = cc
  by_pid_pid pid (first ∷ rest) process e =
      ground (arith, ==ℤ_iff first.pid pid, by_pid_pid pid rest process)

  pub by_pid_found :
      (pid : ℤ) (processes : List (ProcessMetrics F))
      → HasPid pid_of pid processes
      → (process : ProcessMetrics F) × (by_pid pid processes ≡ some process) × (process.pid ≡ pid)
  unfolding by_pid
  by_pid_found pid [] h = absurd h
  by_pid_found pid (process ∷ rest) h = elim (Option-cases (by_pid pid rest)) [
    | inr (later, e) ↦ (later, rw e, by_pid_pid pid rest later e)
    | inl e ↦ (
      process,
      ground (arith, ==ℤ_iff process.pid pid, by_pid_found pid rest),
      ground (arith, by_pid_found pid rest),
    )
  ]

  -- Looking up PIDs of the table raises no KeyError, and finds a record for each.
  lookup-All :
      (processes : List (ProcessMetrics F)) (pids : List ℤ)
      → All (λ v. HasPid pid_of v processes) pids
      → (selected : List (ProcessMetrics F)) × (traverse
            (λ pid. or_key_error (by_pid pid processes))
            pids
          ≡ ok selected)
        × (map pid_of selected ≡ pids)
        × All (λ p. by_pid p.pid processes ≡ some p) selected
  unfolding traverse
  lookup-All processes [] h = ([], refl, refl, tt)
  lookup-All processes (pid ∷ pids) h =
      let (process, found, same) = by_pid_found pid processes h.0 in
      let (selected, e, m, a) = lookup-All processes pids h.1 in
      (process ∷ selected, rw (found, e), rw (same, m), (rw (same, found), a))

  -- What a list of records must be to be the tree below a root: in PID order with no PID twice, the
  -- table's records of exactly the root's descendants.
  pub record IsTree (processes : List (ProcessMetrics F)) (root : ℤ)
      (selected : List (ProcessMetrics F)) : Type 0 where
    pub ordered : IsSorted (λ z. z) (map pid_of selected)
    pub distinct : IsDistinct (map pid_of selected)
    pub exact :
        (v : ℤ)
        → (contains v (map pid_of selected) ≡ true)
          ↔ Descendant pid_of ppid_of processes (root ∷ []) v
    pub from_table : All (λ p. by_pid p.pid processes ≡ some p) selected

  pub selected-IsTree :
      (processes : List (ProcessMetrics F)) (root : ℤ)
      → (selected : List (ProcessMetrics F)) × (traverse
            (λ pid. or_key_error (by_pid pid processes))
            (selected_pids processes root)
          ≡ ok selected)
        × IsTree processes root selected
  unfolding selected_pids
  selected-IsTree processes root =
      let (live, children) = process_children pid_of ppid_of processes in
      let pids : List ℤ = descendant_pids live children (root ∷ []) in
      let (_, distinct, exact) = descendant_pids_correct pid_of ppid_of processes (root ∷ []) in
      let member : (v : ℤ) → (contains v (sorted pids) ≡ true) ↔ (contains v pids ≡ true) =
        λ v. contains-sort_by (λ a b. ltb_ℤ a b) v pids in
      let (selected, e, m, a) = lookup-All processes (sorted pids) (
        All-of_contains (λ v. HasPid pid_of v processes) (sorted pids)
          λ v c.
            HasPid-of_Descendant pid_of ppid_of processes (root ∷ [])
              ((exact v).0 ((member v).0 c))) in
      (
        selected,
        e,
        record {
          ordered = rw m (sort_by_key-IsSorted (λ z. z) pids);
          distinct = rw m (sort_by-IsDistinct (λ a b. ltb_ℤ a b) pids distinct);
          exact = λ v. rw m (λ c. (exact v).0 ((member v).0 c), λ d. (member v).1 ((exact v).1 d));
          from_table = a;
        },
      )

module _ {F : Type 0} (py : Python F) where
  local_pane-IsTree :
      (processes : List (ProcessMetrics F)) (root : ℤ)
      → pos 1 ≤ℤ root
      → HasPid pid_of root processes
      → (selected : List (ProcessMetrics F)) × (local_pane py processes root
          ≡ ok (aggregate py root selected))
        × IsTree processes root selected
  unfolding local_pane
  local_pane-IsTree processes root h present =
      let (selected, e, t) = selected-IsTree processes root in
      let (process, found, same) = by_pid_found root processes present in
      (selected, ground arith, t)

  local_pane_returns :
      (processes : List (ProcessMetrics F)) (root : ℤ)
      → (result : PaneMetrics F) × (local_pane py processes root ≡ ok result)
        × (result.root_pid ≡ root)
  unfolding local_pane aggregate empty_pane
  local_pane_returns processes root = elim (Bool-cases (leb_ℤ root (pos 0))) [
    | inl below ↦ (empty_pane py root, ground arith, refl)
    | inr above ↦ elim (Option-cases (by_pid root processes)) [
      | inl missing ↦ (empty_pane py root, ground arith, refl)
      | inr (process, found) ↦
          let (selected, looked_up, t) = selected-IsTree processes root in
          (aggregate py root selected, ground arith, refl)
    ]
  ]

  module _ (snapshot : Snapshot F) where
    -- Where no pane is published for a root that is in the table, `pane` raises no KeyError and
    -- aggregates exactly the records of the root's process tree.
    pub pane-IsTree :
        (root : ℤ)
        → pos 1 ≤ℤ root
        → published_pane root snapshot.panes ≡ none
        → HasPid pid_of root snapshot.processes
        → (selected : List (ProcessMetrics F)) × (pane py snapshot root
            ≡ ok (aggregate py root selected))
          × IsTree snapshot.processes root selected
    unfolding pane
    pane-IsTree root h unpublished present =
        let (selected, e, t) = local_pane-IsTree snapshot.processes root h present in
        (selected, ground (arith, max_ℤ-of_IsNonneg root (omega arith)), t)

    -- Whatever the root, `pane` raises nothing, and returns a pane of the root that was asked
    -- for, with 0 for a negative one.
    pub pane_returns :
        (root : ℤ)
        → (result : PaneMetrics F) × (pane py snapshot root ≡ ok result)
          × (result.root_pid ≡ max_ℤ (pos 0) root)
    unfolding pane
    pane_returns root = go (max_ℤ (pos 0) root)
      where
        go :
            (pid : ℤ)
            → (result : PaneMetrics F) × ((elim (published_pane pid snapshot.panes) [
              | some published ↦ ok published
              | none ↦ local_pane py snapshot.processes pid
            ])
                ≡ ok result)
              × (result.root_pid ≡ pid)
        go pid = elim (Option-cases (published_pane pid snapshot.panes)) [
          | inr (published, e) ↦
              (published, rw e, published_pane-root pid snapshot.panes published e)
          | inl e ↦ rw e (local_pane_returns snapshot.processes pid)
        ]
