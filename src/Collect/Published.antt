-- ===== src/Collect/Published.antt =====
-- The panes that the collector publishes against the panes that a reader computes from the table.
use kilix_telemetry.Common.{
  ℤ, pos, ◌==ℤ◌, ◌≤ℤ◌, leb_ℤ, ltb_ℤ, ◌≡◌, refl, sym, ap, ◌∙◌, subst, String, Bool, true, false,
  none, List, [], ◌∷◌, map, All, sum_ℤ, traverse, Result, ok, err, arith, Bool-cases, Option-cases,
  inl, inr, ⊎_elim,
}
use kilix_telemetry.IntSet.{contains, contains-cons, contains-nil, add}
use kilix_telemetry.Sorting.{sorted, sort_by_key, All-sort_by}
use kilix_telemetry.Tree.{
  Children, index_processes, process_children, append_child, descendant_pids,
}
use kilix_telemetry.Tree.Descendants.{HasPid, Descendant, listed, child_of}
use kilix_telemetry.Values.{Python}
use kilix_telemetry.Values.Laws.{Ensures, Ensures-any, Ensures-bind}
use kilix_telemetry.Model.{ProcessMetrics, PaneMetrics}
use kilix_telemetry.Panes.{by_pid, or_key_error, aggregate, empty_pane, selected_pids, local_pane}
use kilix_telemetry.Panes.Aggregate.{pid_of, ppid_of, IsTree, selected-IsTree, by_pid_found}
use kilix_telemetry.Text.{Unicode}
use kilix_telemetry.Registry.Clean.{All-add}
use kilix_telemetry.Dict.{lookup}
use kilix_telemetry.Collect.{Arithmetic}
use kilix_telemetry.Collect.Stat.{RawProcess, ProcessFiles, Identity, MetaCache}
use kilix_telemetry.Collect.Processes.{
  process_cores, metrics_of, all_metrics, root_cores, pane_of, all_panes, sampled, processes,
  reuses, numbered, raw_processes, denominator_of, since,
}
use kilix_telemetry.Collect.Pss.{pss_if}
use kilix_telemetry.Collect.Trees.{positive_set, tree_pids, raw_by_pid, tree_ticks, in_some_tree}
use kilix_telemetry.Collect.State.{Settings, ProcessState, PssCache, Reading}

-- A record's PID and its parent's.
abbrev Link : Type 0
Link = ℤ × ℤ

module _ {ℓ} {A : Type ℓ} (pid ppid : A → ℤ) where
  abbrev links : List A → List Link
  links = map (λ x. (pid x, ppid x))

  index_links :
      (live : List ℤ) (children : Children) (xs : List A)
      → index_processes pid ppid live children xs
        ≡ index_processes (λ (l : Link). l.0) (λ l. l.1) live children (links xs)
  unfolding index_processes
  index_links live children [] = refl
  index_links live children (x ∷ xs) =
      index_links (add (pid x) live) (append_child (ppid x) (pid x) children) xs

  -- The tree index depends on the links alone.
  process_children-links :
      (xs : List A)
      → process_children pid ppid xs ≡ process_children (λ (l : Link). l.0) (λ l. l.1) (links xs)
  unfolding process_children
  process_children-links xs = index_links [] [] xs

abbrev pub raw_links : List RawProcess → List Link
raw_links = links (λ p. p.pid) (λ p. p.ppid)

ok-eq {ℓ} : {A : Type ℓ} {r : Result A} {a b : A} → r ≡ ok a → r ≡ ok b → a ≡ b
ok-eq e f = cc

Ensures-self {ℓ} : {A : Type ℓ} (r : Result A) → Ensures (λ a. r ≡ ok a) r
Ensures-self (ok a) = refl
Ensures-self (err e) = tt

positive_set-All : (pids : List ℤ) → All (λ pid. pos 1 ≤ℤ pid) (positive_set pids)
unfolding positive_set
positive_set-All [] = tt
positive_set-All (pid ∷ rest) = elim (Bool-cases (ltb_ℤ (pos 0) pid)) [
  | inl e ↦
      rw (positive_set, e) (All-add pid (positive_set rest) (ground arith) (positive_set-All rest))
  | inr e ↦ rw (positive_set, e) (positive_set-All rest)
]

none_in_nil : (v : ℤ) → contains v [] ≡ true → ⊥
none_in_nil v c = let no : contains v [] ≡ false = contains-nil v in absurd (cc)

module _ {F : Type 0} where
  abbrev pub metric_links : List (ProcessMetrics F) → List Link
  metric_links = links (λ p. p.pid) (λ p. p.ppid)

  -- The collector's tree of a root is the reader's, over tables with the same links.
  pub tree_pids-eq :
      (raw : List RawProcess) (metrics : List (ProcessMetrics F)) (root : ℤ)
      → metric_links metrics ≡ raw_links raw
      → tree_pids raw root ≡ selected_pids metrics root
  unfolding tree_pids selected_pids
  tree_pids-eq raw metrics root e =
      ap (λ (index : List ℤ × Children). sorted (descendant_pids index.0 index.1 (root ∷ [])))
        (process_children-links (λ (p : RawProcess). p.pid) (λ p. p.ppid) raw
          ∙ ap (process_children (λ (l : Link). l.0) (λ l. l.1)) (sym e)
          ∙ sym (process_children-links (λ (p : ProcessMetrics F). p.pid) (λ p. p.ppid) metrics))

  root_of_Descendant :
      (table : List (ProcessMetrics F)) (root : ℤ) {v : ℤ}
      → Descendant pid_of ppid_of table (root ∷ []) v
      → HasPid pid_of root table
  root_of_Descendant table root (listed {v} r h) =
      let same : v ≡ root =
        ⊎_elim (λ e. e) (λ c. absurd (none_in_nil v c)) ((contains-cons v root []).0 r) in
      subst (λ u. HasPid pid_of u table) same h
  root_of_Descendant table root (child_of p c) = root_of_Descendant table root p

  -- A root that is not in the table has no tree.
  tree_of_absent :
      (table selected : List (ProcessMetrics F)) (root : ℤ)
      → by_pid root table ≡ none
      → IsTree table root selected
      → selected ≡ []
  tree_of_absent table [] root e t = refl
  tree_of_absent table (p ∷ rest) root e t =
      let below : Descendant pid_of ppid_of table (root ∷ []) p.pid =
        (t.exact p.pid).0 ((contains-cons p.pid p.pid (map pid_of rest)).1 (inl refl)) in
      let (process, found, same) = by_pid_found root table (root_of_Descendant table root below) in
      absurd (cc)

module _ {F : Type 0} (py : Python F) where
  -- But for the share of CPU, the pane is the one that a reader computes from the table.
  abbrev pub IsLocalPane : List (ProcessMetrics F) → PaneMetrics F → Type 0
  IsLocalPane table pane =
      (q : PaneMetrics F) × (local_pane py table pane.root_pid ≡ ok q)
      × (record pane { cpu_cores = q.cpu_cores } ≡ q)

  module _ (arithmetic : Arithmetic F) where
    pane_of-IsLocalPane :
        (table selected : List (ProcessMetrics F)) (root : ℤ) (cores : F)
        → pos 1 ≤ℤ root
        → traverse (λ pid. or_key_error (by_pid pid table)) (selected_pids table root) ≡ ok selected
        → IsLocalPane table (pane_of py arithmetic root cores selected)
    unfolding local_pane pane_of aggregate empty_pane sum_ℤ
    pane_of-IsLocalPane table selected root cores above e =
        let low : leb_ℤ root (pos 0) ≡ false = ground arith in
        elim (Option-cases (by_pid root table)) [
          | inr (process, found) ↦
              (aggregate py root selected, rw (local_pane, low, found, e), refl)
          | inl missing ↦
              let (tree, looked, t) = selected-IsTree table root in
              let same : tree ≡ selected = ok-eq looked e in
              let nothing : selected ≡ [] = sym same ∙ tree_of_absent table tree root missing t in
              (empty_pane py root, rw (local_pane, low, missing), rw nothing refl)
        ]

    all_panes-IsLocalPane :
        (denominator : F) (previous : List (Identity × ℤ)) (raw : List RawProcess)
        (metrics : List (ProcessMetrics F)) (current : List (Identity × ℤ)) (roots : List ℤ)
        → metric_links metrics ≡ raw_links raw
        → All (λ root. pos 1 ≤ℤ root) roots
        → Ensures
            (λ r. All (IsLocalPane metrics) r.0)
            (all_panes py arithmetic denominator previous raw metrics current roots)
    unfolding all_panes
    all_panes-IsLocalPane denominator previous raw metrics current [] e h = tt
    all_panes-IsLocalPane denominator previous raw metrics current (root ∷ roots) e h =
        let looked_up = traverse (λ pid. or_key_error (by_pid pid metrics)) (tree_pids raw root) in
        Ensures-bind (λ _. Unit {0}) (λ r. All (IsLocalPane metrics) r.0)
          (traverse (λ pid. or_key_error (raw_by_pid pid raw)) (tree_pids raw root)) _
          (Ensures-any _)
          λ selected_raw _.
            Ensures-bind (λ selected. looked_up ≡ ok selected) (λ r. All (IsLocalPane metrics) r.0)
              looked_up _ (Ensures-self looked_up)
              λ selected found.
                Ensures-bind (λ _. Unit {0}) (λ r. All (IsLocalPane metrics) r.0)
                  (root_cores py arithmetic denominator previous (tree_ticks selected_raw) current
                    (raw_by_pid root raw))
                  _ (Ensures-any _)
                  λ measured _.
                    Ensures-bind (λ r. All (IsLocalPane metrics) r.0)
                      (λ r. All (IsLocalPane metrics) r.0)
                      (all_panes py arithmetic denominator previous raw metrics measured.1 roots) _
                      (all_panes-IsLocalPane denominator previous raw metrics measured.1 roots e
                        h.1)
                      λ others local. (
                        pane_of-IsLocalPane metrics selected root measured.0 h.0 (
                            subst
                              (λ pids.
                                traverse (λ pid. or_key_error (by_pid pid metrics)) pids
                                ≡ ok selected)
                              (tree_pids-eq raw metrics root e) found),
                        local,
                      )

    pub all_metrics-links :
        (settings : Settings) (now_ns : ℤ) (smaps : ℤ → String) (denominator : F)
        (previous : List (ℤ × Reading)) (wanted : ℤ → Bool) (cache : PssCache)
        (raw : List RawProcess)
        → Ensures
            (λ r. metric_links r.0 ≡ raw_links raw)
            (all_metrics py arithmetic settings now_ns smaps denominator previous wanted cache raw)
    unfolding all_metrics metrics_of
    all_metrics-links settings now_ns smaps denominator previous wanted cache [] = refl
    all_metrics-links settings now_ns smaps denominator previous wanted cache (process ∷ rest) =
        let (pss_bytes, left) =
          pss_if py (wanted process.pid) settings now_ns (smaps process.pid) process cache in
        Ensures-bind (λ _. Unit {0}) (λ r. metric_links r.0 ≡ raw_links (process ∷ rest))
          (process_cores py arithmetic denominator (lookup ◌==ℤ◌ process.pid previous) process) _
          (Ensures-any _)
          λ cores _.
            Ensures-bind (λ r. metric_links r.0 ≡ raw_links rest)
              (λ r. metric_links r.0 ≡ raw_links (process ∷ rest))
              (all_metrics py arithmetic settings now_ns smaps denominator previous wanted left
                rest)
              _ (all_metrics-links settings now_ns smaps denominator previous wanted left rest)
              λ others e. ap (λ t. (process.pid, process.ppid) ∷ t) e

  -- The panes that the collector keeps are those of the table that it keeps.
  abbrev pub IsCoherent : ProcessState F → Type 0
  IsCoherent state = All (IsLocalPane state.process_cache) state.pane_cache

  module _ (unicode : Unicode) (arithmetic : Arithmetic F) (settings : Settings)
      (state : ProcessState F) (now_ns : ℤ) where
    sampled-IsCoherent :
        (smaps : ℤ → String) (roots : List ℤ) (read : List RawProcess × MetaCache)
        → All (λ root. pos 1 ≤ℤ root) roots
        → Ensures IsCoherent (sampled py unicode arithmetic settings state now_ns smaps roots read)
    unfolding sampled
    sampled-IsCoherent smaps roots (raw, metadata) h =
        Ensures-bind (λ _. Unit {0}) IsCoherent
          (denominator_of py arithmetic settings
            (since py unicode now_ns state.previous_process_when_ns))
          _ (Ensures-any _)
          λ denominator _.
            Ensures-bind (λ r. metric_links r.0 ≡ raw_links raw) IsCoherent
              (all_metrics py arithmetic settings now_ns smaps denominator state.previous_processes
                (in_some_tree raw roots) state.pss_cache raw)
              _
              (all_metrics-links arithmetic settings now_ns smaps denominator
                state.previous_processes (in_some_tree raw roots) state.pss_cache raw)
              λ result e.
                Ensures-bind (λ r. All (IsLocalPane result.0) r.0) IsCoherent
                  (all_panes py arithmetic denominator state.previous_pane_ticks raw result.0 []
                    roots)
                  _
                  (all_panes-IsLocalPane arithmetic denominator state.previous_pane_ticks raw
                    result.0 [] roots e h)
                  λ panes local. local

    -- Whatever files it reads, `_processes` on a state whose panes agree with its table raises,
    -- or leaves such a state: each pane that the collector keeps is, but for its share of CPU,
    -- the one that `Snapshot.pane` computes for the same root from the table of processes that
    -- it keeps.
    pub processes-IsCoherent :
        (directories : List ProcessFiles) (smaps : ℤ → String) (pss_roots : List ℤ)
        → IsCoherent state
        → Ensures IsCoherent
            (processes py unicode arithmetic settings state now_ns directories smaps pss_roots)
    unfolding processes
    processes-IsCoherent directories smaps pss_roots h =
        let roots = sorted (positive_set pss_roots) in
        elim (Bool-cases (reuses py unicode settings state now_ns roots)) [
          | inl e ↦ rw (processes, e) h
          | inr e ↦
              rw (processes, e)
                (Ensures-bind (λ _. Unit {0}) IsCoherent (numbered py unicode directories) _
                  (Ensures-any _)
                  λ listed _.
                    Ensures-bind (λ _. Unit {0}) IsCoherent
                      (raw_processes py unicode settings now_ns state.metadata_cache
                        (sort_by_key (λ e. e.0) listed))
                      _ (Ensures-any _)
                      λ read _. sampled-IsCoherent smaps roots read (
                        All-sort_by ltb_ℤ (λ root. pos 1 ≤ℤ root) (positive_set pss_roots)
                          (positive_set-All pss_roots)))
        ]
