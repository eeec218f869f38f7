-- ===== src/Collect/Errors.antt =====
-- What `_processes` of src/kilix_telemetry/collect.py can raise: its dictionaries have every key that it
-- looks up.
use kilix_telemetry.Common.{
  arith, ℤ, pos, ◌==ℤ◌, ltb_ℤ, ◌&&◌, ◌-ℤ◌, ◌≡◌, refl, ap, ◌∙◌, inl, inr, subst, String, Bool, true,
  false, Option, none, some, List, [], ◌∷◌, traverse, ok, err, key_error, >>=-eq-ok, if◌then◌else◌,
  Bool-cases, Option-cases,
}
use kilix_telemetry.Sorting.{sorted, sort_by_key}
use kilix_telemetry.Values.{Python}
use kilix_telemetry.Values.Laws.{Ensures-ok}
use kilix_telemetry.Model.{ProcessMetrics}
use kilix_telemetry.Panes.{by_pid, or_key_error}
use kilix_telemetry.Panes.Aggregate.{selected-IsTree}
use kilix_telemetry.Text.{Unicode}
use kilix_telemetry.Dict.{lookup}
use kilix_telemetry.Collect.{Arithmetic, to_float, quotient}
use kilix_telemetry.Collect.Stat.{RawProcess, ProcessFiles, Identity, MetaCache, same_process}
use kilix_telemetry.Collect.State.{Settings, ProcessState, PssCache, Reading}
use kilix_telemetry.Collect.Trees.{
  identity_of, positive_set, tree_pids, raw_by_pid, tree_ticks, in_some_tree,
}
use kilix_telemetry.Collect.Pss.{pss_if}
use kilix_telemetry.Collect.Processes.{
  cores_of, denominator_of, process_cores, all_metrics, tree_cores, root_cores, all_panes, since,
  reuses, sampled, processes,
}
use kilix_telemetry.Collect.Failures.{
  FailsByNumber, FailsByNumber-bind, to_float-FailsByNumber, numbered-FailsByNumber,
  raw_processes-FailsByNumber,
}
use kilix_telemetry.Collect.Published.{metric_links, raw_links, tree_pids-eq, all_metrics-links}

-- A list that one table has every element of is one that the other has every element of.
traverse_both {ℓ κ μ} :
    {A : Type ℓ} {B : Type κ} {C : Type μ} (f : A → Option B) (g : A → Option C)
    → ((a : A) (b : B) → f a ≡ some b → (c : C) × (g a ≡ some c))
    → (xs : List A) (ys : List B) → traverse (λ a. or_key_error (f a)) xs ≡ ok ys
    → (zs : List C) × (traverse (λ a. or_key_error (g a)) xs ≡ ok zs)
unfolding traverse
traverse_both f g h [] ys e = ([], refl)
traverse_both f g h (x ∷ xs) ys e =
    let (y, first, later) = >>=-eq-ok (or_key_error (f x)) _ e in
    let (rest, others, last) = >>=-eq-ok (traverse (λ a. or_key_error (f a)) xs) _ later in
    let (zs, all) = traverse_both f g h xs rest others in
    elim (Option-cases (f x)) [
      | inl missing ↦
          let none_here : or_key_error (f x) ≡ err key_error = rw missing refl in absurd (cc)
      | inr (b, found) ↦ let (c, there) = h x b found in (c ∷ zs, rw (there, all) refl)
    ]

-- Tables with the same links have the same PIDs.
raw_found :
    {F : Type 0} (pid : ℤ) (raw : List RawProcess) (metrics : List (ProcessMetrics F))
    → metric_links metrics ≡ raw_links raw
    → (m : ProcessMetrics F) → by_pid pid metrics ≡ some m
    → (r : RawProcess) × (raw_by_pid pid raw ≡ some r)
unfolding by_pid raw_by_pid
raw_found pid raw [] e m found = absurd (cc)
raw_found pid [] (x ∷ metrics) e m found = absurd (cc)
raw_found pid (r ∷ raw) (x ∷ metrics) e m found =
    let same : x.pid ≡ r.pid = cc in
    let rest : metric_links metrics ≡ raw_links raw = cc in
    elim (Option-cases (raw_by_pid pid raw)) [
      | inr (later, l) ↦ (later, rw l refl)
      | inl none_later ↦ elim (Option-cases (by_pid pid metrics)) [
        | inr (later, l) ↦ let (there, t) = raw_found pid raw metrics rest later l in absurd (cc)
        | inl l ↦
            let here : (if x.pid ==ℤ pid then some x else none) ≡ some m =
              subst
                (λ t.
                  (elim t [ some p ↦ some p | none ↦ if x.pid ==ℤ pid then some x else none ])
                  ≡ some m)
                l found in
            elim (Bool-cases (x.pid ==ℤ pid)) [
              | inl this ↦
                  let of_raw : (r.pid ==ℤ pid) ≡ true = subst (λ q. (q ==ℤ pid) ≡ true) same this in
                  (r, rw (none_later, of_raw) refl)
              | inr other ↦
                  let no : (if x.pid ==ℤ pid then some x else none) ≡ none = rw other refl in
                  absurd (cc)
            ]
      ]
    ]

module _ {F : Type 0} (py : Python F) where
  module _ (arithmetic : Arithmetic F)
      (above_zero : (d : F) → py.lt py.zero_float d ≡ true → py.eq d py.zero_float ≡ false) where
    cores_of-FailsByNumber :
        (ticks : ℤ) (denominator : F)
        → py.lt py.zero_float denominator ≡ true
        → FailsByNumber (cores_of py arithmetic ticks denominator)
    unfolding cores_of quotient
    cores_of-FailsByNumber ticks denominator above =
        FailsByNumber-bind (to_float py ticks) _ (to_float-FailsByNumber py ticks)
          λ f e. rw (above_zero denominator above) tt

    process_cores-FailsByNumber :
        (denominator : F) (before : Option Reading) (process : RawProcess)
        → FailsByNumber (process_cores py arithmetic denominator before process)
    unfolding process_cores
    process_cores-FailsByNumber denominator none process = tt
    process_cores-FailsByNumber denominator (some (start_ticks, cpu_ticks)) process =
        elim (Bool-cases (
          start_ticks ==ℤ process.start_ticks
          && py.lt py.zero_float denominator
          && ltb_ℤ (pos 0) (process.cpu_ticks -ℤ cpu_ticks))) [
            | inl e ↦
                rw e (
                  cores_of-FailsByNumber (process.cpu_ticks -ℤ cpu_ticks) denominator
                    (ground arith))
            | inr e ↦ rw e tt
          ]

    tree_cores-FailsByNumber :
        (denominator : F) (before : Option ℤ) (ticks : ℤ)
        → FailsByNumber (tree_cores py arithmetic denominator before ticks)
    unfolding tree_cores
    tree_cores-FailsByNumber denominator none ticks = tt
    tree_cores-FailsByNumber denominator (some previous) ticks =
        elim (Bool-cases (py.lt py.zero_float denominator)) [
          | inl e ↦ rw e (cores_of-FailsByNumber _ denominator e)
          | inr e ↦ rw e tt
        ]

    root_cores-FailsByNumber :
        (denominator : F) (previous : List (Identity × ℤ)) (ticks : ℤ)
        (current : List (Identity × ℤ)) (root : Option RawProcess)
        → FailsByNumber (root_cores py arithmetic denominator previous ticks current root)
    unfolding root_cores
    root_cores-FailsByNumber denominator previous ticks current none = tt
    root_cores-FailsByNumber denominator previous ticks current (some root) =
        FailsByNumber-bind _ _
          (tree_cores-FailsByNumber denominator (lookup same_process (identity_of root) previous)
            ticks)
          λ cores e. tt

    all_metrics-FailsByNumber :
        (settings : Settings) (now_ns : ℤ) (smaps : ℤ → String) (denominator : F)
        (previous : List (ℤ × Reading)) (wanted : ℤ → Bool) (cache : PssCache)
        (raw : List RawProcess)
        → FailsByNumber
            (all_metrics py arithmetic settings now_ns smaps denominator previous wanted cache raw)
    unfolding all_metrics
    all_metrics-FailsByNumber settings now_ns smaps denominator previous wanted cache [] = tt
    all_metrics-FailsByNumber settings now_ns smaps denominator previous wanted cache
          (process ∷ rest) =
        FailsByNumber-bind _ _
          (process_cores-FailsByNumber denominator (lookup ◌==ℤ◌ process.pid previous) process)
          λ cores e.
            FailsByNumber-bind _ _
              (all_metrics-FailsByNumber settings now_ns smaps denominator previous wanted
                (pss_if py (wanted process.pid) settings now_ns (smaps process.pid) process cache).1
                rest)
              λ others h. tt

    -- Every PID of a tree is in both tables.
    tree-found :
        (raw : List RawProcess) (metrics : List (ProcessMetrics F)) (root : ℤ)
        → metric_links metrics ≡ raw_links raw
        → ((selected : List RawProcess) × (traverse
                (λ pid. or_key_error (raw_by_pid pid raw))
                (tree_pids raw root)
              ≡ ok selected))
          × ((selected : List (ProcessMetrics F)) × (traverse
                  (λ pid. or_key_error (by_pid pid metrics))
                  (tree_pids raw root)
                ≡ ok selected))
    tree-found raw metrics root e =
        let (selected, looked, t) = selected-IsTree metrics root in
        let found : traverse (λ pid. or_key_error (by_pid pid metrics)) (tree_pids raw root)
            ≡ ok selected =
          ap (traverse (λ pid. or_key_error (by_pid pid metrics))) (tree_pids-eq raw metrics root e)
          ∙ looked in
        (
          traverse_both (λ pid. by_pid pid metrics) (λ pid. raw_by_pid pid raw)
              (λ pid m there. raw_found pid raw metrics e m there) (tree_pids raw root) selected
              found,
          (selected, found),
        )

    all_panes-FailsByNumber :
        (denominator : F) (previous : List (Identity × ℤ)) (raw : List RawProcess)
        (metrics : List (ProcessMetrics F)) (current : List (Identity × ℤ)) (roots : List ℤ)
        → metric_links metrics ≡ raw_links raw
        → FailsByNumber (all_panes py arithmetic denominator previous raw metrics current roots)
    unfolding all_panes
    all_panes-FailsByNumber denominator previous raw metrics current [] e = tt
    all_panes-FailsByNumber denominator previous raw metrics current (root ∷ roots) e =
        let ((selected_raw, in_raw), (selected, in_metrics)) = tree-found raw metrics root e in
        rw (in_raw, in_metrics)
          (FailsByNumber-bind _ _
            (root_cores-FailsByNumber denominator previous (tree_ticks selected_raw) current
              (raw_by_pid root raw))
            λ measured m.
              FailsByNumber-bind _ _
                (all_panes-FailsByNumber denominator previous raw metrics measured.1 roots e)
                λ others o. tt)

    module _
        (quotients : (ticks : ℤ)
          → FailsByNumber (arithmetic.int_quotient ticks (pos 1_000_000_000)))
        (unicode : Unicode) (settings : Settings) (state : ProcessState F) (now_ns : ℤ) where
      denominator_of-FailsByNumber :
          (elapsed_ns : ℤ) → FailsByNumber (denominator_of py arithmetic settings elapsed_ns)
      unfolding denominator_of
      denominator_of-FailsByNumber elapsed_ns =
          FailsByNumber-bind _ _ (quotients elapsed_ns) λ seconds e.
            FailsByNumber-bind _ _ (to_float-FailsByNumber py settings.ticks_per_second)
              λ ticks h. tt

      sampled-FailsByNumber :
          (smaps : ℤ → String) (roots : List ℤ) (read : List RawProcess × MetaCache)
          → FailsByNumber (sampled py unicode arithmetic settings state now_ns smaps roots read)
      unfolding sampled
      sampled-FailsByNumber smaps roots (raw, metadata) =
          FailsByNumber-bind _ _
            (denominator_of-FailsByNumber (since py unicode now_ns state.previous_process_when_ns))
            λ denominator d.
              FailsByNumber-bind _ _
                (all_metrics-FailsByNumber settings now_ns smaps denominator
                  state.previous_processes (in_some_tree raw roots) state.pss_cache raw)
                λ result r.
                  FailsByNumber-bind _ _
                    (all_panes-FailsByNumber denominator state.previous_pane_ticks raw result.0 []
                      roots
                      (Ensures-ok (λ r. metric_links r.0 ≡ raw_links raw) _ result
                        (all_metrics-links py arithmetic settings now_ns smaps denominator
                          state.previous_processes (in_some_tree raw roots) state.pss_cache raw)
                        r))
                    λ panes p. tt

      -- Whatever files and state it is given, `_processes` returns, or raises a ValueError or
      -- an OverflowError of the conversion of a number: no KeyError, IndexError or
      -- ZeroDivisionError comes out of it, where a float above zero is not equal to zero and
      -- the division of an integer by a billion raises no other error.
      pub processes-FailsByNumber :
          (directories : List ProcessFiles) (smaps : ℤ → String) (pss_roots : List ℤ)
          → FailsByNumber
              (processes py unicode arithmetic settings state now_ns directories smaps pss_roots)
      unfolding processes
      processes-FailsByNumber directories smaps pss_roots =
          let roots = sorted (positive_set pss_roots) in
          elim (Bool-cases (reuses py unicode settings state now_ns roots)) [
            | inl e ↦ rw (processes, e) tt
            | inr e ↦
                rw (processes, e)
                  (FailsByNumber-bind _ _ (numbered-FailsByNumber py unicode directories)
                    λ listed h.
                      FailsByNumber-bind _ _
                        (raw_processes-FailsByNumber py unicode settings now_ns state.metadata_cache
                          (sort_by_key (λ e. e.0) listed))
                        λ read r. sampled-FailsByNumber smaps roots read)
          ]
