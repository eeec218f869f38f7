-- ===== src/Collect/Processes.antt =====
-- `_processes` of src/kilix_telemetry/collect.py: the process table and the panes of one sample, and
-- the caches and the earlier readings that they are computed against.
use kilix_telemetry.Common.{
  ℤ, pos, ◌-ℤ◌, ◌==ℤ◌, max_ℤ, ltb_ℤ, sum_ℤ, String, Bool, false, ◌&&◌, Option, none, some, List, [],
  ◌∷◌, map, all, length, is_nonempty, traverse, Result, ok, err, value_error, if◌then◌else◌, ◌>>=◌,
}
use kilix_telemetry.Sorting.{sort_by_key, sorted}
use kilix_telemetry.Values.{Python, max_float}
use kilix_telemetry.Model.{ProcessMetrics, PaneMetrics}
use kilix_telemetry.Panes.{by_pid, or_key_error, proportional, has_pss}
use kilix_telemetry.Text.{Unicode}
use kilix_telemetry.Dict.{lookup, assign, keep_keys}
use kilix_telemetry.Collect.{Arithmetic, to_float, quotient}
use kilix_telemetry.Collect.Stat.{
  RawProcess, ProcessFiles, Identity, same_process, MetaCache, raw_process,
}
use kilix_telemetry.Collect.State.{PssCache, Reading, Settings, ProcessState}
use kilix_telemetry.Collect.Trees.{
  identity_of, positive_set, same_roots, raw_by_pid, tree_pids, in_some_tree, readings, is_live,
  tree_ticks,
}
use kilix_telemetry.Collect.Pss.{pss_if}

module _ {F : Type 0} (py : Python F) where
  module _ (arithmetic : Arithmetic F) where
    -- `ticks / denominator`
    unfoldable pub cores_of : ℤ → F → Result F
    cores_of ticks denominator = do
      numerator ← to_float py ticks
      quotient py arithmetic numerator denominator

    -- `self._ticks_per_second * (elapsed_ns / 1_000_000_000)`
    unfoldable pub denominator_of : Settings → ℤ → Result F
    denominator_of settings elapsed_ns = do
      seconds ← arithmetic.int_quotient elapsed_ns (pos 1_000_000_000)
      ticks ← to_float py settings.ticks_per_second
      ok (arithmetic.mul ticks seconds)

    -- The share of CPU of one process since the previous sample.
    unfoldable pub process_cores : F → Option Reading → RawProcess → Result F
    process_cores denominator none process = ok py.zero_float
    process_cores denominator (some (start_ticks, cpu_ticks)) process =
        let delta = process.cpu_ticks -ℤ cpu_ticks in
        if start_ticks ==ℤ process.start_ticks
          && py.lt py.zero_float denominator
          && ltb_ℤ (pos 0) delta
        then cores_of delta denominator
        else ok py.zero_float

    unfoldable pub metrics_of : RawProcess → F → Option ℤ → ProcessMetrics F
    metrics_of process cores pss_bytes = record {
      pid = process.pid;
      ppid = process.ppid;
      start_ticks = process.start_ticks;
      cpu_ticks = process.cpu_ticks;
      cpu_cores = max_float py py.zero_float cores;
      rss_bytes = process.rss_bytes;
      pss_bytes = pss_bytes;
      virtual_bytes = process.virtual_bytes;
      uid = process.uid;
      name = process.name;
      state = process.state;
      threads = process.threads;
      command = process.command;
      anon_bytes = process.anon_bytes;
      file_bytes = process.file_bytes;
      shared_bytes = process.shared_bytes;
    }

    -- The loop that fills `result`. `smaps` gives each process's smaps_rollup, and `wanted` the test
    -- on `pss_pids`.
    unfoldable pub all_metrics :
        Settings
        → ℤ
        → (ℤ → String)
        → F
        → List (ℤ × Reading)
        → (ℤ → Bool)
        → PssCache
        → List RawProcess
        → Result (List (ProcessMetrics F) × PssCache)
    all_metrics settings now_ns smaps denominator previous wanted cache [] = ok ([], cache)
    all_metrics settings now_ns smaps denominator previous wanted cache (process ∷ rest) =
        let (pss_bytes, left) =
          pss_if py (wanted process.pid) settings now_ns (smaps process.pid) process cache in
        do
          cores ← process_cores denominator (lookup ◌==ℤ◌ process.pid previous) process
          others ← all_metrics settings now_ns smaps denominator previous wanted left rest
          ok (metrics_of process cores pss_bytes ∷ others.0, others.1)

    -- `max(0, tree_ticks - previous_ticks) / denominator`
    unfoldable pub tree_cores : F → Option ℤ → ℤ → Result F
    tree_cores denominator none ticks = ok py.zero_float
    tree_cores denominator (some previous) ticks =
        if py.lt py.zero_float denominator
        then cores_of (max_ℤ (pos 0) (ticks -ℤ previous)) denominator
        else ok py.zero_float

    -- The CPU of a pane, and the entry of `current_pane_ticks` that its root gets.
    unfoldable pub root_cores :
        F
        → List (Identity × ℤ)
        → ℤ
        → List (Identity × ℤ)
        → Option RawProcess
        → Result (F × List (Identity × ℤ))
    root_cores denominator previous ticks current none = ok (py.zero_float, current)
    root_cores denominator previous ticks current (some root) = do
      cores ← tree_cores denominator (lookup same_process (identity_of root) previous) ticks
      ok (cores, assign same_process (identity_of root) ticks current)

    unfoldable pub pane_of : ℤ → F → List (ProcessMetrics F) → PaneMetrics F
    pane_of root_pid cores selected = record {
      root_pid = root_pid;
      process_count = pos (length selected);
      cpu_cores = cores;
      rss_bytes = sum_ℤ (map (λ p. p.rss_bytes) selected);
      proportional_bytes = sum_ℤ (map proportional selected);
      complete_pss = is_nonempty selected && all has_pss selected;
    }

    -- The loop that fills `pane_result` and `current_pane_ticks`.
    unfoldable pub all_panes :
        F
        → List (Identity × ℤ)
        → List RawProcess
        → List (ProcessMetrics F)
        → List (Identity × ℤ)
        → List ℤ
        → Result (List (PaneMetrics F) × List (Identity × ℤ))
    all_panes denominator previous raw metrics current [] = ok ([], current)
    all_panes denominator previous raw metrics current (root ∷ roots) = do
      selected_raw ← traverse (λ pid. or_key_error (raw_by_pid pid raw)) (tree_pids raw root)
      selected ← traverse (λ pid. or_key_error (by_pid pid metrics)) (tree_pids raw root)
      measured ←
          root_cores denominator previous (tree_ticks selected_raw) current (raw_by_pid root raw)
      others ← all_panes denominator previous raw metrics measured.1 roots
      ok (pane_of root measured.0 selected ∷ others.0, others.1)

  module _ (unicode : Unicode) where
    -- The directories whose names are digits, with their PIDs.
    unfoldable pub numbered : List ProcessFiles → Result (List (ℤ × ProcessFiles))
    numbered [] = ok []
    numbered (files ∷ rest) =
        let read : Result (List (ℤ × ProcessFiles)) = elim (py.int_of_str files.directory) [
          | none ↦ err value_error
          | some pid ↦ do others ← numbered rest; ok ((pid, files) ∷ others)
        ] in
        if unicode.is_digits files.directory then read else numbered rest

    abbrev with_process : Option RawProcess → List RawProcess → List RawProcess
    with_process none others = others
    with_process (some process) others = process ∷ others

    -- `_raw_process` of each directory, with the metadata cache that is left.
    unfoldable pub raw_processes :
        Settings → ℤ → MetaCache → List (ℤ × ProcessFiles) → Result (List RawProcess × MetaCache)
    raw_processes settings now_ns cache [] = ok ([], cache)
    raw_processes settings now_ns cache ((pid, files) ∷ rest) = do
      read ←
          raw_process py unicode settings.page_size settings.metadata_interval_ns now_ns pid files
            cache
      others ← raw_processes settings now_ns read.1 rest
      ok (with_process read.0 others.0, others.1)

    -- `max(0, now_ns - previous)`, and 0 for the first sample.
    unfoldable pub since : ℤ → Option ℤ → ℤ
    since now_ns none = pos 0
    since now_ns (some previous) = max_ℤ (pos 0) (now_ns -ℤ previous)

    -- The test for reusing the last sample.
    unfoldable pub reuses : Settings → ProcessState F → ℤ → List ℤ → Bool
    reuses settings state now_ns roots = elim state.process_sample_ns [
      | none ↦ false
      | some sampled ↦
          ltb_ℤ (now_ns -ℤ sampled) settings.process_interval_ns
          && same_roots roots state.process_pss_roots
    ]

    module _ (arithmetic : Arithmetic F) where
      -- `_processes` behind the early return, from the raw processes on.
      unfoldable pub sampled :
          Settings
          → ProcessState F
          → ℤ
          → (ℤ → String)
          → List ℤ
          → List RawProcess × MetaCache
          → Result (ProcessState F)
      sampled settings state now_ns smaps roots (raw, metadata) = do
        denominator ←
            denominator_of arithmetic settings (since now_ns state.previous_process_when_ns)
        result ←
            all_metrics arithmetic settings now_ns smaps denominator state.previous_processes
              (in_some_tree raw roots) state.pss_cache raw
        panes ← all_panes arithmetic denominator state.previous_pane_ticks raw result.0 [] roots
        ok (record {
          process_sample_ns = some now_ns;
          process_pss_roots = roots;
          process_cache = result.0;
          pane_cache = panes.0;
          previous_process_when_ns = some now_ns;
          previous_processes = readings [] raw;
          previous_pane_ticks = panes.1;
          pss_cache = keep_keys same_process (is_live raw) result.1;
          metadata_cache = keep_keys same_process (is_live raw) metadata;
        })

      -- `_processes`: the state that it leaves, whose caches are what it returns.
      unfoldable pub processes :
          Settings
          → ProcessState F
          → ℤ
          → List ProcessFiles
          → (ℤ → String)
          → List ℤ
          → Result (ProcessState F)
      processes settings state now_ns directories smaps pss_roots =
          let roots = sorted (positive_set pss_roots) in
          if reuses settings state now_ns roots then ok state else do
            listed ← numbered directories
            read ←
                raw_processes settings now_ns state.metadata_cache (sort_by_key (λ e. e.0) listed)
            sampled settings state now_ns smaps roots read
