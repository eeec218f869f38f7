-- ===== src/Ring/Fit.antt =====
-- `RingWriter._pack`, `_encode`, `_pane_process_ids`, `_fit_processes` and `_fit`: the payload that a
-- snapshot gets in a slot of a given capacity.
pub mod Search
pub mod Choice
use kilix_telemetry.Common.{
  ℕ, zero, suc, ◌+◌, ◌-◌, ◌*◌, ◌/◌, ℤ, pos, negsuc, max_ℤ, ltb_ℤ, ◌==ℤ◌, Bool, true, false, not,
  Option, none, some, List, [], ◌∷◌, ◌++◌, map, length, take, drop, ltb, leb, ◌==◌, ◌&&◌, Result,
  ok, err, telemetry_error, if◌then◌else◌, ◌>>=◌,
}
use kilix_telemetry.IntSet.{contains, add}
use kilix_telemetry.Sorting.{sort_by, sort_by_key}
use kilix_telemetry.Tree.{process_children, descendant_pids}
use kilix_telemetry.Bytes.{Bytes}
use kilix_telemetry.Values.{Value, Python, dict, prefix}
use kilix_telemetry.Json.{ascii, dumps}
use kilix_telemetry.Model.{ProcessMetrics, PaneMetrics, Snapshot}
use kilix_telemetry.Model.ToDict.{process_dict, to_dict}
use kilix_telemetry.Ring.{Codec, flag_zlib}

pub record Packed : Type 0 where
  pub payload : Bytes
  pub flags : ℕ
  pub raw_size : ℕ

-- `text.partition(marker)`; the middle part only says whether the marker occurs.
unfoldable pub starts_with : Bytes → Bytes → Bool
starts_with [] text = true
starts_with (b ∷ marker) [] = false
starts_with (b ∷ marker) (c ∷ text) = b == c && starts_with marker text

unfoldable pub partition : Bytes → Bytes → Bytes × Bool × Bytes
partition marker [] = ([], starts_with marker [], [])
partition marker (b ∷ text) =
    let (before, found, after) = partition marker text in
    if starts_with marker (b ∷ text)
    then ([], true, drop (length marker) (b ∷ text))
    else (b ∷ before, found, after)

-- `separator.join(texts)` for the one-byte separator ",".
unfoldable pub join_more : List Bytes → Bytes
join_more [] = []
join_more (text ∷ rest) = b',' ∷ text ++ join_more rest

unfoldable pub join : List Bytes → Bytes
join [] = []
join (text ∷ rest) = text ++ join_more rest

module _ {F : Type 0} (codec : Codec F) where
  -- `_pack`
  unfoldable pub pack : Bytes → Packed
  pack raw =
      let compressed = codec.compress raw in
      if ltb (length compressed) (length raw)
      then record { payload = compressed; flags = flag_zlib; raw_size = length raw }
      else record { payload = raw; flags = 0; raw_size = length raw }

  -- `_encode`
  unfoldable pub encode : Snapshot F → Packed
  encode snapshot = pack (dumps codec.text (dict (to_dict snapshot)))

  -- `json.dumps(_process_dict(process), ...)` with the PID beside it.
  unfoldable pub fragment : ProcessMetrics F → ℤ × Bytes
  fragment process = (process.pid, dumps codec.text (dict (process_dict process)))

  -- The loop body of `_fit_processes` up to `_pack`: the first `count` fragments in PID order
  -- between the two halves of the skeleton.
  unfoldable pub assemble : Bytes → Bytes → List (ℤ × Bytes) → ℕ → Bytes
  assemble before after indexed count =
      let chosen = sort_by_key (λ item. item.0) (take count indexed) in
      before ++ ascii "\"processes\":[" ++ join (map (λ item. item.1) chosen) ++ ascii "]" ++ after

  -- The `while low <= high` loop. `above` is `high + 1`, so that `high` may be -1; the fuel bounds
  -- the rounds.
  unfoldable pub search_count : (ℕ → Packed) → ℕ → ℕ → ℕ → ℕ → Option Packed → Option Packed
  search_count candidate capacity zero low above best = best
  search_count candidate capacity (suc fuel) low above best = elim (ltb low above) [
    | false ↦ best
    | true ↦
        let count = (low + (above - 1)) / 2 in
        elim (leb (length (candidate count).payload) capacity) [
          | true ↦ search_count candidate capacity fuel (count + 1) above (some (candidate count))
          | false ↦ search_count candidate capacity fuel low count best
        ]
  ]

  -- `_fit_processes`; the outer result is the TelemetryError for a skeleton without the marker.
  unfoldable pub fit_processes : Snapshot F → List (ProcessMetrics F) → ℕ → Result (Option Packed)
  fit_processes compact prioritized capacity =
      let skeleton = dumps codec.text (dict (to_dict (record compact { processes = [] }))) in
      let (before, marker, after) = partition (ascii "\"processes\":[]") skeleton in
      let indexed = map fragment prioritized in
      if marker
      then ok (
          search_count (λ count. pack (assemble before after indexed count)) capacity
            (suc (length indexed)) 0 (length indexed + 1) none)
      else err telemetry_error

module _ {F : Type 0} where
  -- `{pane.root_pid for pane in snapshot.panes if pane.root_pid > 0}`
  unfoldable pub pane_roots : List (PaneMetrics F) → List ℤ
  pane_roots [] = []
  pane_roots (pane ∷ rest) =
      let roots = pane_roots rest in
      if ltb_ℤ (pos 0) pane.root_pid then add pane.root_pid roots else roots

  -- `_pane_process_ids`
  unfoldable pub pane_process_ids : Snapshot F → List ℤ
  pane_process_ids snapshot =
      let (live, children) = process_children (λ p. p.pid) (λ p. p.ppid) snapshot.processes in
      descendant_pids live children (pane_roots snapshot.panes)

  -- `replace(process, command=process.command[:512])`
  unfoldable pub cut_command : ProcessMetrics F → ProcessMetrics F
  cut_command process = record process { command = prefix 512 process.command }

  -- The snapshot `compact`.
  unfoldable pub compacted : Snapshot F → Snapshot F
  compacted snapshot = record snapshot {
    processes = map cut_command snapshot.processes;
    processes_total = max_ℤ (pos (length snapshot.processes)) snapshot.processes_total;
    processes_truncated = true;
  }

-- The end of `_fit`, which raises where `_fit_processes` found no table that fits.
abbrev pub or_too_large : Option Packed → Result Packed
or_too_large none = err telemetry_error
or_too_large (some packed) = ok packed

module _ {F : Type 0} (py : Python F) where
  -- The last three parts of the key, `(-cpu_cores, -rss_bytes, pid)`.
  unfoldable pub uses_more : ProcessMetrics F → ProcessMetrics F → Bool
  uses_more a b =
      if not (py.eq a.cpu_cores b.cpu_cores)
      then py.lt b.cpu_cores a.cpu_cores
      else if not (a.rss_bytes ==ℤ b.rss_bytes)
      then ltb_ℤ b.rss_bytes a.rss_bytes
      else ltb_ℤ a.pid b.pid

  -- The order of the key `(pid not in pane_pids, -cpu_cores, -rss_bytes, pid)`, compared as a tuple.
  unfoldable pub has_priority : List ℤ → ProcessMetrics F → ProcessMetrics F → Bool
  has_priority pane_pids a b = elim (contains a.pid pane_pids) [
    | true ↦ elim (contains b.pid pane_pids) [ true ↦ uses_more a b | false ↦ true ]
    | false ↦ elim (contains b.pid pane_pids) [ true ↦ false | false ↦ uses_more a b ]
  ]

  unfoldable pub prioritized : Snapshot F → List (ProcessMetrics F)
  prioritized compact = sort_by (has_priority (pane_process_ids compact)) compact.processes

  module _ (codec : Codec F) where
    -- `_fit`
    unfoldable pub fit : Snapshot F → ℕ → Result Packed
    fit snapshot capacity =
        if leb (length (encode codec snapshot).payload) capacity
        then ok (encode codec snapshot)
        else if leb (length (encode codec (compacted snapshot)).payload) capacity
        then ok (encode codec (compacted snapshot))
        else do
          best ←
              fit_processes codec (compacted snapshot) (prioritized (compacted snapshot)) capacity
          or_too_large best
