-- ===== src/Collect/Pss.antt =====
-- `LinuxCollector._pss` of src/kilix_telemetry/collect.py.
use kilix_telemetry.Common.{
  ℤ, ◌-ℤ◌, ◌*ℤ◌, ◌==ℤ◌, ltb_ℤ, String, Bool, true, false, Option, none, some, List, [], ◌∷◌,
  if◌then◌else◌,
}
use kilix_telemetry.Values.{Python}
use kilix_telemetry.Text.{split, split_lines, begins_with}
use kilix_telemetry.Dict.{lookup, assign}
use kilix_telemetry.Collect.{kib, nonnegative}
use kilix_telemetry.Collect.Stat.{RawProcess, same_process}
use kilix_telemetry.Collect.State.{Settings, PssEntry, PssCache}
use kilix_telemetry.Collect.Trees.{identity_of}

module _ {F : Type 0} (py : Python F) where
  -- The line of smaps_rollup that `_pss` reads.
  unfoldable pub pss_fields : List String → Option ℤ
  pss_fields (label ∷ amount ∷ rest) = elim (nonnegative py amount) [
    | none ↦ none
    | some z ↦ some (z *ℤ kib)
  ]
  pss_fields _ = none

  unfoldable pub pss_lines : List String → Option ℤ
  pss_lines [] = none
  pss_lines (line ∷ rest) =
      let later = pss_lines rest in
      if begins_with "Pss:" line then pss_fields (split line) else later

  abbrev fresh_pss : ℤ → ℤ → Option PssEntry → Option (Option ℤ)
  fresh_pss now_ns interval_ns none = none
  fresh_pss now_ns interval_ns (some (when, value)) =
      if ltb_ℤ (now_ns -ℤ when) interval_ns then some value else none

  -- `_pss`; `smaps` is the text of the process's smaps_rollup.
  unfoldable pub pss : Settings → ℤ → String → RawProcess → PssCache → Option ℤ × PssCache
  pss settings now_ns smaps process cache =
      let identity = identity_of process in
      let value = pss_lines (split_lines smaps) in
      let looked : Option ℤ × PssCache =
        elim (fresh_pss now_ns settings.pss_interval_ns (lookup same_process identity cache)) [
          | some cached ↦ (cached, cache)
          | none ↦ (value, assign same_process identity (now_ns, value) cache)
        ] in
      if process.uid ==ℤ settings.uid then looked else (none, cache)

  -- `self._pss(process, now_ns) if process.pid in pss_pids else None`
  unfoldable pub pss_if : Bool → Settings → ℤ → String → RawProcess → PssCache → Option ℤ × PssCache
  pss_if true settings now_ns smaps process cache = pss settings now_ns smaps process cache
  pss_if false settings now_ns smaps process cache = (none, cache)
