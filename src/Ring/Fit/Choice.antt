-- ===== src/Ring/Fit/Choice.antt =====
-- `_fit` of src/kilix_telemetry/ring.py, whose result is within the capacity of the slot.
use kilix_telemetry.Common.{
  ℕ, suc, ◌+◌, ◌≤◌, ◌≡◌, refl, subst, Bool, true, false, Option, none, some, Result, ok, err,
  telemetry_error, map, length, leb, arith, ◌>>=◌, if◌then◌else◌,
}
use kilix_telemetry.Values.{Python, dict}
use kilix_telemetry.Json.{ascii, dumps}
use kilix_telemetry.Model.ToDict.{to_dict}
use kilix_telemetry.Model.{Snapshot, ProcessMetrics}
use kilix_telemetry.Common.{List, []}
use kilix_telemetry.Ring.{Codec}
use kilix_telemetry.Ring.Fit.{
  Packed, encode, partition, pack, assemble, fragment, compacted, search_count, fit_processes, fit,
  prioritized, or_too_large,
}
use kilix_telemetry.Ring.Fit.Search.{IsBoundary, search-IsBoundary}

-- A search result that is passed on only where the marker was found.
taken :
    (found : Bool) (result : Option Packed) (packed : Packed)
    → (if found then ok result else err telemetry_error) ≡ ok (some packed)
    → result ≡ some packed
taken true result packed e = cc
taken false result packed e = cc

-- A choice between three results, each under its own test.
by_cases :
    (P : Packed → Type 0) (first second : Bool) (a b packed : Packed)
    (best : Result (Option Packed))
    → (first ≡ true → P a)
    → (second ≡ true → P b)
    → (best ≡ ok (some packed) → P packed)
    → (if first then ok a else if second then ok b else (best >>= or_too_large)) ≡ ok packed
    → P packed
by_cases P true second a b packed best p q r e = subst P (cc) (p refl)
by_cases P false true a b packed best p q r e = subst P (cc) (q refl)
by_cases P false false a b packed (ok none) p q r e = absurd (cc)
by_cases P false false a b packed (ok (some found)) p q r e = r (cc)
by_cases P false false a b packed (err exc) p q r e = absurd (cc)

module _ {F : Type 0} (codec : Codec F) where
  boundary-le :
      (candidate : ℕ → Packed) (capacity n : ℕ) (result : Option Packed) (packed : Packed)
      → IsBoundary codec candidate capacity n result
      → result ≡ some packed
      → length packed.payload ≤ capacity
  boundary-le candidate capacity n none packed b e = cc
  boundary-le candidate capacity n (some found) packed (k, within, same, fits, last) e =
      let whole : packed ≡ candidate k = cc in rw whole fits

  fit_processes-le :
      (compact : Snapshot F) (chosen : List (ProcessMetrics F)) (capacity : ℕ) (packed : Packed)
      → fit_processes codec compact chosen capacity ≡ ok (some packed)
      → length packed.payload ≤ capacity
  unfolding fit_processes
  fit_processes-le compact chosen capacity packed e =
      let skeleton = dumps codec.text (dict (to_dict (record compact { processes = [] }))) in
      let parts = partition (ascii "\"processes\":[]") skeleton in
      let indexed = map (fragment codec) chosen in
      let candidate : ℕ → Packed =
        λ count. pack codec (assemble codec parts.0 parts.2 indexed count) in
      let result : Option Packed =
        search_count codec candidate capacity (suc (length indexed)) 0 (length indexed + 1) none in
      boundary-le candidate capacity (length indexed) result packed
        (search-IsBoundary codec candidate capacity (length indexed))
        (taken parts.1 result packed e)

module _ {F : Type 0} (py : Python F) (codec : Codec F) where
  -- Whatever `_fit` returns, on any of its three ways, fits the capacity of the slot.
  pub fit-le-capacity :
      (snapshot : Snapshot F) (capacity : ℕ) (packed : Packed)
      → fit py codec snapshot capacity ≡ ok packed
      → length packed.payload ≤ capacity
  unfolding fit
  fit-le-capacity snapshot capacity packed e =
      by_cases (λ (p : Packed). length p.payload ≤ capacity)
        (leb (length (encode codec snapshot).payload) capacity)
        (leb (length (encode codec (compacted snapshot)).payload) capacity) (encode codec snapshot)
        (encode codec (compacted snapshot)) packed
        (fit_processes codec (compacted snapshot) (prioritized py (compacted snapshot)) capacity)
        (λ whole. ground arith) (λ compact. ground arith)
        (fit_processes-le codec (compacted snapshot) (prioritized py (compacted snapshot)) capacity
          packed)
        e
