-- ===== src/Ring/Fit/Search.antt =====
-- The binary search of `_fit_processes`, over any family of candidates.
use kilix_telemetry.Common.{
  ℕ, zero, suc, ◌+◌, ◌-◌, ◌/◌, ◌≤◌, ◌<◌, ◌≡◌, subst, refl, ◌⊎◌, inl, inr, ⊎_elim, true, false,
  Option, none, some, length, ltb, leb, arith, Bool-cases,
}
use native.Mathlib.Decide.{dec_lt}
use kilix_telemetry.Ring.{Codec}
use kilix_telemetry.Ring.Fit.{Packed, search_count}

abbrev mid : ℕ → ℕ → ℕ
mid low above = (low + (above - 1)) / 2

above-eq-zero : (low above : ℕ) → low ≡ 0 → above ≤ low → above ≡ 0
above-eq-zero low above e h = omega arith

module _ {F : Type 0} (codec : Codec F) (candidate : ℕ → Packed) (capacity : ℕ) where
  abbrev pub Fits : ℕ → Type 0
  Fits count = length (candidate count).payload ≤ capacity

  abbrev search : ℕ → ℕ → ℕ → Option Packed → Option Packed
  search = search_count codec candidate capacity

  Fits-cases : (count : ℕ) → Fits count ⊎ ¬ Fits count
  Fits-cases count = elim (Bool-cases (leb (length (candidate count).payload) capacity)) [
    | inl e ↦ inl (ground arith)
    | inr e ↦ inr (λ h. ground arith)
  ]

  search_stops :
      (fuel low above : ℕ) (best : Option Packed) → above ≤ low → search fuel low above best ≡ best
  unfolding search_count
  search_stops zero low above best h = refl
  search_stops (suc fuel) low above best h =
      let stop : ltb low above ≡ false = ground arith in rw (search_count, stop)

  search_rises :
      (fuel low above : ℕ) (best : Option Packed)
      → low < above
      → Fits (mid low above)
      → search (suc fuel) low above best
        ≡ search fuel (mid low above + 1) above (some (candidate (mid low above)))
  unfolding search_count
  search_rises fuel low above best h fits =
      let go : ltb low above ≡ true = ground arith in
      let room : leb (length (candidate (mid low above)).payload) capacity ≡ true = ground arith in
      rw (search_count, go, room)

  search_falls :
      (fuel low above : ℕ) (best : Option Packed)
      → low < above
      → ¬ Fits (mid low above)
      → search (suc fuel) low above best ≡ search fuel low (mid low above) best
  unfolding search_count
  search_falls fuel low above best h over =
      let go : ltb low above ≡ true = ground arith in
      let full : leb (length (candidate (mid low above)).payload) capacity ≡ false = ground arith in
      rw (search_count, go, full)

  -- Where a search over the counts up to `n` ends: at the empty table, if that does not fit, or at a
  -- candidate that fits while the next larger one, if any, does not.
  abbrev pub IsBoundary : ℕ → Option Packed → Type 0
  IsBoundary n none = ¬ Fits 0
  IsBoundary n (some packed) =
      (k : ℕ) × (k ≤ n) × (packed ≡ candidate k) × Fits k × ((k ≡ n) ⊎ ¬ Fits (k + 1))

  -- The candidate kept so far is the one just below `low`.
  abbrev Kept : ℕ → Option Packed → Type 0
  Kept low none = low ≡ 0
  Kept low (some packed) = (k : ℕ) × (low ≡ k + 1) × (packed ≡ candidate k) × Fits k

  record Inv (n low above : ℕ) (best : Option Packed) : Type 0 where
    ordered : low ≤ above
    within : above ≤ n + 1
    kept : Kept low best
    refused : (above ≡ n + 1) ⊎ ¬ Fits above

  boundary :
      (n low above : ℕ) (best : Option Packed)
      → Inv n low above best
      → above ≤ low
      → IsBoundary n best
  boundary n low above none h stop =
      ⊎_elim (λ e. absurd (omega arith))
        (λ over. subst (λ k. ¬ Fits k) (above-eq-zero low above h.kept stop) over) h.refused
  boundary n low above (some packed) h stop =
      let (k, e, same, fits) = h.kept in
      let level : above ≡ k + 1 = omega arith in
      (
        k,
        omega arith,
        same,
        fits,
        ⊎_elim (λ full. inl (omega arith)) (λ over. inr (subst (λ j. ¬ Fits j) level over))
            h.refused,
      )

  search-IsBoundary-of_Inv :
      (n fuel low above : ℕ) (best : Option Packed)
      → Inv n low above best
      → above ≤ low + fuel
      → IsBoundary n (search fuel low above best)
  search-IsBoundary-of_Inv n zero low above best h m =
      rw (search_stops zero low above best (omega arith))
        (boundary n low above best h (omega arith))
  search-IsBoundary-of_Inv n (suc fuel) low above best h m = elim (dec_lt low above) [
    | no stop ↦
        rw (search_stops (suc fuel) low above best (omega arith))
          (boundary n low above best h (omega arith))
    | yes go ↦ elim (Fits-cases (mid low above)) [
      | inl fits ↦ rw (search_rises fuel low above best go fits) (
          search-IsBoundary-of_Inv n fuel (mid low above + 1) above
            (some (candidate (mid low above)))
            (record {
              ordered = omega arith;
              within = h.within;
              kept = (mid low above, refl, refl, fits);
              refused = h.refused;
            })
            (omega arith))
      | inr over ↦ rw (search_falls fuel low above best go over) (
          search-IsBoundary-of_Inv n fuel low (mid low above) best
            (record {
              ordered = omega arith;
              within = omega arith;
              kept = h.kept;
              refused = inr over;
            })
            (omega arith))
    ]
  ]

  -- Whatever the sizes of the candidates, the search over 0 … n returns within n + 1 rounds. It
  -- returns nothing only if the candidate of count 0 does not fit, and otherwise a candidate
  -- that fits while that of the next count, if that is at most n, does not.
  pub search-IsBoundary : (n : ℕ) → IsBoundary n (search (suc n) 0 (n + 1) none)
  search-IsBoundary n =
      search-IsBoundary-of_Inv n (suc n) 0 (n + 1) none
        (record { ordered = omega arith; within = omega arith; kept = refl; refused = inl refl })
        (omega arith)

  -- Where a smaller table never needs more room than a larger one, the search returns the
  -- largest count that fits: every larger one up to n does not.
  pub search_largest :
      (n : ℕ) (packed : Packed)
      → ((i j : ℕ) → i ≤ j → Fits j → Fits i)
      → search (suc n) 0 (n + 1) none ≡ some packed
      → (k : ℕ) × (k ≤ n) × (packed ≡ candidate k) × Fits k × ((j : ℕ) → k < j → j ≤ n → ¬ Fits j)
  search_largest n packed closed e =
      let (k, within, same, fits, last) = subst (IsBoundary n) e (search-IsBoundary n) in
      (
        k,
        within,
        same,
        fits,
        λ j above below large.
            ⊎_elim (λ (full : k ≡ n). absurd (omega arith))
              (λ (over : ¬ Fits (k + 1)). over (closed (k + 1) j (omega arith) large)) last,
      )
