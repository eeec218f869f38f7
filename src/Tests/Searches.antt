-- ===== src/Tests/Searches.antt =====
-- The search for the largest table that fits, on candidates of known sizes.
use kilix_telemetry.Common.{
  ℕ, ◌*◌, ◌≤◌, ◌<◌, ◌≡◌, refl, none, some, length, replicate, length-replicate, arith,
}
use kilix_telemetry.Ring.Fit.{Packed, search_count}
use kilix_telemetry.Ring.Fit.Search.{IsBoundary, search-IsBoundary, search_largest}
use kilix_telemetry.Tests.Instances.{codec}

-- Three bytes for each process.
abbrev three_each : ℕ → Packed
three_each count = record { payload = replicate (3 * count) 0; flags = 0; raw_size = 3 * count }

three_each_size : (count : ℕ) → length (three_each count).payload ≡ 3 * count
three_each_size count = length-replicate (3 * count) 0

ten_bytes : search_count codec three_each 10 8 0 8 none ≡ some (three_each 3)
unfolding search_count
ten_bytes = refl

search_largest_example :
    (k : ℕ) × (k ≤ 7)
    × (three_each 3 ≡ three_each k)
    × (length (three_each k).payload ≤ 10)
    × ((j : ℕ) → k < j → j ≤ 7 → ¬ (length (three_each j).payload ≤ 10))
search_largest_example =
    search_largest codec three_each 10 7 (three_each 3)
      (λ i j below fits. omega (arith, three_each_size i, three_each_size j)) ten_bytes

search-IsBoundary_example :
    IsBoundary codec three_each 10 7 (search_count codec three_each 10 8 0 8 none)
search-IsBoundary_example = search-IsBoundary codec three_each 10 7
