-- ===== src/Collect/Memory/Bounds.antt =====
-- What `_meminfo` returns, whatever /proc/meminfo holds.
use kilix_telemetry.Common.{
  ℤ, pos, negsuc, ◌*ℤ◌, ◌≤ℤ◌, max_ℤ, min_ℤ, IsNonneg, max_ℤ-IsNonneg, String, str_eq, ◌≡◌, ◌≢◌, ap,
  subst, List, [], ◌∷◌, arith, Bool-cases, Option-cases, inl, inr,
}
use text.Mathlib.TextEquality.{eq_iff}
use kilix_telemetry.Values.{Python}
use kilix_telemetry.Model.Fields.{AllSome}
use kilix_telemetry.Text.{Unicode, split}
use kilix_telemetry.Dict.{
  assign, or_default, AllValues, assign-AllValues, lookup-AllValues, lookup-assign,
  lookup-assign_other,
}
use kilix_telemetry.Collect.{Table, key_values, nonnegative, with_unit, amount_of}
use kilix_telemetry.Collect.Memory.{Amounts, amount, with_available, meminfo_entries, meminfo}

-- Every amount is nonnegative.
abbrev pub AreAmounts : Amounts → Type 0
AreAmounts = AllValues str_eq IsNonneg

in_bytes : (z : ℤ) → IsNonneg z → IsNonneg (z *ℤ pos 1024)
unfolding ◌*ℤ◌
in_bytes (pos n) h = ground arith
in_bytes (negsuc n) h = absurd (omega arith)

amount-IsNonneg :
    (key : String) (values : Amounts) → AreAmounts values → IsNonneg (amount key (pos 0) values)
amount-IsNonneg key values h = lookup-AllValues str_eq IsNonneg key values (pos 0) (omega arith) h

available_between :
    (total free other : ℤ)
    → IsNonneg total
    → IsNonneg free
    → (min_ℤ total free ≤ℤ max_ℤ (min_ℤ total free) (min_ℤ total other))
      × (max_ℤ (min_ℤ total free) (min_ℤ total other) ≤ℤ total)
      × IsNonneg (max_ℤ (min_ℤ total free) (min_ℤ total other))
available_between total free other t f = ground arith

-- `MemAvailable` after `_meminfo`.
abbrev pub available : Amounts → ℤ
available = amount "MemAvailable" (pos 0)

-- The bounds that a table of amounts keeps.
abbrev pub IsBounded : Amounts → Type 0
IsBounded values =
    let total = amount "MemTotal" (pos 0) values in
    let free = amount "MemFree" (pos 0) values in
    IsNonneg (available values)
    × (available values ≤ℤ total)
    × (min_ℤ total free ≤ℤ available values)

lookup_other :
    (key : String) (z : ℤ) (values : Amounts)
    → ◌≢◌ {A = String} "MemAvailable" key
    → amount key (pos 0) (assign str_eq "MemAvailable" z values) ≡ amount key (pos 0) values
lookup_other key z values differs =
    ap (or_default (pos 0)) (lookup-assign_other str_eq eq_iff key "MemAvailable" z values differs)

lookup_available :
    (z : ℤ) (values : Amounts) → available (assign str_eq "MemAvailable" z values) ≡ z
lookup_available z values =
    ap (or_default (pos 0)) (lookup-assign str_eq eq_iff "MemAvailable" z values)

not_total : ◌≢◌ {A = String} "MemAvailable" "MemTotal"
not_total = ground (arith, eq_iff "MemAvailable" "MemTotal")

not_free : ◌≢◌ {A = String} "MemAvailable" "MemFree"
not_free = ground (arith, eq_iff "MemAvailable" "MemFree")

IsBounded-assign :
    (z : ℤ) (values : Amounts)
    → IsNonneg z
      × (z ≤ℤ amount "MemTotal" (pos 0) values)
      × (min_ℤ (amount "MemTotal" (pos 0) values) (amount "MemFree" (pos 0) values) ≤ℤ z)
    → IsBounded (assign str_eq "MemAvailable" z values)
IsBounded-assign z values h =
    rw
      (
        lookup_available z values,
        lookup_other "MemTotal" z values not_total,
        lookup_other "MemFree" z values not_free,
      )
      h

with_available-AreAmounts :
    (values : Amounts) → AreAmounts values → AreAmounts (with_available values)
unfolding with_available
with_available-AreAmounts values h =
    let total : ℤ = amount "MemTotal" (pos 0) values in
    let free : ℤ = amount "MemFree" (pos 0) values in
    let (low, high, nonneg) =
      available_between total free (amount "MemAvailable" _ values)
        (amount-IsNonneg "MemTotal" values h) (amount-IsNonneg "MemFree" values h) in
    assign-AllValues str_eq IsNonneg "MemAvailable" _ values nonneg h

with_available-IsBounded :
    (values : Amounts) → AreAmounts values → IsBounded (with_available values)
unfolding with_available
with_available-IsBounded values h =
    let total : ℤ = amount "MemTotal" (pos 0) values in
    let free : ℤ = amount "MemFree" (pos 0) values in
    let (low, high, nonneg) =
      available_between total free (amount "MemAvailable" _ values)
        (amount-IsNonneg "MemTotal" values h) (amount-IsNonneg "MemFree" values h) in
    IsBounded-assign _ values (nonneg, high, low)

module _ {F : Type 0} (py : Python F) (unicode : Unicode) where
  with_unit-IsNonneg :
      (z : ℤ) (rest : List String) → IsNonneg z → IsNonneg (with_unit py unicode z rest)
  unfolding with_unit
  with_unit-IsNonneg z [] h = h
  with_unit-IsNonneg z (unit ∷ rest) h = elim (Bool-cases (str_eq (unicode.lower unit) "kb")) [
    | inl e ↦ rw e (in_bytes z h)
    | inr e ↦ rw e h
  ]

  amount_of-IsNonneg : (fields : List String) → AllSome IsNonneg (amount_of py unicode fields)
  unfolding amount_of nonnegative
  amount_of-IsNonneg [] = tt
  amount_of-IsNonneg (first ∷ rest) = elim (Option-cases (py.int_of_str first)) [
    | inl e ↦ rw (AllSome, e) tt
    | inr (z, e) ↦ rw (AllSome, e) (with_unit-IsNonneg (max_ℤ (pos 0) z) rest (max_ℤ-IsNonneg z))
  ]

  meminfo_entries-AreAmounts :
      (values : Amounts) (table : Table)
      → AreAmounts values
      → AreAmounts (meminfo_entries py unicode values table)
  unfolding meminfo_entries
  meminfo_entries-AreAmounts values [] h = h
  meminfo_entries-AreAmounts values ((key, tail) ∷ rest) h =
      let nonneg : AllSome IsNonneg (amount_of py unicode (split tail)) =
        amount_of-IsNonneg (split tail) in
      elim (Option-cases (amount_of py unicode (split tail))) [
        | inl e ↦ rw (meminfo_entries, e) (meminfo_entries-AreAmounts values rest h)
        | inr (z, e) ↦
            rw (meminfo_entries, e)
              (meminfo_entries-AreAmounts (assign str_eq key z values) rest (
                assign-AllValues str_eq IsNonneg key z values (subst (AllSome IsNonneg) e nonneg)
                  h))
      ]

  -- Whatever the text of /proc/meminfo, no amount that `_meminfo` returns is negative, and the
  -- available memory is at most the total, and at least the free memory, where that is within
  -- the total.
  pub meminfo-IsBounded :
      (text : String) → AreAmounts (meminfo py unicode text) × IsBounded (meminfo py unicode text)
  unfolding meminfo
  meminfo-IsBounded text =
      let entries : Amounts = meminfo_entries py unicode [] (key_values text) in
      let nonneg : AreAmounts entries = meminfo_entries-AreAmounts [] (key_values text) tt in
      (with_available-AreAmounts entries nonneg, with_available-IsBounded entries nonneg)
