-- ===== src/Collect/Cpu/Percent.antt =====
-- What `_cpu` returns, whatever /proc/stat holds.
use kilix_telemetry.Common.{
  ℕ, zero, suc, ℤ, pos, pos_part, ◌+ℤ◌, ◌==ℤ◌, ◌≤ℤ◌, leb_ℤ, ◌≡◌, refl, ap, ◌∙◌, String, Option,
  none, some, List, [], ◌∷◌, length, All, traverse, Result, arith, Bool-cases, Option-cases, inl,
  inr,
}
use kilix_telemetry.Values.{Python}
use kilix_telemetry.Values.Laws.{PythonLaws, Ensures, Ensures-any, Ensures-bind}
use kilix_telemetry.Model.Fields.{AllSome, IsPercent}
use kilix_telemetry.Text.{Unicode, split_lines}
use kilix_telemetry.Dict.{lookup}
use kilix_telemetry.Collect.{BetweenIsFinite, Arithmetic, to_float, quotient}
use kilix_telemetry.Collect.Cpu.{
  Ticks, PerCpu, range_from, logical_of, clamp_percent, busy_percent, cpu_percent, percent_at,
  cpu_lines, cpu,
}

length-range_from : (start : ℤ) (n : ℕ) → length (range_from start n) ≡ n
unfolding range_from
length-range_from start zero = refl
length-range_from start (suc n) = ap suc (length-range_from (start +ℤ pos 1) n)

logical_of-pos : (cpu_count : ℤ) (per_cpu : PerCpu) → pos 1 ≤ℤ logical_of cpu_count per_cpu
unfolding logical_of
logical_of-pos cpu_count [] = ground arith
logical_of-pos cpu_count (entry ∷ rest) = ground arith

Ensures-traverse-length {ℓ κ μ} :
    {A : Type ℓ} {B : Type κ} (P : B → Type μ) (f : A → Result B) (xs : List A)
    → ((x : A) → Ensures P (f x))
    → Ensures (λ ys. (length ys ≡ length xs) × All P ys) (traverse f xs)
unfolding traverse
Ensures-traverse-length P f [] h = (refl, tt)
Ensures-traverse-length P f (x ∷ xs) h =
    Ensures-bind P (λ ys. (length ys ≡ suc (length xs)) × All P ys) (f x) _ (h x)
      λ y p.
        Ensures-bind (λ ys. (length ys ≡ length xs) × All P ys)
          (λ ys. (length ys ≡ suc (length xs)) × All P ys) (traverse f xs) _
          (Ensures-traverse-length P f xs h) λ ys ps. (ap suc ps.0, (p, ps.1))

module _ {F : Type 0} (py : Python F) (laws : PythonLaws py) (between : BetweenIsFinite py)
    (arithmetic : Arithmetic F) where
  -- The clamp leaves a percentage of any float, even of one that is no number.
  clamp_percent-IsPercent : (f : F) → IsPercent py (clamp_percent py arithmetic f)
  clamp_percent-IsPercent f =
      ground (arith, laws.zero_finite, laws.hundred_finite, laws.zero_lt_hundred, between f)

  busy_percent-IsPercent :
      (busy total : ℤ) → Ensures (IsPercent py) (busy_percent py arithmetic busy total)
  unfolding busy_percent
  busy_percent-IsPercent busy total =
      Ensures-bind (λ _. Unit {0}) (IsPercent py) (to_float py busy) _
        (Ensures-any (to_float py busy))
        λ numerator h.
          Ensures-bind (λ _. Unit {0}) (IsPercent py) (to_float py total) _
            (Ensures-any (to_float py total))
            λ denominator k.
              Ensures-bind (λ _. Unit {0}) (IsPercent py)
                (quotient py arithmetic (arithmetic.mul py.hundred_float numerator) denominator) _
                (Ensures-any _) λ share s. clamp_percent-IsPercent share

  cpu_percent-IsPercent :
      (current : Ticks) (previous : Option Ticks)
      → Ensures (AllSome (IsPercent py)) (cpu_percent py arithmetic current previous)
  unfolding cpu_percent
  cpu_percent-IsPercent (total, idle) none = tt
  cpu_percent-IsPercent (total, idle) (some (old_total, old_idle)) =
      elim (Bool-cases (leb_ℤ total old_total)) [
        | inl e ↦ rw (cpu_percent, e) tt
        | inr e ↦
            rw (cpu_percent, e)
              (Ensures-bind (IsPercent py) (AllSome (IsPercent py)) (busy_percent py arithmetic _ _)
                _ (busy_percent-IsPercent _ _) λ percent h. h)
      ]

  module _ (unicode : Unicode) where
    percent_at-IsPercent :
        (per_cpu previous : PerCpu) (index : ℤ)
        → Ensures (AllSome (IsPercent py)) (percent_at py arithmetic unicode per_cpu previous index)
    unfolding percent_at
    percent_at-IsPercent per_cpu previous index = elim (Option-cases (lookup ◌==ℤ◌ index per_cpu)) [
      | inl e ↦ rw (percent_at, e) tt
      | inr (ticks, e) ↦
          rw (percent_at, e) (cpu_percent-IsPercent ticks (lookup ◌==ℤ◌ index previous))
    ]

    -- What `_cpu` returns: the readings to keep, the total share, the number of CPUs, and the share
    -- of each.
    abbrev pub AreShares : (Ticks × PerCpu) × Option F × ℤ × List (Option F) → Type 0
    AreShares (noted, percent, logical, per_percent) =
        AllSome (IsPercent py) percent
        × (pos 1 ≤ℤ logical)
        × (length per_percent ≡ pos_part logical)
        × All (AllSome (IsPercent py)) per_percent

    -- Whatever the text of /proc/stat and the readings before it, `_cpu` raises, or returns at
    -- least one logical CPU, one share or none for each of them, and shares that are finite and
    -- between 0 and 100, where what lies between two finite floats is finite.
    pub cpu-AreShares :
        (cpu_count : ℤ) (text : String) (previous : Option Ticks) (previous_per_cpu : PerCpu)
        → Ensures AreShares (cpu py arithmetic unicode cpu_count text previous previous_per_cpu)
    unfolding cpu
    cpu-AreShares cpu_count text previous previous_per_cpu =
        Ensures-bind (λ _. Unit {0}) AreShares
          (cpu_lines py arithmetic unicode (split_lines text) ((pos 0, pos 0), [])) _
          (Ensures-any (cpu_lines py arithmetic unicode (split_lines text) ((pos 0, pos 0), [])))
          λ noted h.
            Ensures-bind (AllSome (IsPercent py)) AreShares
              (cpu_percent py arithmetic noted.0 previous) _
              (cpu_percent-IsPercent noted.0 previous)
              λ percent share.
                let count : ℕ = pos_part (logical_of cpu_count noted.1) in
                Ensures-bind
                  (λ shares.
                    (length shares ≡ length (range_from (pos 0) count))
                    × All (AllSome (IsPercent py)) shares)
                  AreShares
                  (traverse (percent_at py arithmetic unicode noted.1 previous_per_cpu)
                    (range_from (pos 0) count))
                  _
                  (Ensures-traverse-length (AllSome (IsPercent py))
                    (percent_at py arithmetic unicode noted.1 previous_per_cpu)
                    (range_from (pos 0) count) (percent_at-IsPercent noted.1 previous_per_cpu))
                  λ shares all. (
                    share,
                    logical_of-pos cpu_count noted.1,
                    all.0 ∙ length-range_from (pos 0) count,
                    all.1,
                  )
