-- ===== src/Ring/History.antt =====
-- `latest` and `history` on a ring that holds a log.
use kilix_telemetry.Common.{
  ℕ, zero, suc, ◌+◌, ◌-◌, ◌≤◌, ℤ, ◌≡◌, refl, ap, subst, ◌⊎◌, ◌∙◌, Option, none, some, ok, List, [],
  ◌∷◌, map, arith, length, get_elem?, take, drop, traverse, inl, inr, List-cases,
}
use mathlib.Core.List.{reverse}
use kilix_telemetry.Bytes.{Bytes}
use kilix_telemetry.Values.{Python}
use kilix_telemetry.Model.{Snapshot}
use kilix_telemetry.Ring.{Codec, SlotHeader}
use kilix_telemetry.Ring.Writer.{Writer}
use kilix_telemetry.Ring.Reader.{
  copy_slot, parse_slot, parse_copy, somes, count_down, requested_of, fresh_only, recent, latest,
  history,
}
use kilix_telemetry.Ring.Header.{reader_of}
use kilix_telemetry.Ring.Ages.{
  IsRecent, NoneFresh, SomeFresh, fresh_only-cases, Sifted, recent-Sifted, asked_for,
  requested_of-eq,
}
use kilix_telemetry.Ring.Log.{Shows, Holds}

somes-map {ℓ} : {A : Type ℓ} (xs : List A) → somes (map some xs) ≡ xs
somes-map [] = refl
somes-map (x ∷ xs) = ap (λ t. x ∷ t) (somes-map xs)

drop-suc {ℓ} :
    {A : Type ℓ} (xs : List A) (i : ℕ) (x : A) (rest : List A)
    → drop i xs ≡ x ∷ rest
    → (get_elem? xs i ≡ some x) × (drop (suc i) xs ≡ rest) × (length xs - i ≡ suc (length rest))
drop-suc [] zero x rest e = absurd (cc)
drop-suc [] (suc i) x rest e = absurd (cc)
drop-suc (y ∷ ys) zero x rest e =
    let tail : ys ≡ rest = cc in (cc, tail, omega (arith, ap length tail))
drop-suc (y ∷ ys) (suc i) x rest e = let (a, b, c) = drop-suc ys i x rest e in (a, b, omega arith)

module _ {F : Type 0} (codec : Codec F) (py : Python F) (w : Writer) (log : List (Snapshot F))
    (h : Holds codec py w log) where
  -- The copies from the i-th newest record on, and what they parse to.
  copies_parsed :
      (k i : ℕ) (rest : List (Snapshot F))
      → drop i log ≡ rest
      → i + k ≤ w.slot_count
      → (copies : List (SlotHeader × Bytes)) × (somes
            (map (copy_slot (reader_of w) w.memory) (count_down (length rest) k))
          ≡ copies)
        × (traverse (parse_slot codec py) copies ≡ ok (map some (take k rest)))
  unfolding count_down traverse
  copies_parsed zero i [] e room = ([], refl, refl)
  copies_parsed zero i (x ∷ rest) e room = ([], refl, refl)
  copies_parsed (suc k) i [] e room = ([], refl, refl)
  copies_parsed (suc k) i (x ∷ rest) e room =
      let (at, next, number) = drop-suc log i x rest e in
      let (copied, copy, parsed) =
        subst (λ n. Shows codec py w n x) number (h.slots i x (omega arith) at) in
      let (copies, found, all) = copies_parsed k (suc i) rest next (omega arith) in
      (copied ∷ copies, rw (copy, found) refl, rw (parsed, all) refl)

  requested_of-le : (limit : Option ℤ) → requested_of (reader_of w) limit ≤ w.slot_count
  unfolding requested_of
  requested_of-le none = omega arith
  requested_of-le (some limit) = ground arith

  -- On a ring that holds a log, `history` returns exactly the newest records of the log, as
  -- many as are asked for and at most the slots of the ring, oldest first, less exactly those
  -- that are older than the age limit.
  pub history_exact :
      (limit : Option ℤ) (now : ℤ) (max_age_ns : Option ℤ)
      → (found : List (Snapshot F)) × (history codec py (reader_of w) w.memory limit now max_age_ns
          ≡ ok found)
        × Sifted (IsRecent now max_age_ns) (reverse (take (asked_for w.slot_count limit) log)) found
  unfolding history
  history_exact limit now max_age_ns =
      let (heading, accepted, number, count, slot) = h.heading in
      let asked : ℕ = requested_of (reader_of w) limit in
      let (copies, found, all) =
        copies_parsed asked 0 log refl (omega (arith, requested_of-le limit)) in
      (
        recent now max_age_ns (reverse (take asked log)),
        rw (accepted, number, found, all, somes-map (take asked log)) refl,
        subst
            (λ n.
              Sifted (IsRecent now max_age_ns) (reverse (take n log))
                (recent now max_age_ns (reverse (take asked log))))
            (requested_of-eq (reader_of w) limit)
            (recent-Sifted now max_age_ns (reverse (take asked log))),
      )

  parse_newest :
      parse_copy codec py (copy_slot (reader_of w) w.memory (length log)) ≡ ok (get_elem? log 0)
  unfolding parse_copy copy_slot
  parse_newest = elim (List-cases log) [
    | inl empty ↦ rw empty
    | inr (x, rest, e) ↦
        let first : get_elem? log 0 ≡ some x = rw e in
        let number : length log - 0 ≡ length log = omega arith in
        let (copied, copy, parsed) =
          subst (λ n. Shows codec py w n x) number
            (h.slots 0 x (omega (arith, h.valid.count_low)) first) in
        rw (copy, first) parsed
  ]

  pub latest-eq :
      (now : ℤ) (max_age_ns : Option ℤ)
      → latest codec py (reader_of w) w.memory now max_age_ns
        ≡ ok (fresh_only now max_age_ns (get_elem? log 0))
  unfolding latest
  latest-eq now max_age_ns =
      let (heading, accepted, number, count, slot) = h.heading in
      rw (accepted, number, parse_newest)

  -- On a ring that holds a log, `latest` returns the newest record of the log if there is no
  -- age limit, or if its time has come and is at most the limit ago, and nothing if there is no
  -- such record.
  pub latest_exact :
      (now : ℤ) (max_age_ns : Option ℤ)
      → ((x : Snapshot F) × SomeFresh now max_age_ns (get_elem? log 0) x
          × (latest codec py (reader_of w) w.memory now max_age_ns ≡ ok (some x)))
        ⊎ (NoneFresh now max_age_ns (get_elem? log 0)
            × (latest codec py (reader_of w) w.memory now max_age_ns ≡ ok none))
  latest_exact now max_age_ns = elim (fresh_only-cases now max_age_ns (get_elem? log 0)) [
    | inl (x, fresh, e) ↦ inl (x, fresh, latest-eq now max_age_ns ∙ ap ok e)
    | inr (stale, e) ↦ inr (stale, latest-eq now max_age_ns ∙ ap ok e)
  ]
