-- ===== src/Consumers/Entries.antt =====
-- The dictionary of identities as a list of entries.
use kilix_telemetry.Common.{
  ℕ, suc, ◌≤◌, ◌≡◌, refl, ap, ◌⊎◌, inl, inr, ⊎_elim, String, str_eq, Bool, true, false, Option, [],
  ◌∷◌, length, ltb, arith, Bool-cases, Result, ok, err, telemetry_error,
}
use text.Mathlib.TextEquality.{eq_iff}
use kilix_telemetry.Sorting.{sort_by, insert}
use kilix_telemetry.Bytes.{Bytes}
use kilix_telemetry.Consumers.{Identities, has_key, set_key}

pub not-ltb : (m n : ℕ) → m ≤ n → ltb n m ≡ false
not-ltb m n h = ground arith

-- A refusal is no success.
pub refused :
    {before after : Option Bytes}
    → ◌≡◌ {A = Option Bytes × Result (Unit {0})} (before, err telemetry_error) (after, ok tt)
    → ⊥
refused e =
    let results : err telemetry_error ≡ ok (tt {0}) =
      ap (λ (r : Option Bytes × Result (Unit {0})). r.1) e in
    absurd (cc)

-- The dictionary has the entry.
abbrev pub Has : String × String → Identities → Type 0
Has entry [] = ⊥
Has entry (other ∷ rest) = (other ≡ entry) ⊎ Has entry rest

pub Has-insert :
    (lt : String × String → String × String → Bool) (entry x : String × String) (xs : Identities)
    → Has entry (x ∷ xs)
    → Has entry (insert lt x xs)
unfolding insert
Has-insert lt entry x [] h = h
Has-insert lt entry x (y ∷ ys) h = elim (Bool-cases (lt y x)) [
  | inl e ↦ rw e (
      ⊎_elim (λ here. inr (Has-insert lt entry x ys (inl here)))
        (λ later.
          ⊎_elim (λ next. inl next) (λ rest. inr (Has-insert lt entry x ys (inr rest))) later)
        h)
  | inr e ↦ rw e h
]

pub Has-sort_by :
    (lt : String × String → String × String → Bool) (entry : String × String) (xs : Identities)
    → Has entry xs
    → Has entry (sort_by lt xs)
unfolding sort_by
Has-sort_by lt entry [] h = h
Has-sort_by lt entry (x ∷ xs) h =
    Has-insert lt entry x (sort_by lt xs)
      (⊎_elim (λ here. inl here) (λ later. inr (Has-sort_by lt entry xs later)) h)

pub set_key-Has :
    (key identity : String) (live : Identities) → Has (key, identity) (set_key key identity live)
unfolding set_key
set_key-Has key identity [] = inl refl
set_key-Has key identity ((other, old) ∷ rest) = elim (Bool-cases (str_eq other key)) [
  | inl e ↦ rw e (inl (ap (λ (t : String). (t, identity)) ((eq_iff other key).0 e)))
  | inr e ↦ rw e (inr (set_key-Has key identity rest))
]

-- A new key makes one entry more, a key that is there none.
pub length-set_key :
    (key identity : String) (live : Identities)
    → (length (set_key key identity live) ≤ suc (length live))
      × (has_key key live ≡ true → length (set_key key identity live) ≡ length live)
unfolding set_key has_key
length-set_key key identity [] = (omega arith, λ h. absurd (cc))
length-set_key key identity ((other, old) ∷ rest) = ground (arith, length-set_key key identity rest)
