-- ===== src/Ring/Ages.antt =====
-- The age tests of `latest` and `history`, against what an age limit means.
use kilix_telemetry.Common.{
  ℕ, ℤ, pos, negsuc, ◌+ℤ◌, ◌-ℤ◌, ◌≤ℤ◌, leb_ℤ, leb, ◌≡◌, refl, ◌⊎◌, inl, inr, true, false, Option,
  none, some, List, [], ◌∷◌, arith, if◌then◌else◌, Bool-cases,
}
use kilix_telemetry.Model.{Snapshot}
use kilix_telemetry.Ring.Reader.{Reader, is_fresh, fresh_only, not_before, recent, requested_of}

module _ {F : Type 0} where
  -- The snapshot was taken at a time that has come, and at most the limit ago.
  abbrev pub IsFresh : ℤ → Option ℤ → Snapshot F → Type 0
  IsFresh now none x = Unit
  IsFresh now (some limit) x = (x.monotonic_ns ≤ℤ now) × (now ≤ℤ x.monotonic_ns +ℤ limit)

  -- The snapshot was taken at most the limit ago.
  abbrev pub IsRecent : ℤ → Option ℤ → Snapshot F → Type 0
  IsRecent now none x = Unit
  IsRecent now (some limit) x = now ≤ℤ x.monotonic_ns +ℤ limit

  -- There is no newest snapshot, or it is not fresh.
  abbrev pub NoneFresh : ℤ → Option ℤ → Option (Snapshot F) → Type 0
  NoneFresh now limit newest =
      (newest ≡ none) ⊎ ((x : Snapshot F) × (newest ≡ some x) × (IsFresh now limit x → ⊥))

  abbrev pub SomeFresh : ℤ → Option ℤ → Option (Snapshot F) → Snapshot F → Type 0
  SomeFresh now limit newest x = (newest ≡ some x) × IsFresh now limit x

  is_fresh-true :
      (now limit : ℤ) (x : Snapshot F) → is_fresh now limit x ≡ true → IsFresh now (some limit) x
  unfolding is_fresh ◌+ℤ◌ ◌-ℤ◌
  is_fresh-true now limit x e = (ground (arith, e), ground (arith, e))

  is_fresh-false :
      (now limit : ℤ) (x : Snapshot F)
      → is_fresh now limit x ≡ false
      → IsFresh now (some limit) x
      → ⊥
  unfolding is_fresh ◌+ℤ◌ ◌-ℤ◌
  is_fresh-false now limit x e f = ground (arith, e, f.0, f.1)

  -- The age test of `latest` keeps a fresh snapshot and drops any other.
  pub fresh_only-cases :
      (now : ℤ) (limit : Option ℤ) (newest : Option (Snapshot F))
      → ((x : Snapshot F) × SomeFresh now limit newest x × (fresh_only now limit newest ≡ some x))
        ⊎ (NoneFresh now limit newest × (fresh_only now limit newest ≡ none))
  unfolding fresh_only
  fresh_only-cases now limit none = inr (inl refl, refl)
  fresh_only-cases now none (some x) = inl (x, (refl, tt), refl)
  fresh_only-cases now (some limit) (some x) = elim (Bool-cases (is_fresh now limit x)) [
    | inl e ↦ inl (x, (refl, is_fresh-true now limit x e), rw (fresh_only, e) refl)
    | inr e ↦ inr (inr (x, refl, is_fresh-false now limit x e), rw (fresh_only, e) refl)
  ]

-- The second list is the first one less the elements without the property.
pub data Sifted {ℓ κ} {A : Type ℓ} (P : A → Type κ) : List A → List A → Type (ℓ ⊔ κ) where
  sifted : Sifted P [] []
  keeps : {x : A} {xs ys : List A} → P x → Sifted P xs ys → Sifted P (x ∷ xs) (x ∷ ys)
  drops : {x : A} {xs ys : List A} → (P x → ⊥) → Sifted P xs ys → Sifted P (x ∷ xs) ys

module _ {F : Type 0} where
  not_before-Sifted :
      (now limit : ℤ) (xs : List (Snapshot F))
      → Sifted (IsRecent now (some limit)) xs (not_before (now -ℤ limit) xs)
  unfolding not_before ◌-ℤ◌ ◌+ℤ◌
  not_before-Sifted now limit [] = sifted
  not_before-Sifted now limit (x ∷ xs) =
      let rest = not_before-Sifted now limit xs in
      elim (Bool-cases (leb_ℤ (now -ℤ limit) x.monotonic_ns)) [
        | inl e ↦ rw e (keeps (ground (arith, e)) rest)
        | inr e ↦ rw e (drops (λ h. ground (arith, e, h)) rest)
      ]

  all-Sifted : (now : ℤ) (xs : List (Snapshot F)) → Sifted (IsRecent now none) xs xs
  all-Sifted now [] = sifted
  all-Sifted now (x ∷ xs) = keeps tt (all-Sifted now xs)

  pub recent-Sifted :
      (now : ℤ) (limit : Option ℤ) (xs : List (Snapshot F))
      → Sifted (IsRecent now limit) xs (recent now limit xs)
  unfolding recent
  recent-Sifted now none xs = all-Sifted now xs
  recent-Sifted now (some limit) xs = not_before-Sifted now limit xs

-- How many records a call asks for of a ring with so many slots.
abbrev pub asked_for : ℕ → Option ℤ → ℕ
asked_for slots none = slots
asked_for slots (some (negsuc n)) = 0
asked_for slots (some (pos n)) = if leb n slots then n else slots

pub requested_of-eq :
    (r : Reader) (limit : Option ℤ) → requested_of r limit ≡ asked_for r.slot_count limit
unfolding requested_of
requested_of-eq r none = refl
requested_of-eq r (some (pos n)) = ground arith
requested_of-eq r (some (negsuc n)) = ground arith
