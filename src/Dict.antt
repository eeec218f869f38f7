-- ===== src/Dict.antt =====
-- Python's `dict` as the list of its entries, in the order in which the keys were first set, over
-- any test of equal keys.
use kilix_telemetry.Common.{
  ◌≡◌, ◌≢◌, refl, sym, ◌∙◌, ◌↔◌, Bool, true, Option, none, some, List, [], ◌∷◌, All, if◌then◌else◌,
  Bool-cases, inl, inr,
}

module _ {ℓ κ} {K : Type ℓ} {V : Type κ} (same : K → K → Bool) where
  -- `d.get(key)`
  unfoldable pub lookup : K → List (K × V) → Option V
  lookup key [] = none
  lookup key ((other, value) ∷ rest) = if same other key then some value else lookup key rest

  -- `d[key] = value`
  unfoldable pub assign : K → V → List (K × V) → List (K × V)
  assign key value [] = (key, value) ∷ []
  assign key value ((other, old) ∷ rest) =
      let later = assign key value rest in
      if same other key then (other, value) ∷ rest else (other, old) ∷ later

  -- `{key: value for key, value in d.items() if keep(key)}`
  unfoldable pub keep_keys : (K → Bool) → List (K × V) → List (K × V)
  keep_keys keep [] = []
  keep_keys keep ((key, value) ∷ rest) =
      let kept = keep_keys keep rest in if keep key then (key, value) ∷ kept else kept

-- `d.get(key, default)`
abbrev pub or_default {ℓ} : {A : Type ℓ} → A → Option A → A
or_default default none = default
or_default default (some a) = a

module _ {ℓ κ μ} {K : Type ℓ} {V : Type κ} (same : K → K → Bool) (P : V → Type μ) where
  -- A property of every value.
  abbrev pub AllValues : List (K × V) → Type μ
  AllValues = All (λ entry. P entry.1)

  pub assign-AllValues :
      (key : K) (value : V) (d : List (K × V))
      → P value
      → AllValues d
      → AllValues (assign same key value d)
  unfolding assign
  assign-AllValues key value [] p h = (p, tt)
  assign-AllValues key value ((other, old) ∷ rest) p h = elim (Bool-cases (same other key)) [
    | inl e ↦ rw e (p, h.1)
    | inr e ↦ rw e (h.0, assign-AllValues key value rest p h.1)
  ]

  pub lookup-AllValues :
      (key : K) (d : List (K × V)) (default : V)
      → P default
      → AllValues d
      → P (or_default default (lookup same key d))
  unfolding lookup
  lookup-AllValues key [] default p h = p
  lookup-AllValues key ((other, value) ∷ rest) default p h = elim (Bool-cases (same other key)) [
    | inl e ↦ rw e h.0
    | inr e ↦ rw e (lookup-AllValues key rest default p h.1)
  ]

module _ {ℓ κ} {K : Type ℓ} {V : Type κ} (same : K → K → Bool)
    (exact : (a b : K) → (same a b ≡ true) ↔ (a ≡ b)) where
  pub lookup-assign :
      (key : K) (value : V) (d : List (K × V))
      → lookup same key (assign same key value d) ≡ some value
  unfolding lookup assign
  lookup-assign key value [] = rw ((exact key key).1 refl) refl
  lookup-assign key value ((other, old) ∷ rest) = elim (Bool-cases (same other key)) [
    | inl e ↦ rw (e, e) refl
    | inr e ↦ rw (e, e) (lookup-assign key value rest)
  ]

  pub lookup-assign_other :
      (key other : K) (value : V) (d : List (K × V))
      → other ≢ key
      → lookup same key (assign same other value d) ≡ lookup same key d
  unfolding lookup assign
  lookup-assign_other key other value [] differs = elim (Bool-cases (same other key)) [
    | inl e ↦ absurd (differs ((exact other key).0 e))
    | inr e ↦ rw e refl
  ]
  lookup-assign_other key other value ((first, old) ∷ rest) differs =
      elim (Bool-cases (same first other)) [
        | inr e ↦ elim (Bool-cases (same first key)) [
          | inl f ↦ rw (e, f) refl
          | inr f ↦ rw (e, f) (lookup-assign_other key other value rest differs)
        ]
        | inl e ↦ elim (Bool-cases (same first key)) [
          | inl f ↦ absurd (differs (sym ((exact first other).0 e) ∙ (exact first key).0 f))
          | inr f ↦ rw (e, f) refl
        ]
      ]
