-- ===== src/Sorting.antt =====
-- Python's `sorted`: a stable sort by a strict order, or by an integer key. The program only uses
-- the resulting order, so insertion stands for the interpreter's merge sort.
use kilix_telemetry.Common.{
  suc, ℤ, ◌≤ℤ◌, ltb_ℤ, ◌≡◌, refl, ap, ◌∙◌, ◌↔◌, ◌⊎◌, inl, inr, Bool, true, false, List, [], ◌∷◌,
  All, arith, length, if◌then◌else◌, Bool-cases,
}
use kilix_telemetry.IntSet.{contains, contains-cons, IsDistinct}

module _ {ℓ} {A : Type ℓ} (lt : A → A → Bool) where
  unfoldable pub insert : A → List A → List A
  insert x [] = x ∷ []
  insert x (y ∷ ys) = if lt y x then y ∷ insert x ys else x ∷ y ∷ ys

  -- `sorted(xs)` under the order `lt`.
  unfoldable pub sort_by : List A → List A
  unfolding insert
  sort_by [] = []
  sort_by (x ∷ xs) = insert x (sort_by xs)

module _ {ℓ} {A : Type ℓ} (lt : A → A → Bool) where
  length-insert : (x : A) (xs : List A) → length (insert lt x xs) ≡ suc (length xs)
  unfolding insert
  length-insert x [] = refl
  length-insert x (y ∷ ys) = ground (arith, length-insert x ys)

  pub length-sort_by : (xs : List A) → length (sort_by lt xs) ≡ length xs
  unfolding sort_by
  length-sort_by [] = refl
  length-sort_by (x ∷ xs) = length-insert x (sort_by lt xs) ∙ ap suc (length-sort_by xs)

  All-insert {κ} : (P : A → Type κ) (x : A) (xs : List A) → P x → All P xs → All P (insert lt x xs)
  unfolding insert
  All-insert P x [] p ps = (p, tt)
  All-insert P x (y ∷ ys) p ps = elim (Bool-cases (lt y x)) [
    | inl e ↦ rw e (ps.0, All-insert P x ys p ps.1)
    | inr e ↦ rw e (p, ps)
  ]

  pub All-sort_by {κ} : (P : A → Type κ) (xs : List A) → All P xs → All P (sort_by lt xs)
  unfolding sort_by
  All-sort_by P [] ps = tt
  All-sort_by P (x ∷ xs) ps = All-insert P x (sort_by lt xs) ps.0 (All-sort_by P xs ps.1)

-- `sorted(xs, key=key)`
abbrev pub sort_by_key {ℓ} : {A : Type ℓ} → (A → ℤ) → List A → List A
sort_by_key key = sort_by (λ a b. ltb_ℤ (key a) (key b))

-- `sorted(pids)`
abbrev pub sorted : List ℤ → List ℤ
sorted = sort_by_key (λ z. z)

module _ {ℓ} {A : Type ℓ} (key : A → ℤ) where
  abbrev pub IsSorted : List A → Type 0
  IsSorted [] = Unit
  IsSorted (x ∷ xs) = All (λ y. key x ≤ℤ key y) xs × IsSorted xs

  All-le :
      (x y : A) (ys : List A)
      → key x ≤ℤ key y
      → All (λ z. key y ≤ℤ key z) ys
      → All (λ z. key x ≤ℤ key z) ys
  All-le x y [] h p = tt
  All-le x y (z ∷ zs) h p = (omega arith, All-le x y zs h p.1)

  insert-IsSorted :
      (x : A) (xs : List A) → IsSorted xs → IsSorted (insert (λ a b. ltb_ℤ (key a) (key b)) x xs)
  unfolding insert
  insert-IsSorted x [] s = (tt, tt)
  insert-IsSorted x (y ∷ ys) s = elim (Bool-cases (ltb_ℤ (key y) (key x))) [
    | inl e ↦ rw e (
      All-insert (λ a b. ltb_ℤ (key a) (key b)) (λ z. key y ≤ℤ key z) x ys (ground arith) s.0,
      insert-IsSorted x ys s.1,
    )
    | inr e ↦ rw e ((ground arith, All-le x y ys (ground arith) s.0), s)
  ]

  pub sort_by_key-IsSorted : (xs : List A) → IsSorted (sort_by_key key xs)
  unfolding sort_by
  sort_by_key-IsSorted [] = tt
  sort_by_key-IsSorted (x ∷ xs) = insert-IsSorted x (sort_by_key key xs) (sort_by_key-IsSorted xs)

module _ (lt : ℤ → ℤ → Bool) where
  contains-insert :
      (v x : ℤ) (xs : List ℤ)
      → (contains v (insert lt x xs) ≡ true) ↔ ((v ≡ x) ⊎ (contains v xs ≡ true))
  unfolding insert
  contains-insert v x [] = ground (arith, contains-cons v x [])
  contains-insert v x (y ∷ ys) = ground (
    arith,
    contains-insert v x ys,
    contains-cons v y ys,
    contains-cons v x (y ∷ ys),
    contains-cons v y (insert lt x ys),
  )

  pub contains-sort_by :
      (v : ℤ) (xs : List ℤ) → (contains v (sort_by lt xs) ≡ true) ↔ (contains v xs ≡ true)
  unfolding sort_by
  contains-sort_by v [] = ground arith
  contains-sort_by v (x ∷ xs) =
      ground
        (arith, contains-insert v x (sort_by lt xs), contains-sort_by v xs, contains-cons v x xs)

  insert-IsDistinct :
      (x : ℤ) (xs : List ℤ) → contains x xs ≡ false → IsDistinct xs → IsDistinct (insert lt x xs)
  unfolding insert
  insert-IsDistinct x [] n d = (n, tt)
  insert-IsDistinct x (y ∷ ys) n d =
      ground (arith, contains-cons x y ys, contains-insert y x ys, insert-IsDistinct x ys)

  pub sort_by-IsDistinct : (xs : List ℤ) → IsDistinct xs → IsDistinct (sort_by lt xs)
  unfolding sort_by
  sort_by-IsDistinct [] d = tt
  sort_by-IsDistinct (x ∷ xs) d =
      insert-IsDistinct x (sort_by lt xs) (ground (arith, contains-sort_by x xs))
        (sort_by-IsDistinct xs d.1)
