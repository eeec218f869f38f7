-- ===== src/IntSet.antt =====
-- Python's `set[int]` and the membership test, as lists of integers. The program reads a set only
-- by membership or through `sorted`, so the order of the list is not observable.
use kilix_telemetry.Common.{
  ℤ, ◌==ℤ◌, ==ℤ_iff, ◌≡◌, refl, ◌↔◌, ◌⊎◌, Bool, true, false, ◌||◌, List, [], ◌∷◌, arith,
  if◌then◌else◌, length, ◌+◌,
}

-- `x in s`
unfoldable pub contains : ℤ → List ℤ → Bool
contains x [] = false
contains x (a ∷ s) = a ==ℤ x || contains x s

-- `s.add(x)`
unfoldable pub add : ℤ → List ℤ → List ℤ
add x s = if contains x s then s else x ∷ s

-- `pending.extend(xs)` on a list that is kept last element first.
unfoldable pub extend : List ℤ → List ℤ → List ℤ
extend [] pending = pending
extend (x ∷ xs) pending = extend xs (x ∷ pending)

abbrev pub IsDistinct : List ℤ → Type 0
IsDistinct [] = Unit
IsDistinct (x ∷ xs) = (contains x xs ≡ false) × IsDistinct xs

pub contains-nil : (v : ℤ) → contains v [] ≡ false
unfolding contains
contains-nil v = refl

pub contains-cons :
    (v x : ℤ) (s : List ℤ) → (contains v (x ∷ s) ≡ true) ↔ ((v ≡ x) ⊎ (contains v s ≡ true))
unfolding contains
contains-cons v x s = ground (arith, ==ℤ_iff x v)

pub contains-add :
    (v x : ℤ) (s : List ℤ) → (contains v (add x s) ≡ true) ↔ ((v ≡ x) ⊎ (contains v s ≡ true))
unfolding add
contains-add v x s = ground (arith, contains-cons v x s)

pub add-IsDistinct : (x : ℤ) (s : List ℤ) → IsDistinct s → IsDistinct (add x s)
unfolding add
add-IsDistinct x s h = ground arith

pub contains-extend :
    (v : ℤ) (xs pending : List ℤ)
    → (contains v (extend xs pending) ≡ true)
      ↔ ((contains v xs ≡ true) ⊎ (contains v pending ≡ true))
unfolding contains extend
contains-extend v [] pending = ground arith
contains-extend v (x ∷ xs) pending =
    ground (arith, contains-extend v xs (x ∷ pending), contains-cons v x pending)

pub length-extend : (xs pending : List ℤ) → length (extend xs pending) ≡ length xs + length pending
unfolding extend
length-extend [] pending = omega arith
length-extend (x ∷ xs) pending = omega (arith, length-extend xs (x ∷ pending))
