-- ===== src/Values/Laws.antt =====
-- What the conversions of model.py return, as rules for the postconditions of a chain of them.
use kilix_telemetry.Common.{
  ℕ, zero, suc, ℤ, pos, max_ℤ, IsNonneg, max_ℤ-IsNonneg, max_ℤ-of_IsNonneg, ◌≡◌, refl, ap, subst,
  ◌⊎◌, true, false, String, List, [], ◌∷◌, All, map, arith, Result, ok, err, ◌>>=◌, traverse, take,
  length, ◌≤◌, if◌then◌else◌, value_error, type_error,
}
use Prim.Native.String as Str
use kilix_telemetry.Values.{
  Value, Fields, Python, int, float, dict, items_of, list_of, fields_of, entries_of, prefix,
  mappings, int_of, float_of, max_float, catch_conversion, finite_float, nonnegative_int,
}

-- Facts of IEEE 754 on the literals that the code compares with.
pub record PythonLaws {F : Type 0} (py : Python F) : Type 0 where
  pub zero_finite : py.is_finite py.zero_float ≡ true
  pub hundred_finite : py.is_finite py.hundred_float ≡ true
  pub zero_lt_hundred : py.lt py.zero_float py.hundred_float ≡ true
  pub minus_one_finite : py.is_finite py.minus_one_float ≡ true
  pub minus_one_below : py.le py.zero_float py.minus_one_float ≡ false

-- `r` raised, or returned a value in `P`.
abbrev pub Ensures {ℓ κ} : {A : Type ℓ} → (A → Type κ) → Result A → Type κ
Ensures P (ok a) = P a
Ensures P (err e) = Unit

pub Ensures-bind {ℓ κ μ ν} :
    {A : Type ℓ} {B : Type κ} (Q : A → Type μ) (P : B → Type ν) (m : Result A) (f : A → Result B)
    → Ensures Q m
    → ((a : A) → Q a → Ensures P (f a))
    → Ensures P (m >>= f)
Ensures-bind Q P (ok a) f h k = k a h
Ensures-bind Q P (err e) f h k = tt

pub Ensures-any {ℓ} : {A : Type ℓ} (r : Result A) → Ensures (λ _. Unit {0}) r
Ensures-any (ok a) = tt
Ensures-any (err e) = tt

pub Ensures-weaken {ℓ κ μ} :
    {A : Type ℓ} (P : A → Type κ) (Q : A → Type μ) (r : Result A)
    → ((a : A) → P a → Q a)
    → Ensures P r
    → Ensures Q r
Ensures-weaken P Q (ok a) f h = f a h
Ensures-weaken P Q (err e) f h = tt

pub Ensures-ok {ℓ κ} :
    {A : Type ℓ} (P : A → Type κ) (m : Result A) (a : A) → Ensures P m → m ≡ ok a → P a
Ensures-ok P m a h e = subst (Ensures P) e h

pub Ensures-traverse {ℓ κ μ} :
    {A : Type ℓ} {B : Type κ} (P : B → Type μ) (f : A → Result B) (xs : List A)
    → ((x : A) → Ensures P (f x))
    → Ensures (All P) (traverse f xs)
unfolding traverse
Ensures-traverse P f [] h = tt
Ensures-traverse P f (x ∷ xs) h = Ensures-bind P (All P) (f x) _ (h x) λ y p.
    Ensures-bind (All P) (All P) (traverse f xs) _ (Ensures-traverse P f xs h) λ ys ps. (p, ps)

-- `[... for item in raw[:n]]` returns at most `n` elements.
pub Ensures-traverse-take {ℓ κ μ} :
    {A : Type ℓ} {B : Type κ} (P : B → Type μ) (f : A → Result B) (n : ℕ) (xs : List A)
    → ((x : A) → Ensures P (f x))
    → Ensures (λ ys. (length ys ≤ n) × All P ys) (traverse f (take n xs))
unfolding traverse
Ensures-traverse-take P f zero xs h = (omega arith, tt)
Ensures-traverse-take P f (suc n) [] h = (omega arith, tt)
Ensures-traverse-take P f (suc n) (x ∷ xs) h =
    Ensures-bind P (λ ys. (length ys ≤ suc n) × All P ys) (f x) _ (h x)
      λ y p.
        Ensures-bind (λ ys. (length ys ≤ n) × All P ys) (λ ys. (length ys ≤ suc n) × All P ys)
          (traverse f (take n xs)) _ (Ensures-traverse-take P f n xs h)
          λ ys ps. (omega arith, (p, ps.1))

-- Printed and read back, a list whose elements read back as they were is as it was.
pub traverse-map {ℓ κ μ} :
    {A : Type ℓ} {B : Type κ} (P : A → Type μ) (f : B → Result A) (g : A → B) (xs : List A)
    → ((x : A) → P x → f (g x) ≡ ok x)
    → All P xs
    → traverse f (map g xs) ≡ ok xs
unfolding traverse
traverse-map P f g [] h p = refl
traverse-map P f g (x ∷ xs) h p = rw (h x p.0, traverse-map P f g xs h p.1)

module _ {F : Type 0} where
  pub list_of-items_of : (xs : List (Value F)) → list_of (items_of xs) ≡ xs
  list_of-items_of [] = refl
  list_of-items_of (x ∷ xs) = ap (λ t. x ∷ t) (list_of-items_of xs)

  pub entries_of-fields_of : (xs : List (String × Value F)) → entries_of (fields_of xs) ≡ xs
  entries_of-fields_of [] = refl
  entries_of-fields_of ((key, value) ∷ xs) = ap (λ t. (key, value) ∷ t) (entries_of-fields_of xs)

  pub mappings-dicts :
      {A : Type 0} (f : A → Fields F) (xs : List A) → mappings (map (λ x. dict (f x)) xs) ≡ map f xs
  unfolding mappings
  mappings-dicts f [] = refl
  mappings-dicts f (x ∷ xs) = ap (λ t. f x ∷ t) (mappings-dicts f xs)

pub prefix-prefix : (n : ℕ) (s : String) → prefix n (prefix n s) ≡ prefix n s
unfolding prefix
prefix-prefix zero s = refl
prefix-prefix (suc n) Str.[] = refl
prefix-prefix (suc n) (Str.◌∷◌ c s) = ap (λ t. Str.◌∷◌ c t) (prefix-prefix n s)

module _ {F : Type 0} (py : Python F) where
  abbrev pub IsFinite : F → Type 0
  IsFinite f = py.is_finite f ≡ true

  -- What `max(0.0, x)` returns.
  abbrev pub IsAboveZero : F → Type 0
  IsAboveZero f = (py.lt py.zero_float f ≡ true) ⊎ (f ≡ py.zero_float)

  pub nonnegative_int-IsNonneg : (value : Value F) → Ensures IsNonneg (nonnegative_int py value)
  unfolding nonnegative_int
  nonnegative_int-IsNonneg value = elim_conversion (int_of py value)
    where
      elim_conversion :
          (m : Result ℤ)
          → Ensures IsNonneg (catch_conversion py (m >>= λ z. ok (max_ℤ (pos 0) z)) (pos 0))
      elim_conversion (ok z) = max_ℤ-IsNonneg z
      elim_conversion (err value_error) = omega arith
      elim_conversion (err type_error) = omega arith
      elim_conversion (err e) = tt

  pub finite_float-IsFinite :
      (value : Value F) (default : F)
      → IsFinite default
      → Ensures IsFinite (finite_float py value default)
  unfolding finite_float
  finite_float-IsFinite value default d = elim_conversion (float_of py value)
    where
      elim_conversion :
          (m : Result F)
          → Ensures IsFinite
              (catch_conversion py (m >>= λ f. ok (if py.is_finite f then f else default)) default)
      elim_conversion (ok f) = ground arith
      elim_conversion (err value_error) = d
      elim_conversion (err type_error) = d
      elim_conversion (err e) = tt

  pub nonnegative_int-int : (z : ℤ) → IsNonneg z → nonnegative_int py (int z) ≡ ok z
  unfolding nonnegative_int int_of
  nonnegative_int-int z h = ap ok (max_ℤ-of_IsNonneg z h)

  pub finite_float-float : (f default : F) → IsFinite f → finite_float py (float f) default ≡ ok f
  unfolding finite_float float_of
  finite_float-float f default h = rw h

  pub max_float-of_IsAboveZero : (f : F) → IsAboveZero f → max_float py py.zero_float f ≡ f
  max_float-of_IsAboveZero f h = ground arith

  pub max_float-IsAboveZero : (f : F) → IsAboveZero (max_float py py.zero_float f)
  max_float-IsAboveZero f = ground arith

  pub max_float-IsFinite :
      PythonLaws py → (f : F) → IsFinite f → IsFinite (max_float py py.zero_float f)
  max_float-IsFinite laws f h = ground (arith, laws.zero_finite)
