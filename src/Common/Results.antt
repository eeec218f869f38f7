-- ===== src/Common/Results.antt =====
-- The exceptions that the modelled code raises or lets pass, and a result that may be one.
use mathlib.Core.Path.{◌≡◌, refl}
use mathlib.Core.List.{List, [], ◌∷◌}

pub data Exc : Type 0 where
  value_error type_error overflow_error key_error index_error zero_division_error struct_error : Exc
  telemetry_error ring_unavailable ring_busy os_error : Exc

-- What a call comes back with: its value, or the exception that it raises.
pub data Result {ℓ} (Value : Type ℓ) : Type ℓ where
  ok : Value → Result Value
  err : Exc → Result Value

-- An exception skips what follows.
abbrev pub ◌>>=◌ {κ ℓ} :
    {First : Type κ} {Next : Type ℓ} → Result First → (First → Result Next) → Result Next
ok value >>= rest = rest value
err raised >>= rest = err raised

abbrev pub ◌>>◌ {ℓ} : {Next : Type ℓ} → Result (Unit {0}) → Result Next → Result Next
first >> rest = first >>= λ done. rest

infixl 5 ◌>>=◌ ◌>>◌
-- A chain that returns has a first call that returned.
pub >>=-eq-ok {κ ℓ} :
    {First : Type κ} {Next : Type ℓ} (first : Result First) (rest : First → Result Next)
    {out : Next}
    → (first >>= rest) ≡ ok out
    → (value : First) × (first ≡ ok value) × (rest value ≡ ok out)
>>=-eq-ok (err raised) rest e = cc
>>=-eq-ok (ok value) rest e = (value, refl, e)

-- A comprehension whose element expression may raise, from the first element on.
unfoldable pub traverse {ℓ κ} :
    {A : Type ℓ} {B : Type κ} → (A → Result B) → List A → Result (List B)
traverse f [] = ok []
traverse f (x ∷ xs) = do y ← f x; ys ← traverse f xs; ok (y ∷ ys)
