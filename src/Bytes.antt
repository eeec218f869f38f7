-- ===== src/Bytes.antt =====
-- The mapped file as memory, and Python's `struct` on it: little-endian unsigned fields without
-- padding, the `<` layouts of src/kilix_telemetry/ring.py.
pub mod Fields
use kilix_telemetry.Common.{
  pos_part, Result, ok, err, struct_error, ℕ, zero, suc, ◌+◌, ◌-◌, ◌*◌, ◌/◌, ◌%◌, ◌^◌, ◌≤◌, ◌<◌, ℤ,
  pos, negsuc, ◌≡◌, refl, ap, subst, ◌∙◌, ◌⊎◌, inl, inr, Bool, true, false, ◌||◌, Option, none,
  some, List, [], ◌∷◌, ◌++◌, arith, length, get_elem?, take, take-of_le, drop, replicate, ltb, leb,
  if◌then◌else◌, Bool-cases,
}
use mathlib.Core.Option
use native.Mathlib.Nat.{pow-suc}

abbrev pub Bytes : Type 0
Bytes = List ℕ

-- The byte at each offset of the mapping.
abbrev pub Memory : Type 0
Memory = ℕ → ℕ

-- `mapping[offset : offset + len(bytes)] = bytes`
unfoldable pub write : Memory → ℕ → Bytes → Memory
write m offset bytes i =
    if ltb i offset then m i else Option.get_or (get_elem? bytes (i - offset)) (m i)

-- `mapping[offset : offset + n]`
unfoldable pub read : Memory → ℕ → ℕ → Bytes
read m offset zero = []
read m offset (suc n) = m offset ∷ read m (suc offset) n

-- `w` bytes, the lowest first.
unfoldable pub le_bytes : ℕ → ℕ → Bytes
le_bytes zero n = []
le_bytes (suc w) n = n % 256 ∷ le_bytes w (n / 256)

unfoldable pub le_value : Bytes → ℕ
le_value [] = 0
le_value (b ∷ bytes) = b + 256 * le_value bytes

pub length-read : (m : Memory) (offset n : ℕ) → length (read m offset n) ≡ n
unfolding read
length-read m offset zero = refl
length-read m offset (suc n) = ap suc (length-read m (suc offset) n)

pub length-le_bytes : (w n : ℕ) → length (le_bytes w n) ≡ w
unfolding le_bytes
length-le_bytes zero n = refl
length-le_bytes (suc w) n = ap suc (length-le_bytes w (n / 256))

-- A number that fits into the field is read back.
pub le_value-le_bytes : (w n : ℕ) → n < 256 ^ w → le_value (le_bytes w n) ≡ n
unfolding le_value le_bytes
le_value-le_bytes zero n h = omega arith
le_value-le_bytes (suc w) n h =
    omega (arith, le_value-le_bytes w (n / 256) (omega (arith, pow-suc 256 w)))

module _ {ℓ} {A : Type ℓ} where
  get_elem?-past : (xs : List A) (i : ℕ) → length xs ≤ i → get_elem? xs i ≡ none
  get_elem?-past [] i h = refl
  get_elem?-past (x ∷ xs) zero h = absurd (omega arith)
  get_elem?-past (x ∷ xs) (suc i) h = get_elem?-past xs i (omega arith)

  drop-at :
      (xs : List A) (k : ℕ)
      → k < length xs
      → (x : A) × (get_elem? xs k ≡ some x) × (drop k xs ≡ x ∷ drop (suc k) xs)
  drop-at [] k h = absurd (omega arith)
  drop-at (x ∷ xs) zero h = (x, refl, refl)
  drop-at (x ∷ xs) (suc k) h = drop-at xs k (omega arith)

pub write-outside :
    (m : Memory) (offset : ℕ) (bytes : Bytes) (i : ℕ)
    → (i < offset) ⊎ (offset + length bytes ≤ i)
    → write m offset bytes i ≡ m i
unfolding write
write-outside m offset bytes i h = ground (arith, get_elem?-past bytes (i - offset))

-- A write leaves what lies before and behind it.
pub read-write_outside :
    (m : Memory) (offset : ℕ) (bytes : Bytes) (at n : ℕ)
    → (at + n ≤ offset) ⊎ (offset + length bytes ≤ at)
    → read (write m offset bytes) at n ≡ read m at n
unfolding read
read-write_outside m offset bytes at zero h = refl
read-write_outside m offset bytes at (suc n) h = rw (
  write-outside m offset bytes at (omega arith),
  read-write_outside m offset bytes (suc at) n (omega arith),
)

write-inside :
    (m : Memory) (offset : ℕ) (bytes : Bytes) (k x : ℕ)
    → get_elem? bytes k ≡ some x
    → write m offset bytes (offset + k) ≡ x
unfolding write
write-inside m offset bytes k x e =
    let back : offset + k - offset ≡ k = omega arith in ground (arith, ap (get_elem? bytes) back)

next : (offset k : ℕ) → offset + suc k ≡ suc (offset + k)
next offset k = omega arith

-- A part of what was written is read back.
pub read-write_inside :
    (m : Memory) (offset : ℕ) (bytes : Bytes) (k n : ℕ)
    → k + n ≤ length bytes
    → read (write m offset bytes) (offset + k) n ≡ take n (drop k bytes)
unfolding read
read-write_inside m offset bytes k zero h = refl
read-write_inside m offset bytes k (suc n) h =
    let (x, e, d) = drop-at bytes k (omega arith) in
    rw (write-inside m offset bytes k x e, d)
      (ap (λ t. x ∷ t)
        (subst (λ i. read (write m offset bytes) i n ≡ take n (drop (suc k) bytes)) (next offset k)
          (read-write_inside m offset bytes (suc k) n (omega arith))))

-- What was written is read back whole.
pub read-write :
    (m : Memory) (offset : ℕ) (bytes : Bytes)
    → read (write m offset bytes) offset (length bytes) ≡ bytes
read-write m offset bytes =
    subst (λ i. read (write m offset bytes) i (length bytes) ≡ bytes) (omega arith)
      (read-write_inside m offset bytes 0 (length bytes) (omega arith)
        ∙ take-of_le (length bytes) bytes (omega arith))

-- Whether `struct` can store an integer in an unsigned field of `w` bytes.
abbrev pub fits_field : ℕ → ℤ → Bool
fits_field w (pos n) = ltb n (256 ^ w)
fits_field w (negsuc n) = false

-- The number of bytes that fields take.
abbrev pub total_width : List (ℕ × ℤ) → ℕ
total_width [] = 0
total_width ((w, z) ∷ rest) = w + total_width rest

-- The bytes of the fields before the first one that is out of range, with zeros from that one on, and
-- whether none is.
unfoldable pub field_bytes : List (ℕ × ℤ) → Bytes × Bool
field_bytes [] = ([], true)
field_bytes ((w, z) ∷ rest) =
    let (bytes, complete) = field_bytes rest in
    if fits_field w z
    then (le_bytes w (pos_part z) ++ bytes, complete)
    else (replicate (w + total_width rest) 0, false)

-- `struct.pack_into`, which clears its bytes first: struct.error leaves the fields before the failing
-- one written, and zeros behind them.
unfoldable pub pack_into : Memory → ℕ → Bytes → List (ℕ × ℤ) → Memory × Result (Unit {0})
pack_into m offset text fields =
    let (bytes, complete) = field_bytes fields in
    (write m offset (text ++ bytes), if complete then ok tt else err struct_error)
