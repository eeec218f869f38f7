-- ===== src/Bytes/Fields.antt =====
-- Fields that are in range are packed whole, and read back.
use kilix_telemetry.Common.{
  ℕ, ◌+◌, ◌≤◌, ◌<◌, ◌^◌, ℤ, pos, pos_part, ◌≡◌, refl, true, ok, List, [], ◌∷◌, ◌++◌, arith, length,
  take, drop, length-append,
}
use kilix_telemetry.Bytes.{
  Bytes, Memory, write, read, le_bytes, le_value, le_value-le_bytes, length-le_bytes,
  read-write_inside, fits_field, field_bytes, pack_into, total_width,
}

-- Every field is in the range of its width.
abbrev pub AllFit : List (ℕ × ℤ) → Type 0
AllFit [] = Unit
AllFit ((w, z) ∷ rest) = (fits_field w z ≡ true) × AllFit rest

unfoldable pub bytes_of : List (ℕ × ℤ) → Bytes
bytes_of [] = []
bytes_of ((w, z) ∷ rest) = le_bytes w (pos_part z) ++ bytes_of rest

field_bytes-AllFit :
    (fields : List (ℕ × ℤ)) → AllFit fields → field_bytes fields ≡ (bytes_of fields, true)
unfolding field_bytes bytes_of
field_bytes-AllFit [] h = refl
field_bytes-AllFit ((w, z) ∷ rest) h = rw (h.0, field_bytes-AllFit rest h.1)

-- `pack_into` succeeds on fields in range, and writes them all.
pub pack_into-AllFit :
    (m : Memory) (offset : ℕ) (text : Bytes) (fields : List (ℕ × ℤ))
    → AllFit fields
    → pack_into m offset text fields ≡ (write m offset (text ++ bytes_of fields), ok tt)
unfolding pack_into
pack_into-AllFit m offset text fields h = rw (field_bytes-AllFit fields h)

pub length-bytes_of : (fields : List (ℕ × ℤ)) → length (bytes_of fields) ≡ total_width fields
unfolding bytes_of
length-bytes_of [] = refl
length-bytes_of ((w, z) ∷ rest) = omega (
  arith,
  length-append (le_bytes w (pos_part z)) (bytes_of rest),
  length-le_bytes w (pos_part z),
  length-bytes_of rest,
)

pub fits_field-lt : (w : ℕ) (n : ℕ) → fits_field w (pos n) ≡ true → n < 256 ^ w
fits_field-lt w n h = ground arith

-- The number stored at a place of the written bytes.
pub value-write_inside :
    (m : Memory) (offset : ℕ) (bytes : Bytes) (k w : ℕ) (n : ℕ)
    → k + w ≤ length bytes
    → take w (drop k bytes) ≡ le_bytes w n
    → fits_field w (pos n) ≡ true
    → le_value (read (write m offset bytes) (offset + k) w) ≡ n
value-write_inside m offset bytes k w n room at fits =
    rw (read-write_inside m offset bytes k w room, at)
      (le_value-le_bytes w n (fits_field-lt w n fits))
