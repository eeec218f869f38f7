-- ===== src/Client/Current.antt =====
-- What `_fresh_reader` of src/kilix_telemetry/client.py returns is a mapping of the file that the path
-- names.
use kilix_telemetry.Common.{
  ℕ, ==_iff, ◌≡◌, refl, ap, ◌∙◌, sym, true, inl, inr, Option, none, some, Result, ok, err,
  >>=-eq-ok, arith, Bool-cases, leb,
}
use kilix_telemetry.Bytes.{Memory}
use kilix_telemetry.Ring.{ring_header_size}
use kilix_telemetry.Ring.Reader.{Reader, header, require, open_reader}
use kilix_telemetry.Mapping.{
  NamedRing, Mapped, is_unavailable, is_current, mapped_of, open_ring, fresh_reader,
}

open_reader-size :
    (size : ℕ) (m : Memory) (reader : Reader) → open_reader size m ≡ ok reader → reader.size ≡ size
unfolding open_reader
open_reader-size size m reader e =
    let (done, large, opened) = >>=-eq-ok (require (leb ring_header_size size)) _ e in
    let (h, accepted, made) = >>=-eq-ok (header size m) _ opened in cc

mapped_of-is_current :
    (ring : NamedRing) (reader : Reader)
    → reader.size ≡ ring.size
    → is_current ring (mapped_of ring reader) ≡ true
unfolding is_current
mapped_of-is_current ring reader e = ground (
  arith,
  ==_iff ring.inode ring.inode,
  ==_iff ring.device ring.device,
  ==_iff ring.size reader.size,
  e,
)

-- The mapping is of the file that the path names, and shows its bytes.
abbrev pub IsOf : Option NamedRing → Mapped → Memory → Type 0
IsOf named mapped memory =
    (ring : NamedRing) × (named ≡ some ring)
    × (is_current ring mapped ≡ true)
    × (memory ≡ ring.memory)

opened-IsOf :
    (ring : NamedRing) (r : Result Reader) (mapped : Mapped) (memory : Memory)
    → open_reader ring.size ring.memory ≡ r
    → open_ring (some ring) ≡ ok (some (mapped, memory))
    → IsOf (some ring) mapped memory
unfolding open_ring
opened-IsOf ring (ok reader) mapped memory read e =
    let opened : open_ring (some ring) ≡ ok (some (mapped_of ring reader, ring.memory)) =
      rw (open_ring, read) refl in
    let made : Mapped × Memory = (mapped_of ring reader, ring.memory) in
    let asked : Mapped × Memory = (mapped, memory) in
    let same : made ≡ asked = cc in
    let of : mapped_of ring reader ≡ mapped = ap (λ (r : Mapped × Memory). r.0) same in
    (
      ring,
      refl,
      ap (λ m. is_current ring m) (sym of)
          ∙ mapped_of-is_current ring reader (open_reader-size ring.size ring.memory reader read),
      sym (ap (λ (r : Mapped × Memory). r.1) same),
    )
opened-IsOf ring (err x) mapped memory read e = elim (Bool-cases (is_unavailable x)) [
  | inl u ↦
      let nothing : open_ring (some ring) ≡ ok none = rw (open_ring, read, u) refl in absurd (cc)
  | inr u ↦ let raised : open_ring (some ring) ≡ err x = rw (open_ring, read, u) refl in absurd (cc)
]

pub fresh_reader-IsOf :
    (named : Option NamedRing) (cached : Option Mapped) (mapped : Mapped) (memory : Memory)
    → fresh_reader named cached ≡ ok (some (mapped, memory))
    → IsOf named mapped memory
unfolding fresh_reader open_ring
fresh_reader-IsOf none none mapped memory e = absurd (cc)
fresh_reader-IsOf none (some old) mapped memory e = absurd (cc)
fresh_reader-IsOf (some ring) none mapped memory e =
    opened-IsOf ring (open_reader ring.size ring.memory) mapped memory refl e
fresh_reader-IsOf (some ring) (some old) mapped memory e = elim (Bool-cases (is_current ring old)) [
  | inl c ↦
      let kept : fresh_reader (some ring) (some old) ≡ ok (some (old, ring.memory)) =
        rw (fresh_reader, c) refl in
      let same : old ≡ mapped = cc in (ring, refl, ap (λ m. is_current ring m) (sym same) ∙ c, cc)
  | inr c ↦
      let again : fresh_reader (some ring) (some old) ≡ open_ring (some ring) =
        rw (fresh_reader, c) refl in
      opened-IsOf ring (open_reader ring.size ring.memory) mapped memory refl (sym again ∙ e)
]
