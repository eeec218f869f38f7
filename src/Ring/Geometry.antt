-- ===== src/Ring/Geometry.antt =====
-- Where the slots lie in the mapping, and what a slot shows when the bytes around it change.
use kilix_telemetry.Common.{
  ℕ, ◌+◌, ◌-◌, ◌*◌, ◌%◌, ◌≤◌, ◌<◌, ◌≡◌, ◌≢◌, ◌⊎◌, inl, inr, true, false, none, some, arith, ltb,
  ◌==◌, ==_iff, Bool-cases,
}
use native.Mathlib.Decide.{dec_lt}
use kilix_telemetry.Bytes.{Bytes, Memory, read}
use kilix_telemetry.Ring.{SlotHeader, ring_header_size, slot_header_size, slot_offset, unpack_slot}
use kilix_telemetry.Ring.Reader.{Reader, is_consistent, copy_slot}

module _ (slot_count slot_size : ℕ) where
  pub header-le-slot_offset :
      (sequence : ℕ) → ring_header_size ≤ slot_offset slot_count slot_size sequence
  unfolding slot_offset
  header-le-slot_offset sequence = omega arith

  index-lt : (n : ℕ) → 0 < slot_count → n % slot_count < slot_count
  index-lt n h = omega arith

  slot_bound : (i : ℕ) → i < slot_count → i * slot_size + slot_size ≤ slot_count * slot_size
  slot_bound i h = grind arith

  slot_gap : (i j : ℕ) → i < j → i * slot_size + slot_size ≤ j * slot_size
  slot_gap i j h = grind arith

  -- A slot ends within the file.
  pub slot_offset_within :
      (sequence : ℕ)
      → 0 < slot_count
      → slot_offset slot_count slot_size sequence + slot_size
        ≤ ring_header_size + slot_count * slot_size
  unfolding slot_offset
  slot_offset_within sequence h =
      omega (arith, slot_bound ((sequence - 1) % slot_count) (index-lt (sequence - 1) h))

  -- Two slots with different indices do not overlap.
  pub slot_offset_apart :
      (a b : ℕ)
      → (a - 1) % slot_count ≢ (b - 1) % slot_count
      → (slot_offset slot_count slot_size a + slot_size ≤ slot_offset slot_count slot_size b)
        ⊎ (slot_offset slot_count slot_size b + slot_size ≤ slot_offset slot_count slot_size a)
  unfolding slot_offset
  slot_offset_apart a b h = elim (dec_lt ((a - 1) % slot_count) ((b - 1) % slot_count)) [
    | yes l ↦ inl (omega (arith, slot_gap ((a - 1) % slot_count) ((b - 1) % slot_count) l))
    | no g ↦
        let l : (b - 1) % slot_count < (a - 1) % slot_count = omega arith in
        inr (omega (arith, slot_gap ((b - 1) % slot_count) ((a - 1) % slot_count) l))
  ]

-- Every part of `n` bytes from `offset` on reads the same in both memories.
abbrev pub SameBytes : Memory → Memory → ℕ → ℕ → Type 0
SameBytes m m' offset n =
    (at size : ℕ) → offset ≤ at → at + size ≤ offset + n → read m' at size ≡ read m at size

pub unpack_slot-same :
    (m m' : Memory) (offset n : ℕ)
    → 48 ≤ n
    → SameBytes m m' offset n
    → unpack_slot m' offset ≡ unpack_slot m offset
unfolding unpack_slot
unpack_slot-same m m' offset n h same = simp (
  same (offset + 0) 8 (omega arith) (omega arith),
  same (offset + 8) 8 (omega arith) (omega arith),
  same (offset + 16) 8 (omega arith) (omega arith),
  same (offset + 24) 4 (omega arith) (omega arith),
  same (offset + 28) 4 (omega arith) (omega arith),
  same (offset + 32) 4 (omega arith) (omega arith),
  same (offset + 36) 4 (omega arith) (omega arith),
  same (offset + 40) 8 (omega arith) (omega arith),
)

is_consistent-size :
    (r : Reader) (expected : ℕ) (h : SlotHeader)
    → is_consistent r expected h ≡ true
    → h.payload_size ≤ r.slot_size - slot_header_size
unfolding is_consistent
is_consistent-size r expected h e = ground arith

-- Where the bytes of a slot stay, so does what a reader copies of it.
pub copy_slot-same :
    (r : Reader) (m m' : Memory) (expected : ℕ)
    → slot_header_size ≤ r.slot_size
    → SameBytes m m' (slot_offset r.slot_count r.slot_size expected) r.slot_size
    → copy_slot r m' expected ≡ copy_slot r m expected
unfolding copy_slot
copy_slot-same r m m' expected room same =
    let offset : ℕ = slot_offset r.slot_count r.slot_size expected in
    let slot : unpack_slot m' offset ≡ unpack_slot m offset =
      unpack_slot-same m m' offset r.slot_size (omega arith) same in
    elim (Bool-cases (is_consistent r expected (unpack_slot m offset))) [
      | inl good ↦ rw (
        slot,
        same (offset + slot_header_size) (unpack_slot m offset).payload_size (omega arith)
            (omega (arith, is_consistent-size r expected (unpack_slot m offset) good)),
      )
      | inr bad ↦ rw (slot, bad)
    ]

module _ (r : Reader) (m : Memory) (expected : ℕ) (h : SlotHeader) where
  pub copy_slot-consistent :
      (payload : Bytes)
      → unpack_slot m (slot_offset r.slot_count r.slot_size expected) ≡ h
      → 1 ≤ expected
      → slot_offset r.slot_count r.slot_size expected + 48 ≤ r.size
      → is_consistent r expected h ≡ true
      → read m (slot_offset r.slot_count r.slot_size expected + slot_header_size) h.payload_size
        ≡ payload
      → copy_slot r m expected ≡ some (h, payload)
  unfolding copy_slot
  copy_slot-consistent payload unpacked positive room good copied =
      let nonzero : (expected == 0) ≡ false = ground arith in
      let inside : ltb r.size (slot_offset r.slot_count r.slot_size expected + 48) ≡ false =
        ground arith in
      rw (copy_slot, nonzero, inside, unpacked, good, copied)

  pub copy_slot-inconsistent :
      unpack_slot m (slot_offset r.slot_count r.slot_size expected) ≡ h
      → is_consistent r expected h ≡ false
      → copy_slot r m expected ≡ none
  unfolding copy_slot
  copy_slot-inconsistent unpacked bad = rw (unpacked, bad) (ground arith)

-- A header with another number in it is not accepted.
pub not-is_consistent :
    (r : Reader) (expected : ℕ) (h : SlotHeader)
    → h.sequence ≢ expected
    → is_consistent r expected h ≡ false
unfolding is_consistent
not-is_consistent r expected h differs = ground (arith, ==_iff h.sequence expected)
