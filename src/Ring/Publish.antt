-- ===== src/Ring/Publish.antt =====
-- What readers see of the slots and of the ring header once a record is stored.
use kilix_telemetry.Common.{
  ℕ, ◌+◌, ◌-◌, ◌%◌, ◌≤◌, ℤ, pos, pos_part, max_ℤ, ◌≡◌, ◌≢◌, sym, ap, Result, ◌∙◌, ◌⊎◌, true, none,
  some, ok, List, arith, replicate,
}
use kilix_telemetry.Bytes.{Memory, write, read, read-write_outside}
use kilix_telemetry.Bytes.Fields.{bytes_of}
use kilix_telemetry.Model.{Snapshot}
use kilix_telemetry.Ring.{Codec, RingHeader, ring_header_size, slot_header_size, slot_offset}
use kilix_telemetry.Ring.Geometry.{
  copy_slot-consistent, copy_slot-inconsistent, not-is_consistent, header-le-slot_offset,
  slot_offset_within, slot_offset_apart, copy_slot-same,
}
use kilix_telemetry.Ring.Fit.{Packed}
use kilix_telemetry.Ring.Writer.{Writer, store}
use kilix_telemetry.Ring.Reader.{header, is_consistent, copy_slot}
use kilix_telemetry.Ring.Header.{reader_of, header-written}
use kilix_telemetry.Ring.Stored.{
  IsWriter-filled, store-eq, IsWriter, IsStorable, header_of, offset_of, fields_of_slot, filled,
  stored_memory, stored_header, length-fields, behind_header, unpack_stored, payload_stored,
}

module _ {F : Type 0} (codec : Codec F) (w : Writer) (now : ℤ) (snapshot : Snapshot F)
    (packed : Packed) (s : ℕ) (v : IsWriter w) (h : IsStorable w now snapshot packed s) where
  abbrev pub stored : Memory
  stored = stored_memory codec w now snapshot packed s

  consistent : is_consistent (reader_of w) s (stored_header codec w now snapshot packed s) ≡ true
  unfolding is_consistent
  consistent = ground (arith, h.flags, h.payload_low, h.payload_high, h.raw_low, h.raw_high)

  pub copy_slot-stored_memory :
      copy_slot (reader_of w) stored s
      ≡ some (stored_header codec w now snapshot packed s, packed.payload)
  unfolding copy_slot
  copy_slot-stored_memory =
      copy_slot-consistent (reader_of w) stored s (stored_header codec w now snapshot packed s)
        packed.payload (unpack_stored codec w now snapshot packed s v h) h.positive
        (omega (
          arith,
          slot_offset_within w.slot_count w.slot_size s (omega (arith, v.count_low)),
          v.size_low,
        ))
        consistent (payload_stored codec w now snapshot packed s v h)

  -- Outside its slot and the ring header, `publish` changes no byte.
  untouched :
      (at n : ℕ)
      → ring_header_size ≤ at
      → (at + n ≤ offset_of codec w now snapshot packed s)
        ⊎ (offset_of codec w now snapshot packed s + w.slot_size ≤ at)
      → read stored at n ≡ read w.memory at n
  untouched at n low apart =
      let offset : ℕ = offset_of codec w now snapshot packed s in
      let fields : List (ℕ × ℤ) = fields_of_slot codec w now snapshot packed s in
      let cleared : Memory = write w.memory offset (replicate 48 0) in
      behind_header codec w now snapshot packed s v h at n low
      ∙ read-write_outside (write cleared (offset + slot_header_size) packed.payload) offset
          (bytes_of fields) at n
          (omega (arith, length-fields codec w now snapshot packed s v h, v.size_low, apart))
      ∙ read-write_outside cleared (offset + slot_header_size) packed.payload at n
          (omega (arith, h.payload_high, v.size_low, apart))
      ∙ read-write_outside w.memory offset (replicate 48 0) at n (omega (arith, v.size_low, apart))

  pub copy_slot-other_memory :
      (e : ℕ)
      → (e - 1) % w.slot_count ≢ (s - 1) % w.slot_count
      → copy_slot (reader_of w) stored e ≡ copy_slot (reader_of w) w.memory e
  copy_slot-other_memory e apart =
      copy_slot-same (reader_of w) w.memory stored e (omega (arith, v.size_low)) λ at n low high.
        untouched at n (omega (arith, header-le-slot_offset w.slot_count w.slot_size e))
          (omega (arith, slot_offset_apart w.slot_count w.slot_size e s apart))

  copy_slot-displaced_memory :
      (e : ℕ)
      → (e - 1) % w.slot_count ≡ (s - 1) % w.slot_count
      → e ≢ s
      → copy_slot (reader_of w) stored e ≡ none
  unfolding slot_offset
  copy_slot-displaced_memory e same differs =
      copy_slot-inconsistent (reader_of w) stored e (stored_header codec w now snapshot packed s)
        (rw same (unpack_stored codec w now snapshot packed s v h))
        (not-is_consistent (reader_of w) e (stored_header codec w now snapshot packed s)
          (λ q. differs (sym q)))

  abbrev pub new_header : RingHeader
  new_header = header_of w (pos_part w.started_ns) s (pos_part (max_ℤ now snapshot.monotonic_ns))

  -- The ring header names the stored record as the latest, and readers accept it.
  pub header-stored : header (reader_of w).size stored ≡ ok new_header
  header-stored =
      header-written (filled codec w now snapshot packed s)
        (IsWriter-filled codec w now snapshot packed s v h) (pos s)
        (max_ℤ now snapshot.monotonic_ns) h.sequence h.heartbeat

  -- The mapping that the locked part of `publish` leaves.
  abbrev pub after_store : Memory
  after_store = (store codec w now snapshot packed (pos s)).0.memory

  after_store-eq : after_store ≡ stored
  after_store-eq =
      ap (λ (r : Writer × Result (Unit {0})). r.0.memory)
        (store-eq codec w now snapshot packed s v h)

  -- For a writer of accepted parameters, where the numbers and the payload of a record fit, the
  -- locked part of `publish` returns, and behind it readers copy the header and the payload of
  -- the record under its number.
  pub copy_slot-stored :
      ((store codec w now snapshot packed (pos s)).1 ≡ ok tt)
      × (copy_slot (reader_of w) after_store s
          ≡ some (stored_header codec w now snapshot packed s, packed.payload))
  copy_slot-stored = (
    ap (λ (r : Writer × Result (Unit {0})). r.1) (store-eq codec w now snapshot packed s v h),
    ap (λ m. copy_slot (reader_of w) m s) after_store-eq ∙ copy_slot-stored_memory,
  )

  -- For a writer of accepted parameters, where the numbers and the payload of a record fit,
  -- storing it changes nothing of what readers copy from a slot with another index.
  pub copy_slot-other :
      (e : ℕ)
      → (e - 1) % w.slot_count ≢ (s - 1) % w.slot_count
      → copy_slot (reader_of w) after_store e ≡ copy_slot (reader_of w) w.memory e
  copy_slot-other e apart =
      ap (λ m. copy_slot (reader_of w) m e) after_store-eq ∙ copy_slot-other_memory e apart

  -- For a writer of accepted parameters, where the numbers and the payload of a record fit,
  -- readers copy nothing, once it is stored, under any other number of the same slot.
  pub copy_slot-displaced :
      (e : ℕ)
      → (e - 1) % w.slot_count ≡ (s - 1) % w.slot_count
      → e ≢ s
      → copy_slot (reader_of w) after_store e ≡ none
  copy_slot-displaced e same differs =
      ap (λ m. copy_slot (reader_of w) m e) after_store-eq
      ∙ copy_slot-displaced_memory e same differs
