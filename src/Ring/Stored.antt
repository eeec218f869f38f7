-- ===== src/Ring/Stored.antt =====
-- What `publish` leaves in the mapping once a payload is chosen.
use kilix_telemetry.Common.{
  ℕ, ◌+◌, ◌-◌, ◌*◌, ◌≤◌, ◌<◌, ℤ, pos, pos_part, negsuc, max_ℤ, max_ℤ-of_IsNonneg, IsNonneg, ◌≡◌,
  refl, ap, ◌∙◌, inr, true, ok, List, [], ◌++◌, arith, length, length-append, replicate, take, drop,
}
use mathlib.Core.Path.{ap₂}
use kilix_telemetry.Bytes.{
  Bytes, Memory, write, read, le_bytes, le_value, fits_field, read-write_outside, read-write,
}
use kilix_telemetry.Bytes.Fields.{
  AllFit, bytes_of, pack_into-AllFit, length-bytes_of, value-write_inside,
}
use kilix_telemetry.Model.{Snapshot}
use kilix_telemetry.Ring.{
  Codec, SlotHeader, RingHeader, ring_magic, ring_api_major, ring_api_minor, ring_header_size,
  slot_header_size, max_slot_size, slot_offset, unpack_slot,
}
use kilix_telemetry.Ring.Geometry.{header-le-slot_offset}
use kilix_telemetry.Ring.Fit.{Packed}
use kilix_telemetry.Ring.Writer.{
  Writer, header_fields, pack_header, write_header, slot_fields, checksum_of, fill_slot,
  finish_slot, store,
}

-- The ring header that a writer stores.
abbrev pub header_of : Writer → ℕ → ℕ → ℕ → RingHeader
header_of w started latest heartbeat = record {
  magic = ring_magic;
  major = ring_api_major;
  minor = ring_api_minor;
  header_size = ring_header_size;
  slot_count = w.slot_count;
  slot_size = w.slot_size;
  latest = latest;
  writer_pid = w.pid;
  started = started;
  heartbeat = heartbeat;
}

-- What the constructor of the writer checks and the operating system gives.
pub record IsWriter (w : Writer) : Type 0 where
  pub count_low : 2 ≤ w.slot_count
  pub count_high : w.slot_count ≤ 256
  pub size_low : 65536 ≤ w.slot_size
  pub size_high : w.slot_size ≤ 4194304
  pub pid : fits_field 8 (pos w.pid) ≡ true
  pub started : fits_field 8 w.started_ns ≡ true
  pub whole : w.file_size ≡ ring_header_size + w.slot_count * w.slot_size

pub small : (n : ℕ) → n ≤ 4194304 → fits_field 4 (pos n) ≡ true
small n h = ground arith

fits-IsNonneg : (w : ℕ) (z : ℤ) → fits_field w z ≡ true → IsNonneg z
fits-IsNonneg w (pos n) h = omega arith
fits-IsNonneg w (negsuc n) h = absurd (cc)

clamped : (w : ℕ) (z : ℤ) → fits_field w z ≡ true → max_ℤ (pos 0) z ≡ z
clamped w z h = max_ℤ-of_IsNonneg z (fits-IsNonneg w z h)

pub fits_part : (z : ℤ) → fits_field 8 z ≡ true → fits_field 8 (pos (pos_part z)) ≡ true
fits_part (pos n) e = e
fits_part (negsuc n) e = absurd (cc)

module _ (w : Writer) (latest heartbeat : ℤ) where
  pub length-header : length (ring_magic ++ bytes_of (header_fields w latest heartbeat)) ≡ 68
  unfolding header_fields
  length-header = omega (
    arith,
    length-append ring_magic (bytes_of (header_fields w latest heartbeat)),
    length-bytes_of (header_fields w latest heartbeat),
  )

module _ (w : Writer) (v : IsWriter w) (latest heartbeat : ℤ) where
  header_fields-AllFit :
      fits_field 8 latest ≡ true
      → fits_field 8 heartbeat ≡ true
      → AllFit (header_fields w latest heartbeat)
  unfolding header_fields
  header_fields-AllFit l h = (
    refl,
    (
      refl,
      (
        refl,
        (
          small w.slot_count (omega (arith, v.count_high)),
          (small w.slot_size v.size_high, (l, (v.pid, (v.started, (h, tt))))),
        ),
      ),
    ),
  )

  -- With its arguments in range the ring header is written whole.
  pub write_header-eq :
      fits_field 8 latest ≡ true
      → fits_field 8 heartbeat ≡ true
      → write_header w latest heartbeat ≡ (
        record w {
          memory = write w.memory 0 (ring_magic ++ bytes_of (header_fields w latest heartbeat));
        },
        ok tt,
      )
  unfolding write_header pack_header
  write_header-eq l h =
      ap₂ (pack_header w) (clamped 8 latest l) (clamped 8 heartbeat h)
      ∙ rw (
        pack_header,
        pack_into-AllFit w.memory 0 ring_magic (header_fields w latest heartbeat)
            (header_fields-AllFit l h),
      )

-- The bytes of a slot, cleared, filled and then headed.
abbrev pub slot_memory : Memory → ℕ → Bytes → List (ℕ × ℤ) → Memory
slot_memory m offset payload fields =
    write (write (write m offset (replicate 48 0)) (offset + slot_header_size) payload) offset
      (bytes_of fields)

-- What a snapshot and its payload must be for `publish` to store them under the number `s` so that
-- readers accept them: numbers in the range of their fields, and a payload that is not empty and fits.
pub record IsStorable {F : Type 0} (w : Writer) (now : ℤ) (snapshot : Snapshot F) (packed : Packed)
    (s : ℕ) : Type 0 where
  pub positive : 1 ≤ s
  pub sequence : fits_field 8 (pos s) ≡ true
  pub monotonic_ns : fits_field 8 snapshot.monotonic_ns ≡ true
  pub wall_time_ns : fits_field 8 snapshot.wall_time_ns ≡ true
  pub heartbeat : fits_field 8 (max_ℤ now snapshot.monotonic_ns) ≡ true
  pub flags : packed.flags ≤ 1
  pub payload_low : 1 ≤ length packed.payload
  pub payload_high : length packed.payload ≤ w.slot_size - slot_header_size
  pub raw_low : 1 ≤ packed.raw_size
  pub raw_high : packed.raw_size ≤ 16 * max_slot_size

module _ {F : Type 0} (codec : Codec F) (w : Writer) (now : ℤ) (snapshot : Snapshot F)
    (packed : Packed) (s : ℕ) where
  abbrev pub offset_of : ℕ
  offset_of = slot_offset w.slot_count w.slot_size s

  abbrev pub fields_of_slot : List (ℕ × ℤ)
  fields_of_slot =
      slot_fields (pos s) snapshot.monotonic_ns snapshot.wall_time_ns packed
        (checksum_of codec packed.payload)

  -- The writer with the slot stored and the ring header still old.
  abbrev pub filled : Writer
  filled = record w { memory = slot_memory w.memory offset_of packed.payload fields_of_slot }

  abbrev pub ring_fields : List (ℕ × ℤ)
  ring_fields = header_fields filled (pos s) (max_ℤ now snapshot.monotonic_ns)

  abbrev pub stored_memory : Memory
  stored_memory = write filled.memory 0 (ring_magic ++ bytes_of ring_fields)

  -- The slot header that `publish` stores.
  abbrev pub stored_header : SlotHeader
  stored_header = record {
    sequence = s;
    monotonic_ns = pos_part snapshot.monotonic_ns;
    wall_time_ns = pos_part snapshot.wall_time_ns;
    flags = packed.flags;
    payload_size = length packed.payload;
    raw_size = packed.raw_size;
    checksum = checksum_of codec packed.payload;
    tail_sequence = s;
  }

  module _ (v : IsWriter w) (h : IsStorable w now snapshot packed s) where
    word : (n : ℕ) → n < 4294967296 → fits_field 4 (pos n) ≡ true
    word n l = ground arith

    checksum-lt : checksum_of codec packed.payload < 4294967296
    unfolding checksum_of
    checksum-lt = omega arith

    fields_of_slot-AllFit : AllFit fields_of_slot
    unfolding slot_fields
    fields_of_slot-AllFit = (
      h.sequence,
      (
        h.monotonic_ns,
        (
          h.wall_time_ns,
          (
            word packed.flags (omega arith),
            (
              word (length packed.payload) (omega arith),
              (
                word packed.raw_size (omega arith),
                (word (checksum_of codec packed.payload) checksum-lt, (h.sequence, tt)),
              ),
            ),
          ),
        ),
      ),
    )

    pub IsWriter-filled : IsWriter filled
    IsWriter-filled = record {
      count_low = v.count_low;
      count_high = v.count_high;
      size_low = v.size_low;
      size_high = v.size_high;
      pid = v.pid;
      started = v.started;
      whole = v.whole;
    }

    -- `publish` succeeds, and these are the bytes that it leaves.
    pub store-eq :
        store codec w now snapshot packed (pos s) ≡ (record w { memory = stored_memory }, ok tt)
    unfolding store fill_slot finish_slot
    store-eq =
        ap (finish_slot codec w now snapshot (pos s)) (
          pack_into-AllFit
            (write (write w.memory offset_of (replicate 48 0)) (offset_of + slot_header_size)
              packed.payload)
            offset_of [] fields_of_slot fields_of_slot-AllFit)
        ∙ write_header-eq filled IsWriter-filled (pos s) (max_ℤ now snapshot.monotonic_ns)
            h.sequence h.heartbeat

    pub length-fields : length (bytes_of fields_of_slot) ≡ 48
    unfolding slot_fields
    length-fields = omega (arith, length-bytes_of fields_of_slot)

    -- Behind the ring header the last write changes nothing.
    pub behind_header :
        (at n : ℕ) → ring_header_size ≤ at → read stored_memory at n ≡ read filled.memory at n
    behind_header at n l =
        read-write_outside filled.memory 0 (ring_magic ++ bytes_of ring_fields) at n
          (inr (omega (arith, length-header filled (pos s) (max_ℤ now snapshot.monotonic_ns))))

    inside_slot :
        (k n value : ℕ)
        → k + n ≤ 48
        → take n (drop k (bytes_of fields_of_slot)) ≡ le_bytes n value
        → fits_field n (pos value) ≡ true
        → le_value (read stored_memory (offset_of + k) n) ≡ value
    inside_slot k n value room at fits =
        rw
          (behind_header (offset_of + k) n
            (omega (arith, header-le-slot_offset w.slot_count w.slot_size s)))
          (value-write_inside
            (write (write w.memory offset_of (replicate 48 0)) (offset_of + slot_header_size)
              packed.payload)
            offset_of (bytes_of fields_of_slot) k n value (omega (arith, length-fields)) at fits)

    pub unpack_stored : unpack_slot stored_memory offset_of ≡ stored_header
    unfolding unpack_slot slot_fields bytes_of le_bytes
    unpack_stored = simp (
      inside_slot 0 8 s (omega arith) refl h.sequence,
      inside_slot 8 8 (pos_part snapshot.monotonic_ns) (omega arith) refl
          (fits_part snapshot.monotonic_ns h.monotonic_ns),
      inside_slot 16 8 (pos_part snapshot.wall_time_ns) (omega arith) refl
          (fits_part snapshot.wall_time_ns h.wall_time_ns),
      inside_slot 24 4 packed.flags (omega arith) refl (word packed.flags (omega (arith, h.flags))),
      inside_slot 28 4 (length packed.payload) (omega arith) refl
          (word (length packed.payload) (omega (arith, h.payload_high, v.size_high))),
      inside_slot 32 4 packed.raw_size (omega arith) refl
          (word packed.raw_size (omega (arith, h.raw_high))),
      inside_slot 36 4 (checksum_of codec packed.payload) (omega arith) refl
          (word (checksum_of codec packed.payload) checksum-lt),
      inside_slot 40 8 s (omega arith) refl h.sequence,
    )

    pub payload_stored :
        read stored_memory (offset_of + slot_header_size) (length packed.payload) ≡ packed.payload
    payload_stored =
        behind_header (offset_of + slot_header_size) (length packed.payload)
          (omega (arith, header-le-slot_offset w.slot_count w.slot_size s))
        ∙ read-write_outside
            (write (write w.memory offset_of (replicate 48 0)) (offset_of + slot_header_size)
              packed.payload)
            offset_of (bytes_of fields_of_slot) (offset_of + slot_header_size)
            (length packed.payload) (inr (omega (arith, length-fields)))
        ∙ read-write (write w.memory offset_of (replicate 48 0)) (offset_of + slot_header_size)
            packed.payload
