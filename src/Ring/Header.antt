-- ===== src/Ring/Header.antt =====
-- The ring header that a writer packs is the one that readers unpack and accept.
use kilix_telemetry.Common.{
  ℕ, ◌+◌, ◌*◌, ◌≤◌, ℤ, pos, pos_part, ◌≡◌, refl, sym, true, ◌==◌, ==_iff, ok, ◌++◌, arith, take,
  drop,
}
use kilix_telemetry.Bytes.{Bytes, write, read, le_bytes, le_value, fits_field, read-write_inside}
use kilix_telemetry.Bytes.Fields.{bytes_of, value-write_inside}
use kilix_telemetry.Ring.{
  RingHeader, ring_magic, ring_api_major, ring_api_minor, ring_header_size, slot_parameters,
  unpack_header,
}
use kilix_telemetry.Ring.Writer.{Writer, header_fields}
use kilix_telemetry.Ring.Reader.{Reader, header, require}
use kilix_telemetry.Ring.Stored.{IsWriter, header_of, length-header, small, fits_part}

-- A reader of a writer's file.
abbrev pub reader_of : Writer → Reader
reader_of w = record { size = w.file_size; slot_count = w.slot_count; slot_size = w.slot_size }

module _ (w : Writer) (v : IsWriter w) (latest heartbeat : ℤ) (l : fits_field 8 latest ≡ true)
    (h : fits_field 8 heartbeat ≡ true) where
  text : Bytes
  text = ring_magic ++ bytes_of (header_fields w latest heartbeat)

  inside :
      (k n value : ℕ)
      → k + n ≤ 68
      → take n (drop k text) ≡ le_bytes n value
      → fits_field n (pos value) ≡ true
      → le_value (read (write w.memory 0 text) (0 + k) n) ≡ value
  unfolding text
  inside k n value room at fits =
      value-write_inside w.memory 0 text k n value (omega (arith, length-header w latest heartbeat))
        at fits

  abbrev written_header : RingHeader
  written_header = header_of w (pos_part w.started_ns) (pos_part latest) (pos_part heartbeat)

  unpack_header-written : unpack_header (write w.memory 0 text) ≡ written_header
  unfolding unpack_header header_fields bytes_of le_bytes text
  unpack_header-written = simp (
    read-write_inside w.memory 0 text 0 16 (omega (arith, length-header w latest heartbeat)),
    inside 16 4 ring_api_major (omega arith) refl refl,
    inside 20 4 ring_api_minor (omega arith) refl refl,
    inside 24 4 ring_header_size (omega arith) refl refl,
    inside 28 4 w.slot_count (omega arith) refl (small w.slot_count (omega (arith, v.count_high))),
    inside 32 4 w.slot_size (omega arith) refl (small w.slot_size v.size_high),
    inside 36 8 (pos_part latest) (omega arith) refl (fits_part latest l),
    inside 44 8 w.pid (omega arith) refl v.pid,
    inside 52 8 (pos_part w.started_ns) (omega arith) refl (fits_part w.started_ns v.started),
    inside 60 8 (pos_part heartbeat) (omega arith) refl (fits_part heartbeat h),
  )

  slot_parameters-valid :
      slot_parameters (pos w.slot_count) (pos w.slot_size) ≡ ok (w.slot_count, w.slot_size)
  unfolding slot_parameters
  slot_parameters-valid = ground (arith, v.count_low, v.count_high, v.size_low, v.size_high)

  pub header-written :
      header
        (reader_of w).size
        (write w.memory 0 (ring_magic ++ bytes_of (header_fields w latest heartbeat)))
      ≡ ok written_header
  unfolding header require text
  header-written =
      let expected : ℕ = ring_header_size + w.slot_count * w.slot_size in
      let size : (expected == w.file_size) ≡ true = (==_iff expected w.file_size).1 (sym v.whole) in
      rw (header, unpack_header-written, slot_parameters-valid, size)
