-- ===== src/Ring/Writer.antt =====
-- `RingWriter` of ring.py. The exclusive file lock makes each method one step for the readers, so a
-- method is a function on the mapped bytes. An exception leaves behind what was written before it.
use kilix_telemetry.Common.{
  ℕ, ◌+◌, ◌-◌, ◌*◌, ℤ, pos, pos_part, max_ℤ, ◌==◌, List, [], ◌∷◌, length, replicate, ◌%◌, ◌^◌,
  Result, ok, err, value_error, ltb, ◌>>=◌, if◌then◌else◌,
}
use kilix_telemetry.Bytes.{Bytes, Memory, write, pack_into}
use kilix_telemetry.Values.{Python}
use kilix_telemetry.Model.{Snapshot}
use kilix_telemetry.Ring.{
  Codec, ring_magic, ring_api_major, ring_api_minor, ring_header_size, slot_header_size,
  slot_parameters, slot_offset,
}
use kilix_telemetry.Ring.Fit.{Packed, fit}

-- The ring file: its size and its bytes.
pub record RingFile : Type 0 where
  pub size : ℕ
  pub memory : Memory

-- The writer with the file that it maps, whose size `os.fstat` gives to a reader.
pub record Writer : Type 0 where
  pub slot_count : ℕ
  pub slot_size : ℕ
  pub pid : ℕ
  pub started_ns : ℤ
  pub file_size : ℕ
  pub memory : Memory

-- The integers of `_HEADER`, behind the magic text.
unfoldable pub header_fields : Writer → ℤ → ℤ → List (ℕ × ℤ)
header_fields w latest heartbeat =
    (4, pos ring_api_major)
    ∷ (4, pos ring_api_minor)
    ∷ (4, pos ring_header_size)
    ∷ (4, pos w.slot_count)
    ∷ (4, pos w.slot_size)
    ∷ (8, latest)
    ∷ (8, pos w.pid)
    ∷ (8, w.started_ns)
    ∷ (8, heartbeat)
    ∷ []

unfoldable pub pack_header : Writer → ℤ → ℤ → Writer × Result (Unit {0})
pack_header w latest heartbeat =
    let (memory, result) = pack_into w.memory 0 ring_magic (header_fields w latest heartbeat) in
    (record w { memory = memory }, result)

-- `_write_header`
unfoldable pub write_header : Writer → ℤ → ℤ → Writer × Result (Unit {0})
write_header w latest heartbeat = pack_header w (max_ℤ (pos 0) latest) (max_ℤ (pos 0) heartbeat)

-- `_replace_ring` puts a new file of zeros beside the old one and renames it over the path.
unfoldable pub replaced_ring : ℕ → RingFile → RingFile
replaced_ring size file =
    if file.size == size then file else record { size = size; memory = λ i. 0 }

-- The end of `__init__`, on a mapping.
unfoldable pub mapped_writer : RingFile → ℕ × ℕ → ℕ → ℤ → Writer × Result (Unit {0})
mapped_writer ring (slot_count, slot_size) pid now =
    write_header
      (record {
        slot_count = slot_count;
        slot_size = slot_size;
        pid = pid;
        started_ns = now;
        file_size = ring.size;
        memory = ring.memory;
      })
      (pos 0) now

-- `__init__`, from checked slot parameters on: `mmap.mmap` raises a ValueError where the file is
-- shorter than what is to be mapped.
unfoldable pub start_writer : RingFile → ℕ × ℕ → ℕ → ℤ → Result (Writer × Result (Unit {0}))
start_writer file (slot_count, slot_size) pid now =
    let size = ring_header_size + slot_count * slot_size in
    let ring = replaced_ring size file in
    if ltb ring.size size
    then err value_error
    else ok (mapped_writer ring (slot_count, slot_size) pid now)

unfoldable pub open_writer : RingFile → ℤ → ℤ → ℕ → ℤ → Result (Writer × Result (Unit {0}))
open_writer file slot_count slot_size pid now = do
  parameters ← slot_parameters slot_count slot_size
  start_writer file parameters pid now

-- The values of `_SLOT` that `publish` packs behind the payload.
unfoldable pub slot_fields : ℤ → ℤ → ℤ → Packed → ℕ → List (ℕ × ℤ)
slot_fields sequence monotonic_ns wall_time_ns packed checksum =
    (8, sequence)
    ∷ (8, monotonic_ns)
    ∷ (8, wall_time_ns)
    ∷ (4, pos packed.flags)
    ∷ (4, pos (length packed.payload))
    ∷ (4, pos packed.raw_size)
    ∷ (4, pos checksum)
    ∷ (8, sequence)
    ∷ []

module _ {F : Type 0} (codec : Codec F) where
  -- `zlib.crc32(payload) & 0xFFFFFFFF`
  unfoldable pub checksum_of : Bytes → ℕ
  checksum_of payload = codec.crc32 payload % 2 ^ 32

  -- The slot's bytes in the locked part of `publish`: the old header is cleared, the payload
  -- written, then the header packed.
  unfoldable pub fill_slot : Writer → Snapshot F → Packed → ℤ → Memory × Result (Unit {0})
  fill_slot w snapshot packed sequence =
      let offset = slot_offset w.slot_count w.slot_size (pos_part sequence) in
      let cleared = write w.memory offset (replicate 48 0) in
      let filled = write cleared (offset + slot_header_size) packed.payload in
      pack_into filled offset [] (
        slot_fields sequence snapshot.monotonic_ns snapshot.wall_time_ns packed
          (checksum_of packed.payload))

  -- Its end: an exception of the packing leaves, otherwise the ring header is written.
  unfoldable pub finish_slot :
      Writer → ℤ → Snapshot F → ℤ → Memory × Result (Unit {0}) → Writer × Result (Unit {0})
  finish_slot w now snapshot sequence (memory, err e) = (record w { memory = memory }, err e)
  finish_slot w now snapshot sequence (memory, ok done) =
      write_header (record w { memory = memory }) sequence (max_ℤ now snapshot.monotonic_ns)

  unfoldable pub store : Writer → ℤ → Snapshot F → Packed → ℤ → Writer × Result (Unit {0})
  store w now snapshot packed sequence =
      finish_slot w now snapshot sequence (fill_slot w snapshot packed sequence)

  -- `publish`, with the monotonic clock's reading inside it.
  unfoldable pub publish : Python F → Writer → ℤ → Snapshot F → Writer × Result (Unit {0})
  publish py w now snapshot = elim (fit py codec snapshot (w.slot_size - slot_header_size)) [
    | err e ↦ (w, err e)
    | ok packed ↦ store w now snapshot packed (max_ℤ (pos 1) snapshot.sequence)
  ]
