-- ===== src/Ring.antt =====
-- The telemetry ring of src/kilix_telemetry/ring.py: its constants, the stored headers and the
-- library routines that it calls. `Fit` chooses the payload of a record, `Writer` and `Reader` are
-- the two sides of the mapping.
pub mod Fit
pub mod Writer
pub mod Reader
pub mod Geometry
pub mod Stored
pub mod Header
pub mod Publish
pub mod Decode
pub mod Log
pub mod Ages
pub mod History
pub mod Runs
use kilix_telemetry.Common.{
  ℕ, ◌+◌, ◌-◌, ◌*◌, ◌≤◌, ℤ, pos, negsuc, pos_part, ltb_ℤ, leb_ℤ, Bool, not, ◌&&◌, ◌||◌, ◌%◌, ◌≡◌,
  Option, some, length, List, [], ◌∷◌, Result, ok, err, value_error, ◌>>◌, if◌then◌else◌,
}
use kilix_telemetry.Bytes.{Bytes, Memory, read, le_value}
use kilix_telemetry.Values.{Value}
use kilix_telemetry.Json.{JsonText, ascii, dumps}

-- `RING_MAGIC`
abbrev pub ring_magic : Bytes
ring_magic =
    b'K' ∷ b'I' ∷ b'L' ∷ b'I' ∷ b'X' ∷ b'T' ∷ b'E' ∷ b'L' ∷ b'E' ∷ b'M' ∷ b'E' ∷ b'T' ∷ b'R' ∷ b'Y'
    ∷ 0 ∷ 0 ∷ []

abbrev pub ring_api_major : ℕ
ring_api_major = 1

abbrev pub ring_api_minor : ℕ
ring_api_minor = 1

abbrev pub ring_header_size : ℕ
ring_header_size = 4096

abbrev pub min_slot_size : ℕ
min_slot_size = 64 * 1024

abbrev pub max_slot_size : ℕ
max_slot_size = 4 * 1024 * 1024

abbrev pub max_slot_count : ℕ
max_slot_count = 256

abbrev pub flag_zlib : ℕ
flag_zlib = 1

abbrev pub slot_header_size : ℕ
slot_header_size = 64

-- The standard library's routines: `zlib.compress` at level 1, `zlib.decompress` with zlib.error as
-- `none`, `zlib.crc32`, and `json.loads` with ValueError as `none`; `is_decode_error` tells whether
-- that is a UnicodeDecodeError or a JSONDecodeError.
pub record Codec (F : Type 0) : Type 0 where
  pub text : JsonText F
  pub compress : Bytes → Bytes
  pub decompress : Bytes → Option Bytes
  pub crc32 : Bytes → ℕ
  pub loads : Bytes → Option (Value F)
  pub is_decode_error : Bytes → Bool

-- Their documented round trips; a zlib stream has a header, so it is never empty.
pub record CodecLaws {F : Type 0} (codec : Codec F) : Type 0 where
  pub decompress-compress : (raw : Bytes) → codec.decompress (codec.compress raw) ≡ some raw
  pub compress-nonempty : (raw : Bytes) → 1 ≤ length (codec.compress raw)

-- `json.loads` reads back what `json.dumps` wrote for this value.
abbrev pub ReadsBack : {F : Type 0} → Codec F → Value F → Type 0
ReadsBack codec value = codec.loads (dumps codec.text value) ≡ some value

-- `_slot_parameters`
unfoldable pub slot_parameters : ℤ → ℤ → Result (ℕ × ℕ)
slot_parameters slot_count slot_size =
    if not (leb_ℤ (pos 2) slot_count && leb_ℤ slot_count (pos max_slot_count))
    then err value_error
    else if not (leb_ℤ (pos min_slot_size) slot_size && leb_ℤ slot_size (pos max_slot_size))
    then err value_error
    else ok (pos_part slot_count, pos_part slot_size)

-- The fields of `_HEADER`, "<16sIIIIIQQQQ".
pub record RingHeader : Type 0 where
  pub magic : Bytes
  pub major : ℕ
  pub minor : ℕ
  pub header_size : ℕ
  pub slot_count : ℕ
  pub slot_size : ℕ
  pub latest : ℕ
  pub writer_pid : ℕ
  pub started : ℕ
  pub heartbeat : ℕ

-- The fields of `_SLOT`, "<QQQIIIIQ".
pub record SlotHeader : Type 0 where
  pub sequence : ℕ
  pub monotonic_ns : ℕ
  pub wall_time_ns : ℕ
  pub flags : ℕ
  pub payload_size : ℕ
  pub raw_size : ℕ
  pub checksum : ℕ
  pub tail_sequence : ℕ

abbrev u32 : Memory → ℕ → ℕ
u32 m offset = le_value (read m offset 4)

abbrev u64 : Memory → ℕ → ℕ
u64 m offset = le_value (read m offset 8)

-- `_HEADER.unpack_from(mapping, 0)`
unfoldable pub unpack_header : Memory → RingHeader
unpack_header m = record {
  magic = read m 0 16;
  major = u32 m 16;
  minor = u32 m 20;
  header_size = u32 m 24;
  slot_count = u32 m 28;
  slot_size = u32 m 32;
  latest = u64 m 36;
  writer_pid = u64 m 44;
  started = u64 m 52;
  heartbeat = u64 m 60;
}

-- `_SLOT.unpack_from(mapping, offset)`
unfoldable pub unpack_slot : Memory → ℕ → SlotHeader
unpack_slot m offset = record {
  sequence = u64 m (offset + 0);
  monotonic_ns = u64 m (offset + 8);
  wall_time_ns = u64 m (offset + 16);
  flags = u32 m (offset + 24);
  payload_size = u32 m (offset + 28);
  raw_size = u32 m (offset + 32);
  checksum = u32 m (offset + 36);
  tail_sequence = u64 m (offset + 40);
}

-- `HEADER_SIZE + ((sequence - 1) % slot_count) * slot_size`, for a positive sequence.
unfoldable pub slot_offset : ℕ → ℕ → ℕ → ℕ
slot_offset slot_count slot_size sequence =
    ring_header_size + (sequence - 1) % slot_count * slot_size
