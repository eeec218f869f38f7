-- ===== src/Ring/Reader.antt =====
-- `RingReader` of ring.py. The shared file lock makes the copy of a slot one step; what is parsed
-- outside the lock is the copy.
use kilix_telemetry.Common.{
  ℕ, zero, suc, ◌+◌, ◌-◌, ◌*◌, ◌/◌, ◌%◌, ℤ, pos, ◌-ℤ◌, ◌==ℤ◌, ltb_ℤ, leb_ℤ, min_ℤ, max_ℤ, pos_part,
  Bool, true, false, not, ◌&&◌, ◌||◌, ◌==◌, ltb, leb, Option, none, some, List, [], ◌∷◌, map,
  length, Result, ok, err, value_error, type_error, ring_unavailable, ◌>>=◌, ◌>>◌, traverse,
  if◌then◌else◌,
}
use mathlib.Core.List.{reverse}
use kilix_telemetry.Bytes.{Bytes, Memory, read}
use kilix_telemetry.Values.{Python, dict}
use kilix_telemetry.Model.{Snapshot}
use kilix_telemetry.Model.FromDict.{from_dict}
use kilix_telemetry.Ring.{
  Codec, RingHeader, SlotHeader, ring_magic, ring_api_major, ring_header_size, slot_header_size,
  max_slot_size, slot_parameters, slot_offset, unpack_header, unpack_slot,
}
use kilix_telemetry.Ring.Writer.{checksum_of}

pub record Reader : Type 0 where
  pub size : ℕ
  pub slot_count : ℕ
  pub slot_size : ℕ

abbrev same_bytes : Bytes → Bytes → Bool
same_bytes [] [] = true
same_bytes (x ∷ xs) (y ∷ ys) = x == y && same_bytes xs ys
same_bytes _ _ = false

unfoldable pub require : Bool → Result (Unit {0})
require true = ok tt
require false = err ring_unavailable

-- `_header`: the checks of the ring header against the size of the mapping, and then
-- `(latest, slot_count, slot_size, heartbeat)`. A mapping of at least 4096 bytes has room for it.
unfoldable pub header : ℕ → Memory → Result RingHeader
unfolding require
header size m =
    let h = unpack_header m in
    do
      require (same_bytes h.magic ring_magic && h.major == ring_api_major)
      require (h.header_size == ring_header_size)
      parameters ← slot_parameters (pos h.slot_count) (pos h.slot_size)
      require (ring_header_size + h.slot_count * h.slot_size == size)
      ok h

-- `__init__` on an open file.
unfoldable pub open_reader : ℕ → Memory → Result Reader
unfolding require
open_reader size m = do
  require (leb ring_header_size size)
  h ← header size m
  ok (record { size = size; slot_count = h.slot_count; slot_size = h.slot_size })

-- The tests of `_copy_slot`. `flags & ~FLAG_ZLIB` is nonzero if a bit above the lowest is set.
unfoldable pub is_consistent : Reader → ℕ → SlotHeader → Bool
is_consistent r expected h = not (
    not (h.sequence == expected)
    || not (h.tail_sequence == expected)
    || h.payload_size == 0
    || ltb (r.slot_size - slot_header_size) h.payload_size
    || h.raw_size == 0
    || ltb (16 * max_slot_size) h.raw_size
    || not (h.flags / 2 == 0))

-- `_copy_slot`
unfoldable pub copy_slot : Reader → Memory → ℕ → Option (SlotHeader × Bytes)
copy_slot r m expected =
    let offset = slot_offset r.slot_count r.slot_size expected in
    let h = unpack_slot m offset in
    if expected == 0
    then none
    else if ltb r.size (offset + 48)
    then none
    else if is_consistent r expected h
    then some (h, read m (offset + slot_header_size) h.payload_size)
    else none

-- `range(latest, max(0, latest - requested), -1)`
unfoldable pub count_down : ℕ → ℕ → List ℕ
count_down zero requested = []
count_down (suc n) zero = []
count_down (suc n) (suc requested) = suc n ∷ count_down n requested

-- The elements that are not None.
abbrev pub somes {ℓ} : {A : Type ℓ} → List (Option A) → List A
somes [] = []
somes (none ∷ rest) = somes rest
somes (some a ∷ rest) = a ∷ somes rest

-- `self.slot_count if limit is None else max(0, min(self.slot_count, int(limit)))`
unfoldable pub requested_of : Reader → Option ℤ → ℕ
requested_of r none = r.slot_count
requested_of r (some limit) = pos_part (max_ℤ (pos 0) (min_ℤ (pos r.slot_count) limit))

module _ {F : Type 0} where
  -- `except (ValueError, TypeError, ...)`: no handler takes an OverflowError.
  unfoldable pub catch_decoding : Result (Snapshot F) → Result (Option (Snapshot F))
  catch_decoding (ok snapshot) = ok (some snapshot)
  catch_decoding (err value_error) = ok none
  catch_decoding (err type_error) = ok none
  catch_decoding (err e) = err e

  -- The last check of `_parse_slot`.
  unfoldable pub matches_header : SlotHeader → Snapshot F → Bool
  matches_header h snapshot =
      snapshot.sequence ==ℤ pos h.sequence
      && snapshot.monotonic_ns ==ℤ pos h.monotonic_ns
      && snapshot.wall_time_ns ==ℤ pos h.wall_time_ns

  unfoldable pub matching : SlotHeader → Option (Snapshot F) → Option (Snapshot F)
  matching h none = none
  matching h (some snapshot) = if matches_header h snapshot then some snapshot else none

  -- The age test of `latest`; `max_age_ns` is `int(max_age * 1_000_000_000)`.
  unfoldable pub is_fresh : ℤ → ℤ → Snapshot F → Bool
  is_fresh now max_age_ns snapshot =
      let age_ns = now -ℤ snapshot.monotonic_ns in
      not (ltb_ℤ age_ns (pos 0) || ltb_ℤ max_age_ns age_ns)

  unfoldable pub fresh_only : ℤ → Option ℤ → Option (Snapshot F) → Option (Snapshot F)
  fresh_only now max_age_ns none = none
  fresh_only now none (some snapshot) = some snapshot
  fresh_only now (some max_age_ns) (some snapshot) =
      if is_fresh now max_age_ns snapshot then some snapshot else none

  -- The samples not older than the cutoff, where an age limit is given.
  unfoldable pub not_before : ℤ → List (Snapshot F) → List (Snapshot F)
  not_before cutoff [] = []
  not_before cutoff (sample ∷ rest) =
      let kept = not_before cutoff rest in
      if leb_ℤ cutoff sample.monotonic_ns then sample ∷ kept else kept

  unfoldable pub recent : ℤ → Option ℤ → List (Snapshot F) → List (Snapshot F)
  recent now none found = found
  recent now (some max_age_ns) found = not_before (now -ℤ max_age_ns) found

module _ {F : Type 0} (codec : Codec F) where
  -- `zlib.decompress(payload) if flags & FLAG_ZLIB else payload`
  unfoldable pub raw_of : SlotHeader → Bytes → Option Bytes
  raw_of h payload = if h.flags % 2 == 1 then codec.decompress payload else some payload

module _ {F : Type 0} (codec : Codec F) (py : Python F) where
  unfoldable pub decode : Bytes → Result (Option (Snapshot F))
  decode raw = elim (codec.loads raw) [
    | some (dict fields) ↦ catch_decoding (from_dict py fields)
    | _ ↦ ok none
  ]

  unfoldable pub decode_sized : SlotHeader → Option Bytes → Result (Option (Snapshot F))
  decode_sized h none = ok none
  decode_sized h (some raw) =
      if not (length raw == h.raw_size)
      then ok none
      else do decoded ← decode raw; ok (matching h decoded)

  -- `_parse_slot`
  unfoldable pub parse_slot : SlotHeader × Bytes → Result (Option (Snapshot F))
  parse_slot (h, payload) =
      if not (checksum_of codec payload == h.checksum)
      then ok none
      else decode_sized h (raw_of codec h payload)

  unfoldable pub parse_copy : Option (SlotHeader × Bytes) → Result (Option (Snapshot F))
  parse_copy none = ok none
  parse_copy (some copied) = parse_slot copied

  -- `latest`
  unfoldable pub latest : Reader → Memory → ℤ → Option ℤ → Result (Option (Snapshot F))
  latest r m now max_age_ns = do
    h ← header r.size m
    parsed ← parse_copy (copy_slot r m h.latest)
    ok (fresh_only now max_age_ns parsed)

  -- `history`
  unfoldable pub history : Reader → Memory → Option ℤ → ℤ → Option ℤ → Result (List (Snapshot F))
  history r m limit now max_age_ns = do
    h ← header r.size m
    parsed ←
        traverse parse_slot
          (somes (map (copy_slot r m) (count_down h.latest (requested_of r limit))))
    ok (recent now max_age_ns (reverse (somes parsed)))
