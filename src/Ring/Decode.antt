-- ===== src/Ring/Decode.antt =====
-- `_parse_slot` on what `_encode` packed.
use kilix_telemetry.Common.{
  ◌≤◌, pos, ==ℤ_refl, ◌≡◌, sym, ◌∙◌, inl, inr, true, ◌==◌, ==_iff, ltb, Bool-cases, some, ok, arith,
  length,
}
use kilix_telemetry.Bytes.{Bytes}
use kilix_telemetry.Values.{Python, dict}
use kilix_telemetry.Json.{dumps}
use kilix_telemetry.Model.{Snapshot}
use kilix_telemetry.Model.ToDict.{to_dict}
use kilix_telemetry.Model.Records.{IsWireRecord}
use kilix_telemetry.Model.RoundTrip.{from_dict-to_dict}
use kilix_telemetry.Ring.{Codec, CodecLaws, ReadsBack, SlotHeader}
use kilix_telemetry.Ring.Fit.{Packed, pack, encode}
use kilix_telemetry.Ring.Writer.{checksum_of}
use kilix_telemetry.Ring.Reader.{
  raw_of, catch_decoding, decode, matches_header, matching, decode_sized, parse_slot,
}

-- The slot header of a packed record.
pub record IsHeaderOf {F : Type 0} (codec : Codec F) (packed : Packed) (snapshot : Snapshot F)
    (h : SlotHeader) : Type 0 where
  pub sequence : snapshot.sequence ≡ pos h.sequence
  pub monotonic_ns : snapshot.monotonic_ns ≡ pos h.monotonic_ns
  pub wall_time_ns : snapshot.wall_time_ns ≡ pos h.wall_time_ns
  pub flags : h.flags ≡ packed.flags
  pub raw_size : h.raw_size ≡ packed.raw_size
  pub checksum : h.checksum ≡ checksum_of codec packed.payload

module _ {F : Type 0} (codec : Codec F) (laws : CodecLaws codec) where
  raw_of-pack :
      (raw : Bytes) (h : SlotHeader)
      → h.flags ≡ (pack codec raw).flags
      → raw_of codec h (pack codec raw).payload ≡ some raw
  unfolding raw_of pack
  raw_of-pack raw h e = elim (Bool-cases (ltb (length (codec.compress raw)) (length raw))) [
    | inl shorter ↦ ground (arith, laws.decompress-compress raw)
    | inr longer ↦ ground arith
  ]

  raw_size-pack : (raw : Bytes) → (pack codec raw).raw_size ≡ length raw
  unfolding pack
  raw_size-pack raw = ground arith

  pack_flags : (raw : Bytes) → (pack codec raw).flags ≤ 1
  unfolding pack
  pack_flags raw = ground arith

  pub encode_flags : (snapshot : Snapshot F) → (encode codec snapshot).flags ≤ 1
  unfolding encode
  encode_flags snapshot = pack_flags (dumps codec.text (dict (to_dict snapshot)))

  pub encode_nonempty : (snapshot : Snapshot F) → 1 ≤ length (encode codec snapshot).payload
  unfolding encode pack dumps
  encode_nonempty snapshot =
      ground (arith, laws.compress-nonempty (dumps codec.text (dict (to_dict snapshot))))

  pub encode_raw_nonempty : (snapshot : Snapshot F) → 1 ≤ (encode codec snapshot).raw_size
  unfolding encode pack dumps
  encode_raw_nonempty snapshot = ground arith

  module _ (py : Python F) where
    decode-dumps :
        (snapshot : Snapshot F)
        → IsWireRecord py snapshot
        → ReadsBack codec (dict (to_dict snapshot))
        → decode codec py (dumps codec.text (dict (to_dict snapshot))) ≡ ok (some snapshot)
    unfolding decode catch_decoding
    decode-dumps snapshot valid readable =
        rw (decode, readable, from_dict-to_dict py snapshot valid)

    matching-header :
        (packed : Packed) (snapshot : Snapshot F) (h : SlotHeader)
        → IsHeaderOf codec packed snapshot h
        → matching h (some snapshot) ≡ some snapshot
    unfolding matching matches_header
    matching-header packed snapshot h m = rw (
      m.sequence,
      m.monotonic_ns,
      m.wall_time_ns,
      ==ℤ_refl (pos h.sequence),
      ==ℤ_refl (pos h.monotonic_ns),
      ==ℤ_refl (pos h.wall_time_ns),
    )

    -- A record within the limits that `_encode` packed is parsed, under a slot header of its
    -- numbers, flags, size and checksum, to the same snapshot.
    pub parse_slot-encode :
        (snapshot : Snapshot F) (h : SlotHeader)
        → IsWireRecord py snapshot
        → ReadsBack codec (dict (to_dict snapshot))
        → IsHeaderOf codec (encode codec snapshot) snapshot h
        → parse_slot codec py (h, (encode codec snapshot).payload) ≡ ok (some snapshot)
    unfolding parse_slot encode decode_sized
    parse_slot-encode snapshot h valid readable m =
        let raw : Bytes = dumps codec.text (dict (to_dict snapshot)) in
        let sum : (checksum_of codec (pack codec raw).payload == h.checksum) ≡ true =
          (==_iff _ h.checksum).1 (sym m.checksum) in
        let size : (length raw == h.raw_size) ≡ true =
          (==_iff (length raw) h.raw_size).1 (sym (m.raw_size ∙ raw_size-pack raw)) in
        rw (
          parse_slot,
          encode,
          decode_sized,
          sum,
          raw_of-pack raw h m.flags,
          size,
          decode-dumps snapshot valid readable,
          matching-header (encode codec snapshot) snapshot h m,
        )
