-- ===== src/Ring/Log.antt =====
-- The ring against its abstract view: the list of the published snapshots, newest first, of which
-- readers get the last `slot_count`.
use kilix_telemetry.Common.{
  ℕ, zero, suc, ◌+◌, ◌-◌, ◌*◌, ◌%◌, ◌≤◌, ◌<◌, ℤ, pos, negsuc, pos_part, max_ℤ, ◌≡◌, ◌≢◌, refl, ap,
  subst, ◌∙◌, true, some, ok, List, [], ◌∷◌, arith, length, get_elem?,
}
use kilix_telemetry.Bytes.{Bytes, fits_field}
use kilix_telemetry.Values.{Python, dict}
use kilix_telemetry.Model.ToDict.{to_dict}
use kilix_telemetry.Model.{Snapshot}
use kilix_telemetry.Model.Records.{IsWireRecord}
use kilix_telemetry.Ring.{
  Codec, CodecLaws, ReadsBack, RingHeader, SlotHeader, slot_header_size, max_slot_size,
}
use kilix_telemetry.Ring.Fit.{Packed, encode, fit}
use kilix_telemetry.Ring.Writer.{Writer, store, publish}
use kilix_telemetry.Ring.Reader.{header, copy_slot, parse_slot}
use kilix_telemetry.Ring.Header.{reader_of}
use kilix_telemetry.Ring.Stored.{IsWriter, IsStorable, store-eq, stored_header, stored_memory}
use kilix_telemetry.Ring.Publish.{
  copy_slot-stored_memory, copy_slot-other_memory, new_header, header-stored,
}
use kilix_telemetry.Ring.Decode.{
  parse_slot-encode, encode_flags, encode_nonempty, encode_raw_nonempty,
}

mod_apart : (n a b : ℕ) → a < b → b < a + n → a % n ≢ b % n
mod_apart n a b h k e = grind arith

get_elem?-lt {ℓ} :
    {A : Type ℓ} (xs : List A) (i : ℕ) (x : A) → get_elem? xs i ≡ some x → i < length xs
get_elem?-lt [] i x e = cc
get_elem?-lt (y ∷ xs) zero x e = omega arith
get_elem?-lt (y ∷ xs) (suc i) x e = omega (arith, get_elem?-lt xs i x e)

-- `max(1, sequence)` of a positive sequence.
clamped_sequence : (s : ℕ) → 1 ≤ s → max_ℤ (pos 1) (pos s) ≡ pos s
clamped_sequence s h = ground arith

module _ {F : Type 0} (codec : Codec F) (py : Python F) where
  -- What readers of `w` get under the number `e` is the snapshot.
  abbrev pub Shows : Writer → ℕ → Snapshot F → Type 0
  Shows w e snapshot =
      (copied : SlotHeader × Bytes) × (copy_slot (reader_of w) w.memory e ≡ some copied)
      × (parse_slot codec py copied ≡ ok (some snapshot))

  -- The ring of `w` holds the newest `slot_count` snapshots of the log, under their numbers.
  pub record Holds (w : Writer) (log : List (Snapshot F)) : Type 0 where
    pub valid : IsWriter w
    pub heading :
        (h : RingHeader) × (header (reader_of w).size w.memory ≡ ok h)
        × (h.latest ≡ length log)
        × (h.slot_count ≡ w.slot_count)
        × (h.slot_size ≡ w.slot_size)
    pub slots :
        (i : ℕ) (snapshot : Snapshot F)
        → i < w.slot_count
        → get_elem? log i ≡ some snapshot
        → Shows w (length log - i) snapshot

  -- `publish` is called with the next number, and stores `kept`: the snapshot itself, or what is
  -- left of it to fit the slot.
  pub record IsNext (w : Writer) (now : ℤ) (snapshot kept : Snapshot F) (s : ℕ) : Type 0 where
    pub sequence : snapshot.sequence ≡ pos s
    pub chosen : fit py codec snapshot (w.slot_size - slot_header_size) ≡ ok (encode codec kept)
    pub room : length (encode codec kept).payload ≤ w.slot_size - slot_header_size
    pub kept_sequence : kept.sequence ≡ snapshot.sequence
    pub kept_monotonic_ns : kept.monotonic_ns ≡ snapshot.monotonic_ns
    pub kept_wall_time_ns : kept.wall_time_ns ≡ snapshot.wall_time_ns
    pub kept_valid : IsWireRecord py kept
    pub kept_readable : ReadsBack codec (dict (to_dict kept))
    pub sequence_fits : fits_field 8 (pos s) ≡ true
    pub monotonic_fits : fits_field 8 snapshot.monotonic_ns ≡ true
    pub wall_fits : fits_field 8 snapshot.wall_time_ns ≡ true
    pub now_fits : fits_field 8 (max_ℤ now snapshot.monotonic_ns) ≡ true
    pub raw_room : (encode codec kept).raw_size ≤ 16 * max_slot_size

module _ {F : Type 0} (codec : Codec F) (laws : CodecLaws codec) (py : Python F) (w : Writer)
    (now : ℤ) (snapshot kept : Snapshot F) where
  abbrev packed : Packed
  packed = encode codec kept

  abbrev after : ℕ → Writer
  after s = record w { memory = stored_memory codec w now snapshot packed s }

  IsWriter-after : (s : ℕ) → IsWriter w → IsWriter (after s)
  IsWriter-after s v = record {
    count_low = v.count_low;
    count_high = v.count_high;
    size_low = v.size_low;
    size_high = v.size_high;
    pid = v.pid;
    started = v.started;
    whole = v.whole;
  }

  module _ (s : ℕ) (positive : 1 ≤ s) (next : IsNext codec py w now snapshot kept s) where
    pub storable : IsStorable w now snapshot packed s
    storable = record {
      positive = positive;
      sequence = next.sequence_fits;
      monotonic_ns = next.monotonic_fits;
      wall_time_ns = next.wall_fits;
      heartbeat = next.now_fits;
      flags = encode_flags codec laws kept;
      payload_low = encode_nonempty codec laws kept;
      payload_high = next.room;
      raw_low = encode_raw_nonempty codec laws kept;
      raw_high = next.raw_room;
    }

    publish-eq : IsWriter w → publish codec py w now snapshot ≡ (after s, ok tt)
    unfolding publish
    publish-eq v =
        rw (publish, next.chosen)
          (ap (store codec w now snapshot (encode codec kept))
              (ap (max_ℤ (pos 1)) next.sequence ∙ clamped_sequence s positive)
            ∙ store-eq codec w now snapshot packed s v storable)

    part_eq : (z z' : ℤ) → fits_field 8 z ≡ true → z' ≡ z → z' ≡ pos (pos_part z)
    part_eq (pos n) z' h e = e
    part_eq (negsuc n) z' h e = absurd (cc)

    Shows-new : IsWriter w → Shows codec py (after s) s kept
    Shows-new v = (
      (stored_header codec w now snapshot packed s, packed.payload),
      copy_slot-stored_memory codec w now snapshot packed s v storable,
      parse_slot-encode codec laws py kept (stored_header codec w now snapshot packed s)
          next.kept_valid next.kept_readable
          (record {
            sequence = next.kept_sequence ∙ next.sequence;
            monotonic_ns =
                part_eq snapshot.monotonic_ns kept.monotonic_ns next.monotonic_fits
                  next.kept_monotonic_ns;
            wall_time_ns =
                part_eq snapshot.wall_time_ns kept.wall_time_ns next.wall_fits
                  next.kept_wall_time_ns;
            flags = refl;
            raw_size = refl;
            checksum = refl;
          }),
    )

    Shows-old :
        IsWriter w
        → (e : ℕ) (old : Snapshot F) → (e - 1) % w.slot_count ≢ (s - 1) % w.slot_count
        → Shows codec py w e old
        → Shows codec py (after s) e old
    Shows-old v e old apart (copied, copy, parsed) = (
      copied,
      copy_slot-other_memory codec w now snapshot packed s v storable e apart ∙ copy,
      parsed,
    )

  module _ (log : List (Snapshot F)) (h : Holds codec py w log)
      (next : IsNext codec py w now snapshot kept (suc (length log))) where
    slots_after :
        (i : ℕ) (entry : Snapshot F)
        → i < w.slot_count
        → get_elem? (kept ∷ log) i ≡ some entry
        → Shows codec py (after (suc (length log))) (suc (length log) - i) entry
    slots_after zero entry inside e =
        let same : kept ≡ entry = cc in
        let number : suc (length log) ≡ suc (length log) - 0 = omega arith in
        subst (λ k. Shows codec py (after (suc (length log))) k entry) number
          (subst (Shows codec py (after (suc (length log))) (suc (length log))) same
            (Shows-new (suc (length log)) (omega arith) next h.valid))
    slots_after (suc i) entry inside e =
        subst (λ k. Shows codec py (after (suc (length log))) k entry) (omega arith)
          (Shows-old (suc (length log)) (omega arith) next h.valid (length log - i) entry
            (mod_apart w.slot_count (length log - i - 1) (suc (length log) - 1)
              (omega (arith, get_elem?-lt log i entry e))
              (omega (arith, get_elem?-lt log i entry e)))
            (h.slots i entry (omega arith) e))

    -- On a ring that holds a log, the publication of a snapshot with the next number, whose
    -- fields fit and which is kept as a record that reads back, succeeds, and leaves a ring
    -- that holds the log with the kept snapshot at its head.
    pub publish-Holds :
        (w' : Writer) × (publish codec py w now snapshot ≡ (w', ok tt))
        × Holds codec py w' (kept ∷ log)
    publish-Holds = (
      after (suc (length log)),
      publish-eq (suc (length log)) (omega arith) next h.valid,
      record {
        valid = IsWriter-after (suc (length log)) h.valid;
        heading = (
          new_header codec w now snapshot packed (suc (length log)) h.valid
              (storable (suc (length log)) (omega arith) next),
          header-stored codec w now snapshot packed (suc (length log)) h.valid
              (storable (suc (length log)) (omega arith) next),
          refl,
          refl,
          refl,
        );
        slots = slots_after;
      },
    )
