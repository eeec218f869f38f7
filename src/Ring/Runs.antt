-- ===== src/Ring/Runs.antt =====
-- Whole lives of a writer: the constructor, and then publications in sequence.
use kilix_telemetry.Common.{
  ℕ, suc, ◌+◌, ◌*◌, ◌≤◌, ℤ, pos, pos_part, true, ◌≡◌, refl, sym, ap, ◌∙◌, subst, Result, ok, List,
  [], ◌∷◌, length, arith, ◌++◌, ltb, false, ◌==◌, ==_iff, Bool-cases, inl, inr,
}
use kilix_telemetry.Bytes.{fits_field, write}
use kilix_telemetry.Bytes.Fields.{bytes_of}
use kilix_telemetry.Values.{Python}
use kilix_telemetry.Model.{Snapshot}
use kilix_telemetry.Ring.{Codec, CodecLaws, slot_parameters, ring_magic, ring_header_size}
use kilix_telemetry.Ring.Writer.{
  Writer, RingFile, header_fields, replaced_ring, start_writer, mapped_writer, open_writer, publish,
}
use kilix_telemetry.Ring.Header.{header-written}
use kilix_telemetry.Ring.Stored.{IsWriter, header_of, write_header-eq}
use kilix_telemetry.Ring.Log.{Holds, IsNext, publish-Holds}

-- The slot parameters that the constructor accepts are in range.
pub slot_parameters_bounds :
    (slot_count slot_size : ℤ) (count size : ℕ)
    → slot_parameters slot_count slot_size ≡ ok (count, size)
    → (2 ≤ count) × (count ≤ 256) × (65536 ≤ size) × (size ≤ 4194304)
unfolding slot_parameters
slot_parameters_bounds slot_count slot_size count size e = ground arith

-- What the constructor maps has the size that it maps.
size-replaced_ring : (length : ℕ) (file : RingFile) → (replaced_ring length file).size ≡ length
unfolding replaced_ring
size-replaced_ring length file = elim (Bool-cases (file.size == length)) [
  | inl e ↦ rw (replaced_ring, e) ((==_iff file.size length).0 e)
  | inr e ↦ rw (replaced_ring, e) refl
]

module _ {F : Type 0} (codec : Codec F) (laws : CodecLaws codec) (py : Python F) where
  -- A writer that is opened on accepted parameters, over an old file of any size, with a PID
  -- and a clock that fit their fields, maps a file of its size, opens, and holds the empty log.
  pub open_writer-Holds :
      (file : RingFile) (slot_count slot_size : ℤ) (pid : ℕ) (now : ℤ) (count size : ℕ)
      → slot_parameters slot_count slot_size ≡ ok (count, size)
      → fits_field 8 (pos pid) ≡ true
      → fits_field 8 now ≡ true
      → (w : Writer) × (open_writer file slot_count slot_size pid now ≡ ok (w, ok tt))
        × Holds codec py w []
  unfolding open_writer start_writer mapped_writer
  open_writer-Holds file slot_count slot_size pid now count size e p n =
      let (count_low, count_high, size_low, size_high) =
        slot_parameters_bounds slot_count slot_size count size e in
      let length : ℕ = ring_header_size + count * size in
      let ring : RingFile = replaced_ring length file in
      let same : ring.size ≡ length = size-replaced_ring length file in
      let w : Writer = record {
        slot_count = count;
        slot_size = size;
        pid = pid;
        started_ns = now;
        file_size = ring.size;
        memory = ring.memory;
      } in
      let v : IsWriter w = record {
        count_low = count_low;
        count_high = count_high;
        size_low = size_low;
        size_high = size_high;
        pid = p;
        started = n;
        whole = same;
      } in
      let mapped : ltb ring.size length ≡ false = ground (arith, same) in
      (
        record w {
          memory = write w.memory 0 (ring_magic ++ bytes_of (header_fields w (pos 0) now));
        },
        rw (open_writer, e, mapped) (ap ok (write_header-eq w v (pos 0) now refl n)),
        record {
          valid = record {
            count_low = count_low;
            count_high = count_high;
            size_low = size_low;
            size_high = size_high;
            pid = p;
            started = n;
            whole = same;
          };
          heading = (
            header_of w (pos_part now) 0 (pos_part now),
            header-written w v (pos 0) now refl n,
            refl,
            refl,
            refl,
          );
          slots = λ i snapshot inside at. absurd (cc);
        },
      )

-- Writers that successive publications reach, with the snapshots that they kept, newest first.
pub data Published {F : Type 0} (codec : Codec F) (py : Python F) (start : Writer)
    : List (Snapshot F) → Writer → Type 0 where
  opened : {w : Writer} → w ≡ start → Published codec py start [] w
  then_published :
      {log : List (Snapshot F)} {w w' : Writer}
      → Published codec py start log w
      → (now : ℤ) (snapshot kept : Snapshot F)
      → IsNext codec py w now snapshot kept (suc (length log))
      → publish codec py w now snapshot ≡ (w', ok tt)
      → Published codec py start (kept ∷ log) w'

module _ {F : Type 0} (codec : Codec F) (laws : CodecLaws codec) (py : Python F)
    (start : Writer) where
  -- A ring that holds the empty log holds, after publications that return, each of a snapshot
  -- with the next number, whose numbers and time fit their fields, and kept as a record of the
  -- same number and times that is within the limits of the wire format and of a slot, and whose
  -- JSON text reads back and is within the readers' limit, the log of the snapshots that they
  -- kept: its header is accepted and names the last one, and each of the newest `slot_count` is
  -- copied and parsed to itself.
  pub Published-Holds :
      {log : List (Snapshot F)} {w : Writer}
      → Holds codec py start []
      → Published codec py start log w
      → Holds codec py w log
  Published-Holds h (opened e) = subst (λ w. Holds codec py w []) (sym e) h
  Published-Holds h (then_published {log} {w} {w'} before now snapshot kept next e) =
      let (after, published, holds) =
        publish-Holds codec laws py w now snapshot kept log (Published-Holds h before) next in
      subst (λ v. Holds codec py v (kept ∷ log))
        (ap (λ (r : Writer × Result (Unit {0})). r.0) (sym published ∙ e)) holds
