-- ===== src/Tests/Rings.antt =====
-- The ring at a concrete writer that publishes one concrete snapshot.
use kilix_telemetry.Common.{
  ◌-◌, ◌≤◌, ◌%◌, ℤ, pos, ◌≡◌, ◌≢◌, refl, sym, ap, subst, ◌∙◌, true, none, some, Result, ok, [], ◌∷◌,
  length, leb, arith, take, List, ◌⊎◌, get_elem?,
}
use kilix_telemetry.Model.{Snapshot}
use mathlib.Core.List.{reverse}
use kilix_telemetry.Bytes.{fits_field}
use kilix_telemetry.Json.{dumps}
use kilix_telemetry.Model.ToDict.{to_dict, system_dict, process_dict}
use kilix_telemetry.Ring.{Codec, CodecLaws, SlotHeader, slot_parameters}
use kilix_telemetry.Ring.Fit.{Packed, encode, pack, fit}
use kilix_telemetry.Ring.Fit.Choice.{fit-le-capacity}
use kilix_telemetry.Ring.Writer.{
  checksum_of, RingFile, Writer, replaced_ring, start_writer, mapped_writer, write_header,
  pack_header, open_writer, publish, store,
}
use kilix_telemetry.Ring.Reader.{copy_slot, parse_slot, latest, history}
use kilix_telemetry.Ring.Header.{reader_of}
use kilix_telemetry.Ring.Stored.{IsStorable, stored_header}
use kilix_telemetry.Ring.Publish.{copy_slot-stored, copy_slot-other, copy_slot-displaced}
use kilix_telemetry.Ring.Decode.{parse_slot-encode}
use kilix_telemetry.Ring.Log.{storable, Holds, IsNext, publish-Holds}
use kilix_telemetry.Ring.Ages.{IsRecent, SomeFresh, NoneFresh, Sifted, asked_for}
use kilix_telemetry.Ring.History.{history_exact, latest_exact}
use kilix_telemetry.Ring.Runs.{
  open_writer-Holds, Published, opened, then_published, Published-Holds,
}
use kilix_telemetry.Tests.Instances.{Float, python, codec, codec_laws, snapshot}
use kilix_telemetry.Tests.Records.{snapshot-IsWireRecord}

abbrev two_slots : ℤ
two_slots = pos 2

abbrev smallest : ℤ
smallest = pos 65536

two_slots_accepted : slot_parameters two_slots smallest ≡ ok (2, 65536)
unfolding slot_parameters
two_slots_accepted = refl

abbrev old_file : RingFile
old_file = record { size = 12; memory = λ i. 7 }

field_7 : fits_field 8 (pos 7) ≡ true
field_7 = ground arith

field_9 : fits_field 8 (pos 9) ≡ true
field_9 = ground arith

open_writer-Holds_example :
    (w : Writer) × (open_writer old_file two_slots smallest 7 (pos 9) ≡ ok (w, ok tt))
    × Holds codec python w []
open_writer-Holds_example =
    open_writer-Holds codec codec_laws python old_file two_slots smallest 7 (pos 9) 2 65536
      two_slots_accepted field_7 field_9

ok-eq {ℓ} : {A : Type ℓ} {r : Result A} {a b : A} → r ≡ ok a → r ≡ ok b → a ≡ b
ok-eq e f = cc

-- The writer that is opened.
abbrev pub writer : Writer
writer = (mapped_writer (replaced_ring 135168 old_file) (2, 65536) 7 (pos 9)).0

opened_writer :
    open_writer old_file two_slots smallest 7 (pos 9)
    ≡ ok (mapped_writer (replaced_ring 135168 old_file) (2, 65536) 7 (pos 9))
unfolding open_writer start_writer slot_parameters replaced_ring
opened_writer = refl

pub writer-Holds : (c : Codec Float) → CodecLaws c → Holds c python writer []
writer-Holds c laws =
    let (w, e, holds) =
      open_writer-Holds c laws python old_file two_slots smallest 7 (pos 9) 2 65536
        two_slots_accepted field_7 field_9 in
    let same : mapped_writer (replaced_ring 135168 old_file) (2, 65536) 7 (pos 9) ≡ (w, ok tt) =
      ok-eq opened_writer e in
    subst (λ v. Holds c python v []) (ap (λ (r : Writer × Result (Unit {0})). r.0) (sym same)) holds

pub writer_size : writer.slot_size ≡ 65536
unfolding mapped_writer write_header pack_header
writer_size = refl

pub writer_count : writer.slot_count ≡ 2
unfolding mapped_writer write_header pack_header
writer_count = refl

payload_small : leb (length (encode codec snapshot).payload) 65472 ≡ true
unfolding encode pack dumps to_dict system_dict process_dict
payload_small = refl

raw_small : leb (encode codec snapshot).raw_size 67108864 ≡ true
unfolding encode pack dumps to_dict system_dict process_dict
raw_small = refl

fits_whole : fit python codec snapshot 65472 ≡ ok (encode codec snapshot)
unfolding fit
fits_whole = rw payload_small

fit-le-capacity_example : length (encode codec snapshot).payload ≤ 65472
fit-le-capacity_example =
    fit-le-capacity python codec snapshot 65472 (encode codec snapshot) fits_whole

first-IsNext : IsNext codec python writer (pos 20) snapshot snapshot 1
first-IsNext = record {
  sequence = refl;
  chosen = rw writer_size fits_whole;
  room = ground (arith, payload_small, writer_size);
  kept_sequence = refl;
  kept_monotonic_ns = refl;
  kept_wall_time_ns = refl;
  kept_valid = snapshot-IsWireRecord;
  kept_readable = refl;
  sequence_fits = ground arith;
  monotonic_fits = ground arith;
  wall_fits = ground arith;
  now_fits = ground arith;
  raw_room = ground (arith, raw_small);
}

publish-Holds_example :
    (w' : Writer) × (publish codec python writer (pos 20) snapshot ≡ (w', ok tt))
    × Holds codec python w' (snapshot ∷ [])
publish-Holds_example =
    publish-Holds codec codec_laws python writer (pos 20) snapshot snapshot []
      (writer-Holds codec codec_laws) first-IsNext

-- The writer after the publication.
abbrev pub after_one : Writer
after_one = (publish codec python writer (pos 20) snapshot).0

first_published : publish codec python writer (pos 20) snapshot ≡ (after_one, ok tt)
first_published =
    let (w', e, holds) =
      publish-Holds codec codec_laws python writer (pos 20) snapshot snapshot []
        (writer-Holds codec codec_laws) first-IsNext in
    let reached : after_one ≡ w' = ap (λ (r : Writer × Result (Unit {0})). r.0) e in
    e ∙ ap (λ (v : Writer). (v, ok tt)) (sym reached)

Published-once : Published codec python writer (snapshot ∷ []) after_one
Published-once =
    then_published (opened refl) (pos 20) snapshot snapshot first-IsNext first_published

pub after_one-Holds : Holds codec python after_one (snapshot ∷ [])
after_one-Holds =
    Published-Holds codec codec_laws python writer (writer-Holds codec codec_laws) Published-once

Published-Holds_example : Holds codec python after_one (snapshot ∷ [])
Published-Holds_example =
    Published-Holds codec codec_laws python writer (writer-Holds codec codec_laws) Published-once

history_exact_example :
    (found : List (Snapshot Float)) × (history codec python
        (reader_of after_one)
        after_one.memory
        (some (pos 5))
        (pos 30)
        none
      ≡ ok found)
    × Sifted
        (IsRecent (pos 30) none)
        (reverse (take (asked_for after_one.slot_count (some (pos 5))) (snapshot ∷ [])))
        found
history_exact_example =
    history_exact codec python after_one (snapshot ∷ []) after_one-Holds (some (pos 5)) (pos 30)
      none

latest_exact_example :
    ((x : Snapshot Float) × SomeFresh (pos 30) (some (pos 25)) (get_elem? (snapshot ∷ []) 0) x
      × (latest codec python (reader_of after_one) after_one.memory (pos 30) (some (pos 25))
          ≡ ok (some x)))
    ⊎ (NoneFresh (pos 30) (some (pos 25)) (get_elem? (snapshot ∷ []) 0)
        × (latest codec python (reader_of after_one) after_one.memory (pos 30) (some (pos 25))
            ≡ ok none))
latest_exact_example =
    latest_exact codec python after_one (snapshot ∷ []) after_one-Holds (pos 30) (some (pos 25))

abbrev packed : Packed
packed = encode codec snapshot

first-IsStorable : IsStorable writer (pos 20) snapshot packed 1
first-IsStorable =
    storable codec codec_laws python writer (pos 20) snapshot snapshot 1 (omega arith) first-IsNext

copy_slot-stored_example :
    ((store codec writer (pos 20) snapshot packed (pos 1)).1 ≡ ok tt)
    × (copy_slot (reader_of writer) (store codec writer (pos 20) snapshot packed (pos 1)).0.memory 1
        ≡ some (stored_header codec writer (pos 20) snapshot packed 1, packed.payload))
copy_slot-stored_example =
    copy_slot-stored codec writer (pos 20) snapshot packed 1 (writer-Holds codec codec_laws).valid
      first-IsStorable

same_slot : (3 - 1) % writer.slot_count ≡ (1 - 1) % writer.slot_count
same_slot = rw writer_count

other_slot : (2 - 1) % writer.slot_count ≢ (1 - 1) % writer.slot_count
other_slot = subst (λ n. (2 - 1) % n ≢ (1 - 1) % n) (sym writer_count) (omega arith)

copy_slot-displaced_example :
    copy_slot (reader_of writer) (store codec writer (pos 20) snapshot packed (pos 1)).0.memory 3
    ≡ none
copy_slot-displaced_example =
    copy_slot-displaced codec writer (pos 20) snapshot packed 1
      (writer-Holds codec codec_laws).valid first-IsStorable 3 same_slot (omega arith)

copy_slot-other_example :
    copy_slot (reader_of writer) (store codec writer (pos 20) snapshot packed (pos 1)).0.memory 2
    ≡ copy_slot (reader_of writer) writer.memory 2
copy_slot-other_example =
    copy_slot-other codec writer (pos 20) snapshot packed 1 (writer-Holds codec codec_laws).valid
      first-IsStorable 2 other_slot

abbrev slot_header : SlotHeader
slot_header = record {
  sequence = 1;
  monotonic_ns = 12;
  wall_time_ns = 11;
  flags = packed.flags;
  payload_size = length packed.payload;
  raw_size = packed.raw_size;
  checksum = checksum_of codec packed.payload;
  tail_sequence = 1;
}

parse_slot-encode_example :
    parse_slot codec python (slot_header, packed.payload) ≡ ok (some snapshot)
parse_slot-encode_example =
    parse_slot-encode codec codec_laws python snapshot slot_header snapshot-IsWireRecord refl
      (record {
        sequence = refl;
        monotonic_ns = refl;
        wall_time_ns = refl;
        flags = refl;
        raw_size = refl;
        checksum = refl;
      })
