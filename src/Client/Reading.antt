-- ===== src/Client/Reading.antt =====
-- A client's read of a ring that holds a log, through a mapping that is kept or a new one.
use kilix_telemetry.Common.{
  ℕ, ℤ, ◌≡◌, refl, ap, ◌∙◌, inl, inr, true, leb, Option, none, some, List, get_elem?, arith, ok,
  Bool-cases,
}
use kilix_telemetry.Values.{Python}
use kilix_telemetry.Model.{Snapshot}
use kilix_telemetry.Ring.{Codec, ring_header_size}
use kilix_telemetry.Ring.Writer.{Writer}
use kilix_telemetry.Ring.Reader.{require, open_reader, latest, fresh_only}
use kilix_telemetry.Ring.Header.{reader_of}
use kilix_telemetry.Ring.Log.{Holds}
use kilix_telemetry.Ring.History.{latest-eq}
use kilix_telemetry.Collect.{Arithmetic}
use kilix_telemetry.Client.{Client, caught_read, read_fresh, read_ring}
use kilix_telemetry.Mapping.{
  NamedRing, Mapped, is_current, mapped_of, open_ring, fresh_reader, kept_reader,
}

-- The file of a writer, under its inode and device.
abbrev pub ring_of : ℕ → ℕ → Writer → NamedRing
ring_of inode device w = record {
  inode = inode;
  device = device;
  size = (reader_of w).size;
  memory = w.memory;
}

-- The newest snapshot of a log, if it is within the age limit.
abbrev pub newest_within : {F : Type 0} → List (Snapshot F) → ℤ → ℤ → Option (Snapshot F)
newest_within log now_ns max_age_ns = fresh_only now_ns (some max_age_ns) (get_elem? log 0)

module _ (inode device : ℕ) (w : Writer) where
  -- A mapping that is kept for the file of `w` has the parameters of `w`.
  abbrev pub IsReading : Option Mapped → Type 0
  IsReading cached =
      (mapped : Mapped)
      → cached ≡ some mapped
      → is_current (ring_of inode device w) mapped ≡ true
      → mapped.reader ≡ reader_of w

  -- The reader of the ring of `w` is the one that is kept.
  abbrev pub Reads : Option Mapped → Type 0
  Reads cached = (mapped : Mapped) × (cached ≡ some mapped) × (mapped.reader ≡ reader_of w)

module _ {F : Type 0} (codec : Codec F) (py : Python F) (arithmetic : Arithmetic F)
    (inode device : ℕ) (w : Writer) (log : List (Snapshot F)) (h : Holds codec py w log) where
  open_reader-Holds : open_reader (reader_of w).size w.memory ≡ ok (reader_of w)
  unfolding open_reader require
  open_reader-Holds =
      let (heading, accepted, number, count, slot) = h.heading in
      let large : leb ring_header_size (reader_of w).size ≡ true = ground arith in
      rw (open_reader, large, accepted, count, slot) refl

  open_ring-Holds :
      open_ring (some (ring_of inode device w))
      ≡ ok (some (mapped_of (ring_of inode device w) (reader_of w), w.memory))
  unfolding open_ring
  open_ring-Holds = rw (open_ring, open_reader-Holds) refl

  pub fresh_reader-Holds :
      (cached : Option Mapped)
      → IsReading inode device w cached
      → (mapped : Mapped) × (fresh_reader (some (ring_of inode device w)) cached
          ≡ ok (some (mapped, w.memory)))
        × (mapped.reader ≡ reader_of w)
  unfolding fresh_reader
  fresh_reader-Holds none r =
      (mapped_of (ring_of inode device w) (reader_of w), open_ring-Holds, refl)
  fresh_reader-Holds (some mapped) r =
      elim (Bool-cases (is_current (ring_of inode device w) mapped)) [
        | inl e ↦ (mapped, rw (fresh_reader, e) refl, r mapped refl e)
        | inr e ↦ (
          mapped_of (ring_of inode device w) (reader_of w),
          rw (fresh_reader, e) open_ring-Holds,
          refl,
        )
      ]

  pub read_ring-Holds :
      (now_ns : ℤ) (client : Client F)
      → IsReading inode device w client.reader
      → (mapped : Mapped) × (read_ring py arithmetic codec
            (some (ring_of inode device w))
            now_ns
            client
          ≡ (
            record client { reader = some mapped },
            ok (newest_within log now_ns client.max_age_ns),
          ))
        × (mapped.reader ≡ reader_of w)
  unfolding read_ring read_fresh caught_read
  read_ring-Holds now_ns client r =
      let (mapped, fresh, same) = fresh_reader-Holds client.reader r in
      let found : latest codec py mapped.reader w.memory now_ns (some client.max_age_ns)
          ≡ ok (newest_within log now_ns client.max_age_ns) =
        ap (λ reader. latest codec py reader w.memory now_ns (some client.max_age_ns)) same
        ∙ latest-eq codec py w log h now_ns (some client.max_age_ns) in
      (
        mapped,
        ap
              (λ fr.
                read_fresh py arithmetic codec
                  (record client { reader = kept_reader client.reader fr }) now_ns fr)
              fresh
            ∙ ap (caught_read py arithmetic codec (record client { reader = some mapped })) found,
        same,
      )
