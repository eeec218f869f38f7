-- ===== src/Mapping.antt =====
-- `_fresh_reader` of src/kilix_telemetry/client.py: the mapping of the ring that a client keeps.
use kilix_telemetry.Common.{
  ℕ, ◌==◌, Bool, true, false, ◌&&◌, Option, none, some, Result, Exc, ok, err, os_error,
  ring_unavailable, if◌then◌else◌,
}
use kilix_telemetry.Bytes.{Memory}
use kilix_telemetry.Ring.Reader.{Reader, open_reader}

-- The file that the ring's path names.
pub record NamedRing : Type 0 where
  pub inode : ℕ
  pub device : ℕ
  pub size : ℕ
  pub memory : Memory

-- A `RingReader`, with what `os.fstat` says of its descriptor.
pub record Mapped : Type 0 where
  pub inode : ℕ
  pub device : ℕ
  pub reader : Reader
  pub is_open : Bool

-- `except (OSError, RingUnavailable)`
unfoldable pub is_unavailable : Exc → Bool
is_unavailable os_error = true
is_unavailable ring_unavailable = true
is_unavailable _ = false

-- The test whether the path still names the mapped file.
unfoldable pub is_current : NamedRing → Mapped → Bool
is_current ring mapped =
    mapped.is_open
    && ring.inode == mapped.inode
    && ring.device == mapped.device
    && ring.size == mapped.reader.size

abbrev pub mapped_of : NamedRing → Reader → Mapped
mapped_of ring reader = record {
  inode = ring.inode;
  device = ring.device;
  reader = reader;
  is_open = true;
}

-- `RingReader(paths)`, with the bytes that it maps.
unfoldable pub open_ring : Option NamedRing → Result (Option (Mapped × Memory))
open_ring none = ok none
open_ring (some ring) = elim (open_reader ring.size ring.memory) [
  | ok reader ↦ ok (some (mapped_of ring reader, ring.memory))
  | err e ↦ if is_unavailable e then ok none else err e
]

-- `_fresh_reader`
unfoldable pub fresh_reader : Option NamedRing → Option Mapped → Result (Option (Mapped × Memory))
fresh_reader (some ring) (some mapped) =
    let opened = open_ring (some ring) in
    if is_current ring mapped then ok (some (mapped, ring.memory)) else opened
fresh_reader ring mapped = open_ring ring

-- `reader.close()`
abbrev pub closed : Option Mapped → Option Mapped
closed none = none
closed (some mapped) = some (record mapped { is_open = false })

-- `self._reader` after `self._reader = _fresh_reader(...)`: an exception leaves the closed one.
abbrev pub kept_reader : Option Mapped → Result (Option (Mapped × Memory)) → Option Mapped
kept_reader cached (ok none) = none
kept_reader cached (ok (some (mapped, memory))) = some mapped
kept_reader cached (err e) = closed cached
