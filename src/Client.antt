-- ===== src/Client.antt =====
-- `TelemetryClient` of src/kilix_telemetry/client.py: the reads of the ring through a mapping that is
-- kept, and the snapshot that is kept for a short time. What a call meets, the clocks, the file under
-- the ring's path and the answers of the writer's lock, is what it is given; `ensure_running`, which
-- starts a process, is in Client.Startup.
pub mod Registration
pub mod Polled
pub mod Union
pub mod Current
pub mod Reading
pub mod Polling
pub mod Panes
pub mod Startup
pub mod Attempts
pub mod Started
use kilix_telemetry.Common.{
  ℕ, ◌+◌, ◌*◌, ℤ, pos, ◌==ℤ◌, ◌==◌, String, ◌≡◌, Bool, true, false, not, ◌&&◌, ◌||◌, Option, none,
  some, List, [], ◌∷◌, Result, Exc, ok, err, os_error, ring_unavailable, value_error,
  telemetry_error, if◌then◌else◌, ◌>>=◌,
}
use kilix_telemetry.Bytes.{Bytes, Memory}
use kilix_telemetry.Values.{Python}
use kilix_telemetry.Model.{Snapshot}
use kilix_telemetry.Ring.{Codec}
use kilix_telemetry.Ring.Reader.{Reader, open_reader, latest, history}
use kilix_telemetry.Consumers.{register}
use kilix_telemetry.Text.{Unicode}
use kilix_telemetry.Collect.{Arithmetic}
use kilix_telemetry.Collect.Sample.{Machine, Collector, sample}
use kilix_telemetry.Mapping.{
  NamedRing, Mapped, is_unavailable, is_current, mapped_of, open_ring, fresh_reader, closed,
  kept_reader,
}

-- The attributes for snapshots; `max_age_ns` is what `latest` makes of `max_age`.
pub record Client (F : Type 0) : Type 0 where
  pub max_age_ns : ℤ
  pub cache_seconds : F
  pub fallback : Collector F
  pub cached : Option (Snapshot F)
  pub cached_until : F
  pub reader : Option Mapped
  pub writer_alive : Bool
  pub writer_checked : F
  pub consumer_pid : Option ℤ

-- The arguments of `snapshot`.
pub record Options : Type 0 where
  pub start : Bool
  pub fallback : Bool
  pub force : Bool

-- What one call meets: the environment, the consumers' file, the clock on entry and under the lock,
-- the ring's file and clock at the first read, the answer of the lock file, what `ensure_running`
-- returns, the clock and the ring behind it, the machine, and the state that an exception of `sample`
-- leaves the fallback's collector in, which may be any.
pub record Poll (F : Type 0) : Type 0 where
  pub disabled : Bool
  pub pid : ℤ
  pub process_identity : ℤ → Option String
  pub consumers_file : Option Bytes
  pub entry_now : F
  pub now : F
  pub ring : Option NamedRing
  pub ring_ns : ℤ
  pub writer_active : Bool
  pub started : Bool
  pub started_now : F
  pub started_ring : Option NamedRing
  pub started_ns : ℤ
  pub machine : Machine F
  pub after_error : Collector F

module _ {F : Type 0} (py : Python F) (arithmetic : Arithmetic F) where
  -- `close`
  unfoldable pub close_client : Client F → Client F
  close_client client = record client { reader = none }

  -- `_writer_probe`
  unfoldable pub writer_probe : F → Bool → Client F → Client F × Bool
  writer_probe now active client =
      if py.le (arithmetic.whole 1) (arithmetic.sub now client.writer_checked)
      then (record client { writer_alive = active; writer_checked = now }, active)
      else (client, client.writer_alive)

  -- The test for the snapshot that is kept.
  unfoldable pub reused : Options → F → Client F → Option (Snapshot F)
  reused options now client =
      if not options.force && py.lt now client.cached_until then client.cached else none

  -- `start and self._consumer_pid != os.getpid() and not _disabled()`
  unfoldable pub must_register : Options → Poll F → Client F → Bool
  must_register options poll client =
      let known : Bool = elim client.consumer_pid [ none ↦ false | some pid ↦ pid ==ℤ poll.pid ] in
      options.start && not known && not poll.disabled

  -- What is caught of the registration on entry is all that `register` raises.
  unfoldable pub noted_consumer : ℤ → Client F → Result (Unit {0}) → Client F
  noted_consumer pid client (ok done) = record client { consumer_pid = some pid }
  noted_consumer pid client (err e) = client

  module _ (codec : Codec F) where
    -- The registration on entry, with the file that it leaves.
    unfoldable pub registered_client : Options → Poll F → Client F → Client F × Option Bytes
    registered_client options poll client =
        let (file, result) = register py poll.process_identity codec poll.consumers_file poll.pid in
        if must_register options poll client
        then (noted_consumer poll.pid client result, file)
        else (client, poll.consumers_file)

    -- The handler around `latest`.
    unfoldable pub caught_read :
        Client F → Result (Option (Snapshot F)) → Client F × Result (Option (Snapshot F))
    caught_read client (ok found) = (client, ok found)
    caught_read client (err e) =
        if is_unavailable e then (record client { reader = none }, ok none) else (client, err e)

    unfoldable pub read_fresh :
        Client F → ℤ → Result (Option (Mapped × Memory)) → Client F × Result (Option (Snapshot F))
    read_fresh client now_ns (err e) = (client, err e)
    read_fresh client now_ns (ok none) = (client, ok none)
    read_fresh client now_ns (ok (some (mapped, memory))) =
        caught_read client (latest codec py mapped.reader memory now_ns (some client.max_age_ns))

    -- `_read_ring`
    unfoldable pub read_ring :
        Option NamedRing → ℤ → Client F → Client F × Result (Option (Snapshot F))
    read_ring ring now_ns client =
        let fresh = fresh_reader ring client.reader in
        read_fresh (record client { reader = kept_reader client.reader fresh }) now_ns fresh

    -- The read behind a start of the writer.
    unfoldable pub reread :
        Poll F → Option (Snapshot F) → Client F → Client F × Result (Option (Snapshot F))
    reread poll found client =
        let (after, read) =
          read_ring poll.started_ring poll.started_ns
            (record client { writer_alive = true; writer_checked = poll.started_now }) in
        elim read [
          | err e ↦ (after, err e)
          | ok none ↦ (after, ok found)
          | ok (some refreshed) ↦ (after, ok (some refreshed))
        ]

    -- The writer's probe and its start.
    unfoldable pub probed :
        Options
        → Poll F
        → Client F × Result (Option (Snapshot F))
        → Client F × Result (Option (Snapshot F))
    probed options poll (client, err e) = (client, err e)
    probed options poll (client, ok found) =
        let (after, alive) = writer_probe poll.now poll.writer_active client in
        let again = reread poll found after in
        if not options.start
        then (client, ok found)
        else if alive || not poll.started
        then (after, ok found)
        else again

    -- The handler around `reader.history`.
    unfoldable pub caught_history : Result (List (Snapshot F)) → Result (List (Snapshot F))
    caught_history (ok found) = ok found
    caught_history (err e) = if is_unavailable e then ok [] else err e

    -- `history`, which opens a reader of its own.
    unfoldable pub client_history :
        Option NamedRing → Option ℤ → ℤ → Option ℤ → Result (List (Snapshot F))
    client_history ring limit now_ns max_age_ns = do
      opened ← open_ring ring
      elim opened [
        | none ↦ ok []
        | some (mapped, memory) ↦
            caught_history (history codec py mapped.reader memory limit now_ns max_age_ns)
      ]

    module _ (unicode : Unicode) where
      -- `self._fallback.sample(...)`
      unfoldable pub sample_reply :
          Collector F
          → Client F
          → Result (Collector F × Snapshot F)
          → Client F × Result (Option (Snapshot F))
      sample_reply after_error client (ok (collector, snapshot)) =
          (record client { fallback = collector }, ok (some snapshot))
      sample_reply after_error client (err e) = (record client { fallback = after_error }, err e)

      -- The sample of the fallback, where there is no other.
      unfoldable pub or_sample :
          Options
          → Poll F
          → List ℤ
          → Client F
          → Option (Snapshot F)
          → Client F × Result (Option (Snapshot F))
      or_sample options poll pss_roots client (some found) = (client, ok (some found))
      or_sample options poll pss_roots client none =
          let sampled : Client F × Result (Option (Snapshot F)) =
            sample_reply poll.after_error client
              (sample py unicode arithmetic client.fallback poll.machine pss_roots) in
          if options.fallback then sampled else (client, ok none)

      -- The end of `snapshot`: the snapshot is kept.
      unfoldable pub cached_reply :
          F → Client F × Result (Option (Snapshot F)) → Client F × Result (Option (Snapshot F))
      cached_reply now (client, err e) = (client, err e)
      cached_reply now (client, ok found) = (
        record client { cached = found; cached_until = arithmetic.add now client.cache_seconds },
        ok found,
      )

      abbrev pub sampled_reply :
          Options
          → Poll F
          → Client F × Result (Option (Snapshot F))
          → Client F × Result (Option (Snapshot F))
      sampled_reply options poll (client, err e) = (client, err e)
      sampled_reply options poll (client, ok found) = or_sample options poll [] client found

      -- `snapshot` behind the registration and the tests for the kept snapshot.
      unfoldable pub refreshed_snapshot :
          Options → Poll F → Client F → Client F × Result (Option (Snapshot F))
      refreshed_snapshot options poll client = cached_reply poll.now (
          sampled_reply options poll
            (probed options poll (read_ring poll.ring poll.ring_ns client)))

      -- `snapshot` behind the registration.
      unfoldable pub polled_snapshot :
          Options
          → Poll F
          → Client F × Option Bytes
          → (Client F × Option Bytes) × Result (Option (Snapshot F))
      polled_snapshot options poll (client, file) =
          let (after, reply) = refreshed_snapshot options poll client in
          elim (reused options poll.entry_now client) [
            | some kept ↦ ((client, file), ok (some kept))
            | none ↦ elim (reused options poll.now client) [
              | some kept ↦ ((client, file), ok (some kept))
              | none ↦ ((after, file), reply)
            ]
          ]

      -- `snapshot`, with the consumers' file that its own registration leaves.
      unfoldable pub snapshot :
          Options → Poll F → Client F → (Client F × Option Bytes) × Result (Option (Snapshot F))
      snapshot options poll client =
          polled_snapshot options poll (registered_client options poll client)
