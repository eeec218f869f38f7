-- ===== src/Client/Startup.antt =====
-- `ensure_running` of src/kilix_telemetry/client.py. The process that it starts, the lock file and
-- the clock are what each turn of its loop is given.
use kilix_telemetry.Common.{
  ℤ, pos, leb_ℤ, String, Bool, true, false, not, ◌&&◌, Option, none, some, List, [], ◌∷◌, Result,
  Exc, ok, err, if◌then◌else◌,
}
use kilix_telemetry.Bytes.{Bytes, Memory}
use kilix_telemetry.Values.{Python}
use kilix_telemetry.Model.{Snapshot}
use kilix_telemetry.Ring.{Codec}
use kilix_telemetry.Ring.Reader.{latest}
use kilix_telemetry.Consumers.{register}
use kilix_telemetry.Mapping.{NamedRing, Mapped, is_unavailable, fresh_reader}

-- What a turn of the loop meets: the clock in its head, the ring, the lock file, and whether the
-- process has ended, with the lock file after that.
pub record Attempt (F : Type 0) : Type 0 where
  pub now : F
  pub ring : Option NamedRing
  pub ring_ns : ℤ
  pub active : Bool
  pub exited : Bool
  pub still_active : Bool

-- What a turn leads to: another one with the reader that is kept, or the end of the `try`.
pub data Turn : Type 0 where
  again : Option Mapped → Turn
  returns : Bool → Turn
  raises : Exc → Turn

-- The arguments of a start, what the process and its environment are, and the end of the loop.
pub record Start (F : Type 0) : Type 0 where
  pub disabled : Bool
  pub owner_pid : ℤ
  pub process_identity : ℤ → Option String
  pub consumers_file : Option Bytes
  pub active : Bool
  pub has_command : Bool
  pub spawned : Bool
  pub started_ns : ℤ
  pub deadline : F
  pub last_active : Bool
  pub running : Bool

-- What `ensure_running` leaves: the consumers' file, the reply, and whether it has signalled the
-- process that it started.
pub record Startup : Type 0 where
  pub consumers_file : Option Bytes
  pub reply : Result Bool
  pub terminated : Bool

-- `max_age=3.0` in nanoseconds.
abbrev pub startup_age_ns : ℤ
startup_age_ns = pos 3_000_000_000

module _ {F : Type 0} (py : Python F) (codec : Codec F) where
  -- The handler around `latest`, with the reader that is kept.
  unfoldable pub caught_sample :
      Mapped → Result (Option (Snapshot F)) → Result (Option Mapped × Option (Snapshot F))
  caught_sample mapped (ok sample) = ok (some mapped, sample)
  caught_sample mapped (err e) = if is_unavailable e then ok (none, none) else err e

  unfoldable pub sample_fresh :
      ℤ → Result (Option (Mapped × Memory)) → Result (Option Mapped × Option (Snapshot F))
  sample_fresh now_ns (err e) = err e
  sample_fresh now_ns (ok none) = ok (none, none)
  sample_fresh now_ns (ok (some (mapped, memory))) =
      caught_sample mapped (latest codec py mapped.reader memory now_ns (some startup_age_ns))

  -- `sample is not None and sample.monotonic_ns >= started_ns`
  unfoldable pub is_new : ℤ → Option (Snapshot F) → Bool
  is_new started_ns none = false
  is_new started_ns (some sample) = leb_ℤ started_ns sample.monotonic_ns

  unfoldable pub judged : ℤ → Attempt F → Result (Option Mapped × Option (Snapshot F)) → Turn
  judged started_ns attempt (err e) = raises e
  judged started_ns attempt (ok (reader, sample)) =
      if attempt.active && is_new started_ns sample
      then returns true
      else if attempt.exited && not attempt.still_active
      then returns false
      else again reader

  -- The body of the loop.
  unfoldable pub turn : ℤ → Attempt F → Option Mapped → Turn
  turn started_ns attempt reader =
      judged started_ns attempt (sample_fresh attempt.ring_ns (fresh_reader attempt.ring reader))

  -- What a turn leads to, with the turns that may follow.
  unfoldable pub followed : (Option Mapped → Option (Result Bool)) → Turn → Option (Result Bool)
  followed more (again kept) = more kept
  followed more (returns reply) = some (ok reply)
  followed more (raises e) = some (err e)

  -- The loop, and the line behind it; `none` where it still runs when the turns end.
  unfoldable pub attempts : Start F → List (Attempt F) → Option Mapped → Option (Result Bool)
  attempts start [] reader = none
  attempts start (attempt ∷ rest) reader =
      let next =
        followed (λ kept. attempts start rest kept) (turn start.started_ns attempt reader) in
      if py.lt attempt.now start.deadline then next else some (ok start.last_active)

  -- The `finally` block: a process that runs without success is terminated.
  unfoldable pub ended : Start F → Option Bytes → Result Bool → Startup
  ended start file reply =
      let succeeded : Bool = elim reply [ ok b ↦ b | err e ↦ false ] in
      record { consumers_file = file; reply = reply; terminated = not succeeded && start.running }

  unfoldable pub finished_start : Start F → Option Bytes → Option (Result Bool) → Option Startup
  finished_start start file none = none
  finished_start start file (some reply) = some (ended start file reply)

  abbrev unstarted : Option Bytes → Bool → Option Startup
  unstarted file reply =
      some (record { consumers_file = file; reply = ok reply; terminated = false })

  -- `ensure_running` behind the registration. What `register` raises is caught.
  unfoldable pub started_writer :
      Start F → List (Attempt F) → Option Bytes → Result (Unit {0}) → Option Startup
  started_writer start turns file (err e) = unstarted file false
  started_writer start turns file (ok done) =
      let looped = finished_start start file (attempts start turns none) in
      if start.active
      then unstarted file true
      else if not start.has_command
      then unstarted file false
      else if not start.spawned
      then unstarted file false
      else looped

  -- `ensure_running`
  unfoldable pub ensure_running : Start F → List (Attempt F) → Option Startup
  ensure_running start turns =
      let (file, result) =
        register py start.process_identity codec start.consumers_file start.owner_pid in
      let started = started_writer start turns file result in
      if start.disabled then unstarted start.consumers_file false else started
