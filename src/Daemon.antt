-- ===== src/Daemon.antt =====
-- `run_daemon` of src/kilix_telemetry/daemon.py: one round of the sampling loop as a function on the
-- collector, the writer and the loop's own variables. Signals, clocks and the files of the two
-- registries are what a round is given.
pub mod Serving
pub mod Idle
use kilix_telemetry.Common.{
  ℕ, ℤ, pos, String, Bool, true, false, not, ◌&&◌, Option, none, some, List, [], ◌∷◌, ◌+◌, Result,
  Exc, ok, err, telemetry_error, ring_unavailable, ring_busy, if◌then◌else◌, ◌>>=◌,
}
use kilix_telemetry.Bytes.{Bytes}
use kilix_telemetry.Values.{Python, max_float, min_float}
use kilix_telemetry.Model.{Snapshot}
use kilix_telemetry.Ring.{Codec}
use kilix_telemetry.Ring.Writer.{Writer, publish}
use kilix_telemetry.Registry.{registered_roots}
use kilix_telemetry.Consumers.{active}
use kilix_telemetry.Text.{Unicode}
use kilix_telemetry.Collect.{Arithmetic}
use kilix_telemetry.Collect.Sample.{Machine, Collector, sample}

-- The arguments of the call.
pub record Config (F : Type 0) : Type 0 where
  pub interval : F
  pub once : Bool
  pub idle_timeout : F
  pub stale_ns : ℤ

-- What one round sees: whether a signal has come, the two registry files, the machine, the processes
-- that live, and the clock at each reading: for the idle test, the registries, the publication, the
-- pause, and the deadline of a round that is late.
pub record Round (F : Type 0) : Type 0 where
  pub stopping : Bool
  pub consumers_file : Option Bytes
  pub process_identity : ℤ → Option String
  pub idle_now : F
  pub panes_file : Option Bytes
  pub panes_now : ℤ
  pub machine : Machine F
  pub publish_now : ℤ
  pub pause_now : F
  pub late_now : F

-- The variables of the loop, with the objects that it calls.
pub record Daemon (F : Type 0) : Type 0 where
  pub collector : Collector F
  pub writer : Writer
  pub idle_since : F
  pub deadline : F
  pub first : Bool
  pub ready_calls : ℕ

-- How a round ends: with the next one, by leaving the loop with a return code, or by an exception.
pub data Progress (F : Type 0) : Type 0 where
  continues : Daemon F → Progress F
  returns : ℕ → Daemon F → Progress F
  raises : Exc → Daemon F → Progress F

-- `isinstance(error, TelemetryError)`
unfoldable pub is_telemetry_error : Exc → Bool
is_telemetry_error telemetry_error = true
is_telemetry_error ring_unavailable = true
is_telemetry_error ring_busy = true
is_telemetry_error _ = false

module _ {F : Type 0} (py : Python F) (arithmetic : Arithmetic F) where
  -- `max(0.1, min(60.0, float(interval)))`, where the first argument is the literal 0.1.
  unfoldable pub clamped_interval : F → F → F
  clamped_interval tenth interval = max_float py tenth (min_float py (arithmetic.whole 60) interval)

  -- The variable `deadline` after the pause of a round.
  unfoldable pub next_deadline : F → F → F → F → F
  next_deadline deadline interval now late_now =
      let moved = arithmetic.add deadline interval in
      if py.le (arithmetic.sub moved now) py.zero_float then late_now else moved

  module _ (codec : Codec F) where
    -- The idle test at the head of the loop: the new `idle_since`, or `none` for the `break`.
    unfoldable pub still_wanted : Config F → Round F → F → Option F
    still_wanted config round idle_since =
        if not (py.lt py.zero_float config.idle_timeout)
        then some idle_since
        else if active py round.process_identity codec round.consumers_file
        then some round.idle_now
        else if py.le config.idle_timeout (arithmetic.sub round.idle_now idle_since)
        then none
        else some idle_since

    -- The end of a round.
    unfoldable pub finished : Config F → Round F → Daemon F → Progress F
    finished config round daemon =
        if config.once
        then returns 0 daemon
        else continues (record daemon {
          deadline = next_deadline daemon.deadline config.interval round.pause_now round.late_now;
        })

    -- The `else` of the `try`, which calls `ready` once.
    unfoldable pub announced : Daemon F → Daemon F
    announced daemon =
        if daemon.first
        then record daemon { first = false; ready_calls = daemon.ready_calls + 1 }
        else daemon

    -- What follows `ring.publish(snapshot)`.
    unfoldable pub published : Config F → Round F → Daemon F → Result (Unit {0}) → Progress F
    published config round daemon (ok done) = finished config round (announced daemon)
    published config round daemon (err e) =
        if not (is_telemetry_error e)
        then raises e daemon
        else if config.once
        then returns 1 daemon
        else finished config round daemon

    module _ (unicode : Unicode) where
      -- `collector.sample(pss_roots=registry.roots())`
      unfoldable pub sampled_round :
          Config F → Round F → Collector F → Result (Collector F × Snapshot F)
      sampled_round config round collector = do
        roots ← registered_roots py codec round.panes_file round.panes_now config.stale_ns
        sample py unicode arithmetic collector round.machine roots

      -- The round from the sample on.
      unfoldable pub serve_sample :
          Config F → Round F → Daemon F → Result (Collector F × Snapshot F) → Progress F
      serve_sample config round daemon (err e) = raises e daemon
      serve_sample config round daemon (ok (collector, snapshot)) =
          let (writer, result) = publish codec py daemon.writer round.publish_now snapshot in
          published config round (record daemon { collector = collector; writer = writer }) result

      -- One round of `while not stopping`.
      unfoldable pub serve_round : Config F → Daemon F → Round F → Progress F
      serve_round config daemon round =
          if round.stopping
          then returns 0 daemon
          else elim (still_wanted config round daemon.idle_since) [
            | none ↦ returns 0 daemon
            | some idle_since ↦
                serve_sample config round (record daemon { idle_since = idle_since })
                  (sampled_round config round daemon.collector)
          ]

      -- The loop over the rounds that the environment gives; it may still be running at their end.
      unfoldable pub serve : Config F → Daemon F → List (Round F) → Progress F
      serve config daemon [] = continues daemon
      serve config daemon (round ∷ rest) = elim (serve_round config daemon round) [
        | continues next ↦ serve config next rest
        | returns code last ↦ returns code last
        | raises e last ↦ raises e last
      ]
