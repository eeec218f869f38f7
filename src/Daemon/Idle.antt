-- ===== src/Daemon/Idle.antt =====
-- A consumer that registered keeps the sampling loop from stopping for idleness.
use kilix_telemetry.Common.{
  ◌≤◌, ℤ, ◌≡◌, String, true, Option, some, length, ok, arith, Bool-cases, inl, inr,
}
use kilix_telemetry.Bytes.{Bytes}
use kilix_telemetry.Values.{Python, int}
use kilix_telemetry.Ring.{Codec, ReadsBack}
use kilix_telemetry.Registry.{contents}
use kilix_telemetry.Consumers.{consumers_value, max_bytes, register, active}
use kilix_telemetry.Consumers.Active.{registered, register-active}
use kilix_telemetry.Collect.{Arithmetic}
use kilix_telemetry.Daemon.{Config, Round, still_wanted}

module _ {F : Type 0} (py : Python F) (arithmetic : Arithmetic F) (codec : Codec F)
    (config : Config F) (round : Round F) where
  -- With an active consumer the loop goes on, with `idle_since` unchanged or set to now.
  still_wanted-active :
      (idle_since : F)
      → active py round.process_identity codec round.consumers_file ≡ true
      → (next : F) × (still_wanted py arithmetic codec config round idle_since ≡ some next)
  unfolding still_wanted
  still_wanted-active idle_since e = elim (Bool-cases (py.lt py.zero_float config.idle_timeout)) [
    | inl limited ↦ (round.idle_now, ground arith)
    | inr unlimited ↦ (idle_since, ground arith)
  ]

  -- Where a round sees the file that a `register` left which returned for a process with an
  -- identity, and the process keeps that identity, the loop does not stop for idleness, where
  -- the PID reads back from its text, the dictionary that was written reads back from its JSON
  -- text, and the text is within the limit of bytes.
  pub register-still_wanted :
      (file : Option Bytes) (pid : ℤ) (identity : String) (idle_since : F)
      → round.process_identity pid ≡ some identity
      → py.int_of_str (py.str_of (int pid)) ≡ some pid
      → register py round.process_identity codec file pid ≡ (round.consumers_file, ok tt)
      → ReadsBack codec
          (consumers_value (registered py round.process_identity codec file pid identity))
      → length (contents round.consumers_file) ≤ max_bytes
      → (next : F) × (still_wanted py arithmetic codec config round idle_since ≡ some next)
  register-still_wanted file pid identity idle_since alive number e reads small =
      still_wanted-active idle_since (
        register-active py round.process_identity codec file pid identity alive round.consumers_file
          number e reads small)
