-- ===== src/Client/Polling.antt =====
-- What `snapshot` of a client returns over a ring that holds a log.
use kilix_telemetry.Common.{
  ℕ, ℤ, ◌≡◌, ◌⊎◌, true, false, Option, none, some, List, [], get_elem?, Result, Exc, ok, err,
}
use kilix_telemetry.Bytes.{Bytes}
use kilix_telemetry.Values.{Python}
use kilix_telemetry.Model.{Snapshot}
use kilix_telemetry.Ring.{Codec}
use kilix_telemetry.Ring.Writer.{Writer}
use kilix_telemetry.Ring.Ages.{NoneFresh, SomeFresh}
use kilix_telemetry.Ring.Log.{Holds}
use kilix_telemetry.Values.Laws.{Ensures}
use kilix_telemetry.Text.{Unicode}
use kilix_telemetry.Collect.{Arithmetic}
use kilix_telemetry.Collect.Sample.{Collector, sample}
use kilix_telemetry.Client.{Client, Options, Poll, writer_probe}
use kilix_telemetry.Client.Reading.{Reads}

module _ {F : Type 0} (codec : Codec F) (py : Python F) (arithmetic : Arithmetic F)
    (inode device : ℕ) (w : Writer) (log : List (Snapshot F)) (h : Holds codec py w log) where
  module _ (unicode : Unicode) (options : Options) (poll : Poll F) where
    -- The writer is not started by this call.
    abbrev pub StartsNothing : Client F → Type 0
    StartsNothing client =
        (options.start ≡ false)
        ⊎ ((writer_probe py arithmetic poll.now poll.writer_active client).1 ≡ true)
        ⊎ (poll.started ≡ false)

    -- The attributes that a probe of the writer leaves as they are.
    abbrev Agrees : Client F → Client F → Type 0
    Agrees a b = (a.reader ≡ b.reader) × (a.fallback ≡ b.fallback)

    -- How a client answers: with the newest snapshot, where it is fresh; where none is fresh, with
    -- nothing if there is to be no fallback, and with its own sample or that one's exception if there is.
    abbrev pub Outcome : Client F → Result (Option (Snapshot F)) → Type 0
    Outcome client reply =
        let newest : Option (Snapshot F) = get_elem? log 0 in
        let limit : Option ℤ = some client.max_age_ns in
        ((x : Snapshot F) × SomeFresh poll.ring_ns limit newest x × (reply ≡ ok (some x)))
        ⊎ (NoneFresh poll.ring_ns limit newest × (options.fallback ≡ false) × (reply ≡ ok none))
        ⊎ (NoneFresh poll.ring_ns limit newest
            × (options.fallback ≡ true)
            × (((next : Collector F) × (x : Snapshot F) × (sample py unicode arithmetic
                      client.fallback poll.machine []
                    ≡ ok (next, x))
                  × (reply ≡ ok (some x)))
                ⊎ ((e : Exc) × (sample py unicode arithmetic client.fallback poll.machine []
                      ≡ err e)
                    × (reply ≡ err e))))

    -- The three parts of an answer: its value, the reader that is kept, and that the value is kept.
    pub record IsAnswer (client after : Client F) (reply : Result (Option (Snapshot F)))
        : Type 0 where
      pub kept : Ensures (λ s. after.cached ≡ s) reply
      pub reading : Reads inode device w after.reader
      pub outcome : Outcome client reply
