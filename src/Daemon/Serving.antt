-- ===== src/Daemon/Serving.antt =====
-- The sampling loop against the ring's log: the collector numbers its snapshots so that the ring holds
-- every one that the loop published.
use kilix_telemetry.Common.{
  ℕ, suc, ◌-◌, ◌*◌, ◌≤◌, ℤ, pos, ◌+ℤ◌, max_ℤ, ◌≡◌, refl, sym, ap, subst, ◌∙◌, true, List, [], ◌∷◌,
  length, ok, >>=-eq-ok, arith, Bool-cases, Option-cases, inl, inr,
}
use kilix_telemetry.Bytes.{fits_field}
use kilix_telemetry.Values.{Python, dict}
use kilix_telemetry.Model.{Snapshot}
use kilix_telemetry.Model.ToDict.{to_dict}
use kilix_telemetry.Model.Records.{IsWireRecord}
use kilix_telemetry.Ring.{Codec, CodecLaws, ReadsBack, slot_header_size, max_slot_size}
use kilix_telemetry.Ring.Fit.{encode, fit}
use kilix_telemetry.Ring.Writer.{Writer, publish}
use kilix_telemetry.Ring.Log.{Holds, IsNext, publish-Holds}
use kilix_telemetry.Text.{Unicode}
use kilix_telemetry.Collect.{Arithmetic}
use kilix_telemetry.Collect.Sample.{Collector, sample}
use kilix_telemetry.Registry.{registered_roots}
use kilix_telemetry.Collect.Snapshots.{sample_counts}
use kilix_telemetry.Values.Laws.{Ensures-ok}
use kilix_telemetry.Daemon.{
  Config, Round, Daemon, continues, returns, still_wanted, sampled_round, announced, finished,
  published, serve_sample, serve_round, next_deadline,
}

-- What a sampled snapshot must be to be stored whole, or cut to `kept`, under the number `s`, beside
-- the number itself: it fits the slot, reads back, and its clocks fit their fields.
pub record IsKept {F : Type 0} (codec : Codec F) (py : Python F) (w : Writer) (now : ℤ)
    (snapshot kept : Snapshot F) (s : ℕ) : Type 0 where
  pub chosen : fit py codec snapshot (w.slot_size - slot_header_size) ≡ ok (encode codec kept)
  pub room : length (encode codec kept).payload ≤ w.slot_size - slot_header_size
  pub kept_sequence : kept.sequence ≡ snapshot.sequence
  pub kept_monotonic_ns : kept.monotonic_ns ≡ snapshot.monotonic_ns
  pub kept_wall_time_ns : kept.wall_time_ns ≡ snapshot.wall_time_ns
  pub kept_valid : IsWireRecord py kept
  pub kept_readable : ReadsBack codec (dict (to_dict kept))
  pub sequence_fits : fits_field 8 (pos s) ≡ true
  pub monotonic_fits : fits_field 8 snapshot.monotonic_ns ≡ true
  pub wall_fits : fits_field 8 snapshot.wall_time_ns ≡ true
  pub now_fits : fits_field 8 (max_ℤ now snapshot.monotonic_ns) ≡ true
  pub raw_room : (encode codec kept).raw_size ≤ 16 * max_slot_size

module _ {F : Type 0} (codec : Codec F) (py : Python F) where
  pub IsNext-of_IsKept :
      (w : Writer) (now : ℤ) (snapshot kept : Snapshot F) (s : ℕ)
      → snapshot.sequence ≡ pos s
      → IsKept codec py w now snapshot kept s
      → IsNext codec py w now snapshot kept s
  IsNext-of_IsKept w now snapshot kept s e k = record {
    sequence = e;
    chosen = k.chosen;
    room = k.room;
    kept_sequence = k.kept_sequence;
    kept_monotonic_ns = k.kept_monotonic_ns;
    kept_wall_time_ns = k.kept_wall_time_ns;
    kept_valid = k.kept_valid;
    kept_readable = k.kept_readable;
    sequence_fits = k.sequence_fits;
    monotonic_fits = k.monotonic_fits;
    wall_fits = k.wall_fits;
    now_fits = k.now_fits;
    raw_room = k.raw_room;
  }

module _ {F : Type 0} (py : Python F) (arithmetic : Arithmetic F) (codec : Codec F)
    (unicode : Unicode) (config : Config F) where
  -- The daemons that rounds lead to from a start, with the snapshots that the rounds published,
  -- newest first.
  pub data Served (start : Daemon F) : List (Snapshot F) → Daemon F → Type 0 where
    begun : {daemon : Daemon F} → daemon ≡ start → Served start [] daemon
    then_served :
        {log : List (Snapshot F)} {daemon next : Daemon F}
        → Served start log daemon
        → (round : Round F) (collector : Collector F) (snapshot kept : Snapshot F)
        → sampled_round py arithmetic codec unicode config round daemon.collector
          ≡ ok (collector, snapshot)
        → IsKept codec py daemon.writer round.publish_now snapshot kept (suc (length log))
        → serve_round py arithmetic codec unicode config daemon round ≡ continues next
        → Served start (kept ∷ log) next

  -- What the rounds keep: the ring holds the log, and the collector has counted it.
  abbrev pub IsServing : List (Snapshot F) → Daemon F → Type 0
  IsServing log daemon =
      Holds codec py daemon.writer log × (daemon.collector.sequence ≡ pos (length log))

  suc_pos : (n : ℕ) (z : ℤ) → z ≡ pos n → z +ℤ pos 1 ≡ pos (suc n)
  unfolding ◌+ℤ◌
  suc_pos n z e = ground arith

  sampled_round_sequence :
      (round : Round F) (collector next : Collector F) (snapshot : Snapshot F)
      → sampled_round py arithmetic codec unicode config round collector ≡ ok (next, snapshot)
      → (snapshot.sequence ≡ collector.sequence +ℤ pos 1)
        × (next.sequence ≡ collector.sequence +ℤ pos 1)
  unfolding sampled_round
  sampled_round_sequence round collector next snapshot e =
      let (roots, read, sampled) =
        >>=-eq-ok (registered_roots py codec round.panes_file round.panes_now config.stale_ns) _
          e in
      Ensures-ok _ (sample py unicode arithmetic collector round.machine roots) (next, snapshot)
        (sample_counts py unicode arithmetic collector round.machine roots) sampled

  -- The two daemons have the same collector and the same ring.
  abbrev Keeps : Daemon F → Daemon F → Type 0
  Keeps a b = (a.writer ≡ b.writer) × (a.collector ≡ b.collector)

  continues-eq : {a b : Daemon F} → continues a ≡ continues b → a ≡ b
  continues-eq e = cc

  announced-Keeps : (daemon : Daemon F) → Keeps (announced py arithmetic codec daemon) daemon
  unfolding announced
  announced-Keeps daemon = elim (Bool-cases daemon.first) [
    | inl e ↦ rw (announced, e) (refl, refl)
    | inr e ↦ rw (announced, e) (refl, refl)
  ]

  finished-Keeps :
      (round : Round F) (daemon next : Daemon F)
      → finished py arithmetic codec config round daemon ≡ continues next
      → Keeps next daemon
  unfolding finished
  finished-Keeps round daemon next e = elim (Bool-cases config.once) [
    | inl once ↦
        let left : finished py arithmetic codec config round daemon ≡ returns 0 daemon =
          rw (finished, once) refl in
        absurd (cc)
    | inr again ↦
        let same : (record daemon {
          deadline =
              next_deadline py arithmetic daemon.deadline config.interval round.pause_now
                round.late_now;
        })
            ≡ next =
          continues-eq (sym (rw (finished, again) refl) ∙ e) in
        (ap (λ (d : Daemon F). d.writer) (sym same), ap (λ (d : Daemon F). d.collector) (sym same))
  ]

  published-Keeps :
      (round : Round F) (daemon next : Daemon F)
      → published py arithmetic codec config round daemon (ok tt) ≡ continues next
      → Keeps next daemon
  unfolding published
  published-Keeps round daemon next e =
      let (writer, collector) =
        finished-Keeps round (announced py arithmetic codec daemon) next e in
      let (same_writer, same_collector) = announced-Keeps daemon in
      (writer ∙ same_writer, collector ∙ same_collector)

  -- A round that goes on has published its sample.
  serve_round_published :
      (daemon next : Daemon F) (round : Round F) (collector : Collector F) (snapshot : Snapshot F)
      (writer : Writer)
      → sampled_round py arithmetic codec unicode config round daemon.collector
        ≡ ok (collector, snapshot)
      → publish codec py daemon.writer round.publish_now snapshot ≡ (writer, ok tt)
      → serve_round py arithmetic codec unicode config daemon round ≡ continues next
      → (next.writer ≡ writer) × (next.collector ≡ collector)
  unfolding serve_round serve_sample still_wanted published finished
  serve_round_published daemon next round collector snapshot writer sampled done e =
      elim (Bool-cases round.stopping) [
        | inl stopping ↦
            let left : serve_round py arithmetic codec unicode config daemon round
                ≡ returns 0 daemon =
              rw (serve_round, stopping) refl in
            absurd (cc)
        | inr goes_on ↦
            elim (Option-cases (still_wanted py arithmetic codec config round daemon.idle_since)) [
              | inl idle ↦
                  let left : serve_round py arithmetic codec unicode config daemon round
                      ≡ returns 0 daemon =
                    rw (serve_round, goes_on, idle) refl in
                  absurd (cc)
              | inr (idle_since, wanted) ↦
                  let step : serve_round py arithmetic codec unicode config daemon round
                      ≡ published py arithmetic codec config round
                          (record daemon {
                            idle_since = idle_since;
                            collector = collector;
                            writer = writer;
                          })
                          (ok tt) =
                    rw (serve_round, goes_on, wanted, sampled, serve_sample, done) refl in
                  published-Keeps round _ next (sym step ∙ e)
            ]
      ]

  -- After any rounds of the loop, each of which kept its sample as a record that fits and reads
  -- back, the ring holds the log of the kept snapshots, newest first, and the collector has
  -- counted as many samples as the log has snapshots.
  pub Served-IsServing :
      (laws : CodecLaws codec) (start : Daemon F) {log : List (Snapshot F)} {daemon : Daemon F}
      → IsServing [] start
      → Served start log daemon
      → IsServing log daemon
  Served-IsServing laws start h (begun e) = subst (IsServing []) (sym e) h
  Served-IsServing laws start h
        (then_served {log} {daemon} {next} before round collector snapshot kept sampled fits e) =
      let (holds, counted) = Served-IsServing laws start h before in
      let (number, count) =
        sampled_round_sequence round daemon.collector collector snapshot sampled in
      let named : snapshot.sequence ≡ pos (suc (length log)) =
        number ∙ suc_pos (length log) daemon.collector.sequence counted in
      let (writer, done, after) =
        publish-Holds codec laws py daemon.writer round.publish_now snapshot kept log holds (
          IsNext-of_IsKept codec py daemon.writer round.publish_now snapshot kept (suc (length log))
            named fits) in
      let (same_writer, same_collector) =
        serve_round_published daemon next round collector snapshot writer sampled done e in
      (
        subst (λ w. Holds codec py w (kept ∷ log)) (sym same_writer) after,
        ap (λ (c : Collector F). c.sequence) same_collector
            ∙ count
            ∙ suc_pos (length log) daemon.collector.sequence counted,
      )
