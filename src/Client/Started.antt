-- ===== src/Client/Started.antt =====
-- When `ensure_running` says that a writer runs, and when it ends the process that it started.
use kilix_telemetry.Common.{
  ◌≡◌, refl, sym, ap, subst, ◌∙◌, ◌≢◌, ◌⊎◌, inl, inr, Bool, true, false, Option, none, some, List,
  Result, Exc, ok, err, if◌then◌else◌, Bool-cases,
}
use kilix_telemetry.Bytes.{Bytes}
use kilix_telemetry.Values.{Python}
use kilix_telemetry.Ring.{Codec}
use kilix_telemetry.Consumers.{register}
use kilix_telemetry.Client.Startup.{
  Attempt, Start, Startup, attempts, ended, finished_start, started_writer, ensure_running,
}
use kilix_telemetry.Client.Attempts.{
  IsSome, SomeNewWriter, SomeLate, attempts-true, attempts-IsSome,
}

module _ {F : Type 0} (py : Python F) (codec : Codec F) (start : Start F) where
  -- No process was started: the environment, the registry, the command or the system did not allow it.
  abbrev pub IsUnstarted : Type 0
  IsUnstarted =
      (start.disabled ≡ true)
      ⊎ ((start.has_command ≡ false)
          ⊎ ((start.spawned ≡ false)
              ⊎ ((e : Exc) × ((register py start.process_identity codec start.consumers_file
                      start.owner_pid).1
                    ≡ err e))))

  -- What a start comes to: a positive reply has a reason, and the process that was started is
  -- signalled exactly if it runs and the reply is not positive.
  abbrev pub IsStarted : List (Attempt F) → Startup → Type 0
  IsStarted turns startup =
      (startup.reply ≡ ok true
        → (start.active ≡ true) ⊎ ((start.last_active ≡ true) ⊎ SomeNewWriter py codec start turns))
      × (startup.terminated ≡ true
          → (startup.reply ≢ ok true)
            × (start.running ≡ true)
            × (start.spawned ≡ true)
            × (start.active ≡ false))
      × ((startup.terminated ≡ true)
          ⊎ ((startup.reply ≡ ok true) ⊎ ((start.running ≡ false) ⊎ IsUnstarted)))

  -- A property of the value, if there is one.
  abbrev pub IfSome {ℓ κ} : {A : Type ℓ} → (A → Type κ) → Option A → Type κ
  IfSome P none = Unit
  IfSome P (some a) = P a

  -- A process that runs is signalled, and any other has ended.
  signalled :
      {reply : Result Bool}
      → (start.running ≡ true) ⊎ ((reply ≡ ok true) ⊎ ((start.running ≡ false) ⊎ IsUnstarted))
  signalled {reply} = elim (Bool-cases start.running) [
    | inl running ↦ inl running
    | inr ended ↦ inr (inr (inl ended))
  ]

  ended-IsStarted :
      (turns : List (Attempt F)) (file : Option Bytes) (reply : Result Bool)
      → start.active ≡ false
      → start.spawned ≡ true
      → attempts py codec start turns none ≡ some reply
      → IsStarted turns (ended py codec start file reply)
  unfolding ended
  ended-IsStarted turns file (ok true) idle spawned e =
      (λ h. inr (attempts-true py codec start turns none e), λ h. absurd (cc), inr (inl refl))
  ended-IsStarted turns file (ok false) idle spawned e =
      (λ h. absurd (cc), λ h. (λ u. absurd (cc), h, spawned, idle), signalled)
  ended-IsStarted turns file (err x) idle spawned e =
      (λ h. absurd (cc), λ h. (λ u. absurd (cc), h, spawned, idle), signalled)

  -- A reply without a process.
  refused-IsStarted :
      (turns : List (Attempt F)) (file : Option Bytes)
      → IsUnstarted
      → IsStarted turns (record { consumers_file = file; reply = ok false; terminated = false })
  refused-IsStarted turns file unstarted =
      (λ h. absurd (cc), λ h. absurd (cc), inr (inr (inr unstarted)))

  looped-IsStarted :
      (turns : List (Attempt F)) (file : Option Bytes)
      → start.active ≡ false
      → start.spawned ≡ true
      → (looped : Option (Result Bool)) → attempts py codec start turns none ≡ looped
      → IfSome (IsStarted turns) (finished_start py codec start file looped)
  unfolding finished_start
  looped-IsStarted turns file idle spawned none e = tt
  looped-IsStarted turns file idle spawned (some reply) e =
      ended-IsStarted turns file reply idle spawned e

  started_writer-IsStarted :
      (turns : List (Attempt F)) (file : Option Bytes) (r : Result (Unit {0}))
      → (register py start.process_identity codec start.consumers_file start.owner_pid).1 ≡ r
      → IfSome (IsStarted turns) (started_writer py codec start turns file r)
  unfolding started_writer
  started_writer-IsStarted turns file (err x) registered =
      refused-IsStarted turns file (inr (inr (inr (x, registered))))
  started_writer-IsStarted turns file (ok done) registered =
      let P : Option Startup → Type 0 = IfSome (IsStarted turns) in
      let of : (s : Option Startup)
          → started_writer py codec start turns file (ok done) ≡ s
          → P s
          → P (started_writer py codec start turns file (ok done)) =
        λ s e p. subst P (sym e) p in
      elim (Bool-cases start.active) [
        | inl a ↦
            of (some (record { consumers_file = file; reply = ok true; terminated = false }))
              (rw (started_writer, a) refl) (λ h. inl a, λ h. absurd (cc), inr (inl refl))
        | inr a ↦ elim (Bool-cases start.has_command) [
          | inr c ↦
              of (some (record { consumers_file = file; reply = ok false; terminated = false }))
                (rw (started_writer, a, c) refl) (refused-IsStarted turns file (inr (inl c)))
          | inl c ↦ elim (Bool-cases start.spawned) [
            | inr p ↦
                of (some (record { consumers_file = file; reply = ok false; terminated = false }))
                  (rw (started_writer, a, c, p) refl)
                  (refused-IsStarted turns file (inr (inr (inl p))))
            | inl p ↦
                of (finished_start py codec start file (attempts py codec start turns none))
                  (rw (started_writer, a, c, p) refl)
                  (looped-IsStarted turns file a p (attempts py codec start turns none) refl)
          ]
        ]
      ]

  finished_start-IsSome :
      (file : Option Bytes) (looped : Option (Result Bool))
      → IsSome looped
      → IsSome (finished_start py codec start file looped)
  unfolding finished_start
  finished_start-IsSome file none h = absurd (cc)
  finished_start-IsSome file (some reply) h = (ended py codec start file reply, refl)

  started_writer-IsSome :
      (turns : List (Attempt F)) (file : Option Bytes) (r : Result (Unit {0}))
      → SomeLate py codec start turns
      → IsSome (started_writer py codec start turns file r)
  unfolding started_writer
  started_writer-IsSome turns file (err x) late = (_, refl)
  started_writer-IsSome turns file (ok done) late =
      let (looped, e) =
        finished_start-IsSome file (attempts py codec start turns none)
          (attempts-IsSome py codec start turns none late) in
      let reply : Bool → Startup =
        λ b. record { consumers_file = file; reply = ok b; terminated = false } in
      elim (Bool-cases start.active) [
        | inl a ↦ (reply true, rw (started_writer, a) refl)
        | inr a ↦ elim (Bool-cases start.has_command) [
          | inr c ↦ (reply false, rw (started_writer, a, c) refl)
          | inl c ↦ elim (Bool-cases start.spawned) [
            | inr p ↦ (reply false, rw (started_writer, a, c, p) refl)
            | inl p ↦
                let reached : started_writer py codec start turns file (ok done)
                    ≡ finished_start py codec start file (attempts py codec start turns none) =
                  rw (started_writer, a, c, p) refl in
                (looped, reached ∙ e)
          ]
        ]
      ]

  -- Where the clock of some turn has reached the deadline, `ensure_running` ends. It returns
  -- True only if the writer's lock was held before the start or behind the loop, or in a turn
  -- that also read, through a mapping of the file that the ring's path names, a fresh snapshot
  -- taken no earlier than the start. It signals a process only if it started it with no writer
  -- there, the process still runs, and the reply is not True. Where the reply is not True, the
  -- process that it started is signalled if it still runs.
  pub ensure_running-IsStarted :
      (turns : List (Attempt F))
      → SomeLate py codec start turns
      → (startup : Startup) × (ensure_running py codec start turns ≡ some startup)
        × IsStarted turns startup
  unfolding ensure_running
  ensure_running-IsStarted turns late =
      let (file, result) : Option Bytes × Result (Unit {0}) =
        register py start.process_identity codec start.consumers_file start.owner_pid in
      let (startup, e) = started_writer-IsSome turns file result late in
      let reasons : IfSome (IsStarted turns) (some startup) =
        subst (IfSome (IsStarted turns)) e (started_writer-IsStarted turns file result refl) in
      let refused : Startup = record {
        consumers_file = start.consumers_file;
        reply = ok false;
        terminated = false;
      } in
      elim (Bool-cases start.disabled) [
        | inl d ↦ (
          refused,
          ap (λ b. if b then some refused else started_writer py codec start turns file result) d,
          refused-IsStarted turns start.consumers_file (inl d),
        )
        | inr d ↦ (
          startup,
          ap (λ b. if b then some refused else started_writer py codec start turns file result) d
              ∙ e,
          reasons,
        )
      ]
