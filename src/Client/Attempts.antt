-- ===== src/Client/Attempts.antt =====
-- The turns of the loop of `ensure_running`: why it returns True, and that it ends at its deadline.
use kilix_telemetry.Common.{
  ℤ, leb_ℤ, ◌≡◌, refl, sym, ap, subst, ◌∙◌, ◌⊎◌, inl, inr, Bool, true, false, Option, none, some,
  List, [], ◌∷◌, arith, Result, ok, err, if◌then◌else◌, Bool-cases,
}
use kilix_telemetry.Bytes.{Memory}
use kilix_telemetry.Values.{Python}
use kilix_telemetry.Model.{Snapshot}
use kilix_telemetry.Ring.{Codec}
use kilix_telemetry.Ring.Reader.{latest}
use kilix_telemetry.Client.Current.{IsOf, fresh_reader-IsOf}
use kilix_telemetry.Mapping.{Mapped, fresh_reader}
use kilix_telemetry.Client.Startup.{
  Attempt, Turn, again, returns, raises, Start, startup_age_ns, caught_sample, sample_fresh, is_new,
  judged, turn, followed, attempts,
}

abbrev pub IsSome {ℓ} : {A : Type ℓ} → Option A → Type ℓ
IsSome x = (a : _) × (x ≡ some a)

module _ {F : Type 0} (py : Python F) (codec : Codec F) (start : Start F) where
  -- The turn finds a writer's lock held and reads, through a mapping of the file that the ring's path
  -- names, a snapshot that was taken no earlier than the start.
  abbrev pub IsNewWriter : Attempt F → Type 0
  IsNewWriter attempt =
      (attempt.active ≡ true)
      × (mapped : Mapped) × (memory : Memory) × IsOf attempt.ring mapped memory
      × (sample : Snapshot F) × (latest codec py mapped.reader memory attempt.ring_ns
            (some startup_age_ns)
          ≡ ok (some sample))
      × (leb_ℤ start.started_ns sample.monotonic_ns ≡ true)

  abbrev pub SomeNewWriter : List (Attempt F) → Type 0
  SomeNewWriter [] = ⊥
  SomeNewWriter (attempt ∷ rest) = IsNewWriter attempt ⊎ SomeNewWriter rest

  caught_sample-ok :
      (mapped : Mapped) (r : Result (Option (Snapshot F))) (reader : Option Mapped)
      (sample : Snapshot F)
      → caught_sample py codec mapped r ≡ ok (reader, some sample)
      → r ≡ ok (some sample)
  unfolding caught_sample
  caught_sample-ok mapped (ok found) reader sample e = cc
  caught_sample-ok mapped (err x) reader sample e = ground (arith, e)

  -- A sample that a turn reads is what `latest` returns through the mapping.
  sample_fresh-latest :
      (now_ns : ℤ) (fresh : Result (Option (Mapped × Memory))) (reader : Option Mapped)
      (sample : Snapshot F)
      → sample_fresh py codec now_ns fresh ≡ ok (reader, some sample)
      → (mapped : Mapped) × (memory : Memory) × (fresh ≡ ok (some (mapped, memory)))
        × (latest codec py mapped.reader memory now_ns (some startup_age_ns) ≡ ok (some sample))
  unfolding sample_fresh
  sample_fresh-latest now_ns (err x) reader sample e = absurd (cc)
  sample_fresh-latest now_ns (ok none) reader sample e = absurd (cc)
  sample_fresh-latest now_ns (ok (some (mapped, memory))) reader sample e = (
    mapped,
    memory,
    refl,
    caught_sample-ok mapped (latest codec py mapped.reader memory now_ns (some startup_age_ns))
        reader sample e,
  )

  judged-true :
      (attempt : Attempt F) (r : Result (Option Mapped × Option (Snapshot F)))
      → judged py codec start.started_ns attempt r ≡ returns true
      → (attempt.active ≡ true)
        × (reader : Option Mapped) × (sample : Snapshot F) × (r ≡ ok (reader, some sample))
        × (leb_ℤ start.started_ns sample.monotonic_ns ≡ true)
  unfolding judged is_new
  judged-true attempt (err x) e = absurd (cc)
  judged-true attempt (ok (reader, none)) e = ground (arith, e)
  judged-true attempt (ok (reader, some sample)) e =
      (ground (arith, e), reader, sample, refl, ground (arith, e))

  turn-true :
      (attempt : Attempt F) (reader : Option Mapped)
      → turn py codec start.started_ns attempt reader ≡ returns true
      → IsNewWriter attempt
  unfolding turn
  turn-true attempt reader e =
      let fresh : Result (Option (Mapped × Memory)) = fresh_reader attempt.ring reader in
      let (active, kept, sample, read, new) =
        judged-true attempt (sample_fresh py codec attempt.ring_ns fresh) e in
      let (mapped, memory, through, found) =
        sample_fresh-latest attempt.ring_ns fresh kept sample read in
      (
        active,
        mapped,
        memory,
        fresh_reader-IsOf attempt.ring reader mapped memory through,
        sample,
        found,
        new,
      )

  followed-true :
      (attempt : Attempt F) (rest : List (Attempt F)) (reader : Option Mapped)
      (more : Option Mapped → Option (Result Bool)) (t : Turn)
      → turn py codec start.started_ns attempt reader ≡ t
      → ((kept : Option Mapped)
          → more kept ≡ some (ok true)
          → (start.last_active ≡ true) ⊎ SomeNewWriter rest)
      → followed py codec more t ≡ some (ok true)
      → (start.last_active ≡ true) ⊎ SomeNewWriter (attempt ∷ rest)
  unfolding followed
  followed-true attempt rest reader more (again kept) t later e = elim (later kept e) [
    | inl last ↦ inl last
    | inr new ↦ inr (inr new)
  ]
  followed-true attempt rest reader more (returns reply) t later e =
      let replied : reply ≡ true = cc in
      inr (inl (turn-true attempt reader (t ∙ ap returns replied)))
  followed-true attempt rest reader more (raises x) t later e = absurd (cc)

  pub attempts-true :
      (turns : List (Attempt F)) (reader : Option Mapped)
      → attempts py codec start turns reader ≡ some (ok true)
      → (start.last_active ≡ true) ⊎ SomeNewWriter turns
  unfolding attempts
  attempts-true [] reader e = absurd (cc)
  attempts-true (attempt ∷ rest) reader e =
      let next : Option (Result Bool) =
        followed py codec (λ kept. attempts py codec start rest kept)
          (turn py codec start.started_ns attempt reader) in
      elim (Bool-cases (py.lt attempt.now start.deadline)) [
        | inl early ↦
            followed-true attempt rest reader (λ kept. attempts py codec start rest kept)
              (turn py codec start.started_ns attempt reader) refl
              (λ kept h. attempts-true rest kept h)
              (subst (λ b. (if b then next else some (ok start.last_active)) ≡ some (ok true)) early
                e)
        | inr late ↦
            let last : some (ok start.last_active) ≡ some (ok true) =
              subst (λ b. (if b then next else some (ok start.last_active)) ≡ some (ok true)) late
                e in
            inl (cc)
      ]

  -- The clock of some turn has reached the deadline.
  abbrev pub SomeLate : List (Attempt F) → Type 0
  SomeLate [] = ⊥
  SomeLate (attempt ∷ rest) = (py.lt attempt.now start.deadline ≡ false) ⊎ SomeLate rest

  followed-IsSome :
      (more : Option Mapped → Option (Result Bool)) (t : Turn)
      → ((kept : Option Mapped) → IsSome (more kept))
      → IsSome (followed py codec more t)
  unfolding followed
  followed-IsSome more (again kept) h = h kept
  followed-IsSome more (returns reply) h = (ok reply, refl)
  followed-IsSome more (raises x) h = (err x, refl)

  -- The loop ends at the deadline.
  pub attempts-IsSome :
      (turns : List (Attempt F)) (reader : Option Mapped)
      → SomeLate turns
      → IsSome (attempts py codec start turns reader)
  unfolding attempts
  attempts-IsSome [] reader late = absurd late
  attempts-IsSome (attempt ∷ rest) reader late =
      let next : Option (Result Bool) =
        followed py codec (λ kept. attempts py codec start rest kept)
          (turn py codec start.started_ns attempt reader) in
      let back : (b : Bool)
          → py.lt attempt.now start.deadline ≡ b
          → IsSome (if b then next else some (ok start.last_active))
          → IsSome (attempts py codec start (attempt ∷ rest) reader) =
        λ b e. subst (λ c. IsSome (if c then next else some (ok start.last_active))) (sym e) in
      elim late [
        | inl now ↦ back false now (ok start.last_active, refl)
        | inr later ↦ elim (Bool-cases (py.lt attempt.now start.deadline)) [
          | inr now ↦ back false now (ok start.last_active, refl)
          | inl early ↦ back true early (
              followed-IsSome (λ kept. attempts py codec start rest kept)
                (turn py codec start.started_ns attempt reader)
                (λ kept. attempts-IsSome rest kept later))
        ]
      ]
