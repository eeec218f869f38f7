-- ===== src/Client/Panes.antt =====
-- `TelemetryClient.pane` of src/kilix_telemetry/client.py: the registration of the pane, the
-- snapshot, and the pane of it.
use kilix_telemetry.Common.{
  ℤ, pos, max_ℤ, ◌≡◌, refl, subst, sym, false, Option, none, some, [], ◌∷◌, Result, ok, err,
}
use kilix_telemetry.Bytes.{Bytes}
use kilix_telemetry.Values.{Python}
use kilix_telemetry.Values.Laws.{Ensures}
use kilix_telemetry.Model.{Snapshot, PaneMetrics}
use kilix_telemetry.Panes.{empty_pane, pane}
use kilix_telemetry.Panes.Aggregate.{pane_returns}
use kilix_telemetry.Ring.{Codec}
use kilix_telemetry.Text.{Unicode}
use kilix_telemetry.Collect.{Arithmetic}
use kilix_telemetry.Client.{Client, Options, Poll, or_sample, snapshot}
use kilix_telemetry.Client.Registration.{PaneBook, Registering, Registered, register_pane}

-- A client with its account of the registry, and the registry file.
pub record Session (F : Type 0) : Type 0 where
  pub client : Client F
  pub book : PaneBook F
  pub panes_file : Option Bytes

module _ {F : Type 0} (py : Python F) (arithmetic : Arithmetic F) (codec : Codec F)
    (unicode : Unicode) where
  -- The return of `pane`: of the snapshot, or with no process where there is none.
  unfoldable pub pane_reply : ℤ → Option (Snapshot F) → Result (PaneMetrics F)
  pane_reply root_pid none = ok (empty_pane py (max_ℤ (pos 0) root_pid))
  pane_reply root_pid (some found) = pane py found root_pid

  unfoldable pub sampled_pane :
      ℤ → Client F × Result (Option (Snapshot F)) → Client F × Result (PaneMetrics F)
  sampled_pane root_pid (client, err e) = (client, err e)
  sampled_pane root_pid (client, ok shown) = (client, pane_reply root_pid shown)

  -- `pane` behind the snapshot.
  unfoldable pub pane_of_snapshot :
      Options
      → Poll F
      → ℤ
      → Client F × Result (Option (Snapshot F))
      → Client F × Result (PaneMetrics F)
  pane_of_snapshot options poll root_pid (client, err e) = (client, err e)
  pane_of_snapshot options poll root_pid (client, ok found) =
      sampled_pane root_pid
        (or_sample py arithmetic codec unicode options poll (root_pid ∷ []) client found)

  -- `pane` behind the registration.
  unfoldable pub registered_pane :
      Options → Poll F → ℤ → Client F → Registered F (Unit {0}) → Session F × Result (PaneMetrics F)
  registered_pane options poll root_pid client ((book, file), err e) =
      (record { client = client; book = book; panes_file = file }, err e)
  registered_pane options poll root_pid client ((book, file), ok done) =
      let (state, reply) =
        snapshot py arithmetic codec unicode (record options { fallback = false }) poll client in
      let (after, result) = pane_of_snapshot options poll root_pid (state.0, reply) in
      (record { client = after; book = book; panes_file = file }, result)

  -- `pane`
  unfoldable pub client_pane :
      Options → Poll F → Registering F → Session F → ℤ → Session F × Result (PaneMetrics F)
  client_pane options poll env session root_pid =
      registered_pane options poll root_pid session.client
        (register_pane py codec arithmetic env session.book session.panes_file root_pid)

  pane_reply-root :
      (root_pid : ℤ) (found : Option (Snapshot F))
      → (result : PaneMetrics F) × (pane_reply root_pid found ≡ ok result)
        × (result.root_pid ≡ max_ℤ (pos 0) root_pid)
  unfolding pane_reply empty_pane
  pane_reply-root root_pid none = (empty_pane py (max_ℤ (pos 0) root_pid), refl, refl)
  pane_reply-root root_pid (some found) = pane_returns py found root_pid

  -- A pane of the root that was asked for.
  abbrev IsFor : ℤ → Session F × Result (PaneMetrics F) → Type 0
  IsFor root_pid r = Ensures (λ p. p.root_pid ≡ max_ℤ (pos 0) root_pid) r.1

  sampled_pane-IsFor :
      (root_pid : ℤ) (r : Client F × Result (Option (Snapshot F)))
      → Ensures (λ p. p.root_pid ≡ max_ℤ (pos 0) root_pid) (sampled_pane root_pid r).1
  unfolding sampled_pane
  sampled_pane-IsFor root_pid (client, err e) = tt
  sampled_pane-IsFor root_pid (client, ok shown) =
      let (result, e, same) = pane_reply-root root_pid shown in
      subst (Ensures (λ p. p.root_pid ≡ max_ℤ (pos 0) root_pid)) (sym e) same

  pane_of_snapshot-IsFor :
      (options : Options) (poll : Poll F) (root_pid : ℤ)
      (answer : Client F × Result (Option (Snapshot F)))
      → Ensures
          (λ p. p.root_pid ≡ max_ℤ (pos 0) root_pid)
          (pane_of_snapshot options poll root_pid answer).1
  unfolding pane_of_snapshot
  pane_of_snapshot-IsFor options poll root_pid (client, err e) = tt
  pane_of_snapshot-IsFor options poll root_pid (client, ok found) = sampled_pane-IsFor root_pid _

  registered_pane-IsFor :
      (options : Options) (poll : Poll F) (root_pid : ℤ) (client : Client F)
      (r : Registered F (Unit {0}))
      → IsFor root_pid (registered_pane options poll root_pid client r)
  unfolding registered_pane
  registered_pane-IsFor options poll root_pid client ((book, file), err e) = tt
  registered_pane-IsFor options poll root_pid client ((book, file), ok done) =
      pane_of_snapshot-IsFor options poll root_pid _

  -- Whatever the registry, the ring and the machine hold, `TelemetryClient.pane` raises, or
  -- returns a pane of the root that was asked for, with 0 for a negative one.
  pub client_pane-IsFor :
      (options : Options) (poll : Poll F) (env : Registering F) (session : Session F) (root_pid : ℤ)
      → IsFor root_pid (client_pane options poll env session root_pid)
  unfolding client_pane
  client_pane-IsFor options poll env session root_pid =
      registered_pane-IsFor options poll root_pid session.client _
