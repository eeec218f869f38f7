-- ===== src/Client/Registration.antt =====
-- The registration of panes by `TelemetryClient`: `_register_pane`, `_write_pane_roots` and
-- `register_panes` of src/kilix_telemetry/client.py, on the client's own table and the bytes of the
-- registry file. Each holds the registry lock, so each is one step.
use kilix_telemetry.Common.{
  ℤ, pos, ◌==ℤ◌, leb_ℤ, ltb_ℤ, Bool, true, false, ◌&&◌, ◌||◌, Option, List, [], ◌∷◌, map, Result,
  Exc, ok, err, value_error, os_error, if◌then◌else◌,
}
use kilix_telemetry.Sorting.{sorted}
use kilix_telemetry.Bytes.{Bytes}
use kilix_telemetry.Values.{Python}
use kilix_telemetry.Ring.{Codec}
use kilix_telemetry.Registry.{update}
use kilix_telemetry.Dict.{assign}
use kilix_telemetry.Collect.{Arithmetic}
use kilix_telemetry.Collect.Trees.{same_roots}

-- The attributes behind the registry lock.
pub record PaneBook (F : Type 0) : Type 0 where
  pub pane_roots : List (ℤ × F)
  pub registered_roots : List ℤ
  pub registered_at : F

-- What a registration meets: the environment, the client's PID, the two clocks, and the stale limit
-- of the registry as `PaneRegistry` holds it.
pub record Registering (F : Type 0) : Type 0 where
  pub disabled : Bool
  pub pid : ℤ
  pub now : F
  pub now_ns : ℤ
  pub stale_ns : ℤ

-- What is left of a call: the client's table, the registry file, and the reply.
abbrev pub Registered : Type 0 → Type 0 → Type 0
Registered F A = (PaneBook F × Option Bytes) × Result A

-- `except (OSError, ValueError)`
unfoldable pub is_write_error : Exc → Bool
is_write_error os_error = true
is_write_error value_error = true
is_write_error _ = false

-- `tuple(sorted(self._pane_roots))`
abbrev pub union_of {ℓ} : {V : Type ℓ} → List (ℤ × V) → List ℤ
union_of pane_roots = sorted (map (λ entry. entry.0) pane_roots)

-- The handler of `_write_pane_roots`.
unfoldable pub caught_write : Result (Unit {0}) → Result Bool
caught_write (ok done) = ok true
caught_write (err e) = if is_write_error e then ok false else err e

module _ {F : Type 0} (py : Python F) where
  -- The loop that deletes the roots that were seen before the horizon.
  unfoldable pub still_polled : F → List (ℤ × F) → List (ℤ × F)
  still_polled horizon [] = []
  still_polled horizon ((known, seen) ∷ rest) =
      let later = still_polled horizon rest in
      if py.lt seen horizon then later else (known, seen) ∷ later

  module _ (arithmetic : Arithmetic F) where
    -- `DEFAULT_STALE_SECONDS`
    abbrev pub default_stale_seconds : F
    default_stale_seconds = arithmetic.whole 15

    -- The table of roots with the one that is polled, less the stale ones.
    unfoldable pub polled : ℤ → F → List (ℤ × F) → List (ℤ × F)
    polled pid now pane_roots =
        still_polled (arithmetic.sub now default_stale_seconds) (assign ◌==ℤ◌ pid now pane_roots)

    -- The test for an unchanged set that was registered a short time ago.
    unfoldable pub is_registered : F → List ℤ → PaneBook F → Bool
    is_registered now union book =
        same_roots union book.registered_roots
        && py.lt (arithmetic.sub now book.registered_at)
            (arithmetic.div default_stale_seconds (arithmetic.whole 3))

  module _ (codec : Codec F) where
    -- `_write_pane_roots`, with the file that it leaves.
    unfoldable pub write_pane_roots :
        Registering F → Option Bytes → List ℤ → Option Bytes × Result Bool
    write_pane_roots env file roots =
        let (after, result) = update py codec file env.now_ns env.stale_ns env.pid roots in
        (after, caught_write result)

    -- The end of `_register_pane`, behind the write.
    unfoldable pub recorded :
        F → List ℤ → PaneBook F → Option Bytes × Result Bool → Registered F (Unit {0})
    recorded now union book (file, ok true) =
        ((record book { registered_roots = union; registered_at = now }, file), ok tt)
    recorded now union book (file, ok false) = ((book, file), ok tt)
    recorded now union book (file, err e) = ((book, file), err e)

    module _ (arithmetic : Arithmetic F) where
      -- `_register_pane` from the table of polled roots on.
      unfoldable pub register_union :
          Registering F → PaneBook F → Option Bytes → Registered F (Unit {0})
      register_union env book file =
          let union = union_of book.pane_roots in
          let written = recorded env.now union book (write_pane_roots env file union) in
          if is_registered arithmetic env.now union book then ((book, file), ok tt) else written

      -- `_register_pane` on an integer.
      unfoldable pub register_pane :
          Registering F → PaneBook F → Option Bytes → ℤ → Registered F (Unit {0})
      register_pane env book file pid =
          let next : PaneBook F = record book {
            pane_roots = polled arithmetic pid env.now book.pane_roots;
          } in
          let reply = register_union env next file in
          if env.disabled || leb_ℤ pid (pos 0) then ((book, file), ok tt) else reply

    -- The loop over the items of `register_panes`.
    unfoldable pub accepted : F → List (ℤ × F) → List ℤ → List (ℤ × F)
    accepted now roots [] = roots
    accepted now roots (pid ∷ rest) =
        let next : List (ℤ × F) = assign ◌==ℤ◌ pid now roots in
        accepted now (if ltb_ℤ (pos 0) pid then next else roots) rest

    -- The end of `register_panes`, behind the write.
    unfoldable pub replaced :
        F → List ℤ → PaneBook F → Option Bytes × Result Bool → Registered F Bool
    replaced now roots book (file, ok true) =
        let panes = accepted now [] roots in
        (
          (
            record { pane_roots = panes; registered_roots = union_of panes; registered_at = now },
            file,
          ),
          ok true,
        )
    replaced now roots book (file, ok false) = ((book, file), ok false)
    replaced now roots book (file, err e) = ((book, file), err e)

    -- `register_panes` on integers.
    unfoldable pub register_panes :
        Registering F → PaneBook F → Option Bytes → List ℤ → Registered F Bool
    register_panes env book file roots =
        let reply = replaced env.now roots book (write_pane_roots env file roots) in
        if env.disabled then ((book, file), ok false) else reply
