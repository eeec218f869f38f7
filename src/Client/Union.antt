-- ===== src/Client/Union.antt =====
-- What `_register_pane` of src/kilix_telemetry/client.py leaves: the client's table of polled roots, its
-- account of what it registered, and the bytes of the registry file.
use kilix_telemetry.Common.{
  ℤ, pos, ◌≤ℤ◌, ◌==ℤ◌, ==ℤ_iff, leb_ℤ, ◌≡◌, ◌≢◌, ◌↔◌, refl, sym, ap, subst, ◌∙◌, ◌⊎◌, inl, inr,
  Bool, true, false, Option, some, List, All, arith, Result, Exc, ok, err, if◌then◌else◌,
  Bool-cases,
}
use kilix_telemetry.IntSet.{IsDistinct}
use kilix_telemetry.Bytes.{Bytes}
use kilix_telemetry.Values.{Python}
use kilix_telemetry.Ring.{Codec}
use kilix_telemetry.Registry.{update}
use kilix_telemetry.Dict.{lookup, assign, lookup-assign, lookup-assign_other}
use kilix_telemetry.Collect.{Arithmetic}
use kilix_telemetry.Client.Registration.{
  PaneBook, Registering, Registered, union_of, caught_write, is_write_error, default_stale_seconds,
  polled, is_registered, write_pane_roots, recorded, register_union, register_pane,
}
use kilix_telemetry.Client.Polled.{
  keys, IsRecent, same_roots-eq, keys-assign-IsDistinct, still_polled-IsRecent, lookup-still_polled,
  lookup-still_polled_inv, still_polled-IsDistinct,
}

module _ {F : Type 0} (py : Python F) where
  module _ (arithmetic : Arithmetic F) (codec : Codec F) where
    -- How the registry and the client's account of it stand after a registration: the union was
    -- registered a short time ago, or it has been now, or the registry could not be written.
    abbrev pub IsSettled :
        Registering F → PaneBook F → Option Bytes → Registered F (Unit {0}) → Type 0
    IsSettled env before file ((book, after), reply) =
        let union = union_of book.pane_roots in
        ((after ≡ file)
          × (reply ≡ ok tt)
          × (book.registered_roots ≡ union)
          × (book.registered_at ≡ before.registered_at)
          × (py.lt (arithmetic.sub env.now before.registered_at)
                (arithmetic.div (default_stale_seconds py arithmetic) (arithmetic.whole 3))
              ≡ true))
        ⊎ ((update py codec file env.now_ns env.stale_ns env.pid union ≡ (after, ok tt))
            × (reply ≡ ok tt)
            × (book.registered_roots ≡ union)
            × (book.registered_at ≡ env.now))
        ⊎ ((e : Exc) × (update py codec file env.now_ns env.stale_ns env.pid union ≡ (after, err e))
            × (book.registered_roots ≡ before.registered_roots)
            × (book.registered_at ≡ before.registered_at)
            × (reply ≡ (if is_write_error e then ok tt else err e)))

    abbrev pub horizon_of : Registering F → F
    horizon_of env = arithmetic.sub env.now (default_stale_seconds py arithmetic)

    -- The table behind a registration: the root that was polled is in it with the time, every other
    -- root is in it with its time exactly if it was there and not before the horizon, and none is
    -- listed twice.
    abbrev pub IsPolled : Registering F → ℤ → List (ℤ × F) → List (ℤ × F) → Type 0
    IsPolled env pid old new =
        (lookup ◌==ℤ◌ pid new ≡ some env.now)
        × ((key : ℤ) (seen : F)
            → key ≢ pid
            → (lookup ◌==ℤ◌ key new ≡ some seen)
              ↔ ((lookup ◌==ℤ◌ key old ≡ some seen) × (py.lt seen (horizon_of env) ≡ false)))
        × All (IsRecent py (horizon_of env)) new
        × IsDistinct (keys new)

    polled-IsPolled :
        (env : Registering F) (old : List (ℤ × F)) (pid : ℤ)
        → py.lt env.now (horizon_of env) ≡ false
        → IsDistinct (keys old)
        → IsPolled env pid old (polled py arithmetic pid env.now old)
    unfolding polled
    polled-IsPolled env old pid early distinct =
        let horizon : F = horizon_of env in
        let noted : List (ℤ × F) = assign ◌==ℤ◌ pid env.now old in
        let once : IsDistinct (keys noted) = keys-assign-IsDistinct pid env.now old distinct in
        (
          lookup-still_polled py horizon pid env.now noted early
              (lookup-assign ◌==ℤ◌ ==ℤ_iff pid env.now old),
          λ key seen differs.
              let same : lookup ◌==ℤ◌ key noted ≡ lookup ◌==ℤ◌ key old =
                lookup-assign_other ◌==ℤ◌ ==ℤ_iff key pid env.now old (λ e. differs (sym e)) in
              (
                λ e.
                    let (found, recent) =
                      lookup-still_polled_inv py horizon key seen noted once e in
                    (sym same ∙ found, recent),
                λ (found, recent).
                    lookup-still_polled py horizon key seen noted recent (same ∙ found),
              ),
          still_polled-IsRecent py horizon noted,
          still_polled-IsDistinct py horizon noted once,
        )

    recorded-IsSettled :
        (env : Registering F) (book : PaneBook F) (file after : Option Bytes)
        (r : Result (Unit {0}))
        → update py codec file env.now_ns env.stale_ns env.pid (union_of book.pane_roots)
          ≡ (after, r)
        → IsSettled env book file
            (recorded py codec env.now (union_of book.pane_roots) book (after, caught_write r))
    unfolding recorded caught_write
    recorded-IsSettled env book file after (ok done) e = inr (inl (e, refl, refl, refl))
    recorded-IsSettled env book file after (err x) e = elim (Bool-cases (is_write_error x)) [
      | inl w ↦ rw w (inr (inr (x, e, refl, refl, rw w refl)))
      | inr w ↦ rw w (inr (inr (x, e, refl, refl, rw w refl)))
    ]

    is_registered-eq :
        (now : F) (union : List ℤ) (book : PaneBook F)
        → is_registered py arithmetic now union book ≡ true
        → (book.registered_roots ≡ union)
          × (py.lt
                (arithmetic.sub now book.registered_at)
                (arithmetic.div (default_stale_seconds py arithmetic) (arithmetic.whole 3))
              ≡ true)
    unfolding is_registered
    is_registered-eq now union book e =
        (sym (same_roots-eq union book.registered_roots (ground arith)), ground arith)

    written-IsSettled :
        (env : Registering F) (book : PaneBook F) (file : Option Bytes)
        → IsSettled env book file (
            recorded py codec env.now
              (union_of book.pane_roots)
              book
              (write_pane_roots py codec env file (union_of book.pane_roots)))
    unfolding write_pane_roots
    written-IsSettled env book file =
        recorded-IsSettled env book file
          (update py codec file env.now_ns env.stale_ns env.pid (union_of book.pane_roots)).0
          (update py codec file env.now_ns env.stale_ns env.pid (union_of book.pane_roots)).1 refl

    register_union-IsSettled :
        (env : Registering F) (book : PaneBook F) (file : Option Bytes)
        → IsSettled env book file (register_union py codec arithmetic env book file)
    unfolding register_union
    register_union-IsSettled env book file =
        let union : List ℤ = union_of book.pane_roots in
        elim (Bool-cases (is_registered py arithmetic env.now union book)) [
          | inl e ↦
              let (same, recent) = is_registered-eq env.now union book e in
              rw (register_union, e) (inl (refl, refl, same, refl, recent))
          | inr e ↦ rw (register_union, e) (written-IsSettled env book file)
        ]

    recorded-pane_roots :
        (now : F) (union : List ℤ) (book : PaneBook F) (written : Option Bytes × Result Bool)
        → (recorded py codec now union book written).0.0.pane_roots ≡ book.pane_roots
    unfolding recorded
    recorded-pane_roots now union book (file, ok true) = refl
    recorded-pane_roots now union book (file, ok false) = refl
    recorded-pane_roots now union book (file, err e) = refl

    register_union-pane_roots :
        (env : Registering F) (book : PaneBook F) (file : Option Bytes)
        → (register_union py codec arithmetic env book file).0.0.pane_roots ≡ book.pane_roots
    unfolding register_union
    register_union-pane_roots env book file =
        let union : List ℤ = union_of book.pane_roots in
        elim (Bool-cases (is_registered py arithmetic env.now union book)) [
          | inl e ↦ rw (register_union, e) refl
          | inr e ↦
              rw (register_union, e)
                (recorded-pane_roots env.now union book (write_pane_roots py codec env file union))
        ]

    -- Where registration is not disabled, for a positive PID, a table without repetitions, and
    -- a clock at which now is not before the horizon: `_register_pane` leaves the PID in the
    -- table with the time, every other root exactly if it was there with its time and that is
    -- not before the horizon, and none twice. The client's account of the registry is the union
    -- of that table, registered less than a third of the stale limit ago with the file
    -- unchanged or written by `update` now, or the update raised and the account is as it was.
    pub register_pane-IsSettled :
        (env : Registering F) (book : PaneBook F) (file : Option Bytes) (pid : ℤ)
        → env.disabled ≡ false
        → pos 1 ≤ℤ pid
        → IsDistinct (keys book.pane_roots)
        → py.lt env.now (horizon_of env) ≡ false
        → IsPolled env pid book.pane_roots
            (register_pane py codec arithmetic env book file pid).0.0.pane_roots
          × IsSettled env book file (register_pane py codec arithmetic env book file pid)
    unfolding register_pane
    register_pane-IsSettled env book file pid enabled above distinct early =
        let next : PaneBook F = record book {
          pane_roots = polled py arithmetic pid env.now book.pane_roots;
        } in
        let positive : leb_ℤ pid (pos 0) ≡ false = ground arith in
        let reached : register_pane py codec arithmetic env book file pid
            ≡ register_union py codec arithmetic env next file =
          rw (register_pane, enabled, positive) refl in
        let table : (register_pane py codec arithmetic env book file pid).0.0.pane_roots
            ≡ next.pane_roots =
          ap (λ r. r.0.0.pane_roots) reached ∙ register_union-pane_roots env next file in
        (
          subst (IsPolled env pid book.pane_roots) (sym table)
              (polled-IsPolled env book.pane_roots pid early distinct),
          subst (IsSettled env book file) (sym reached) (register_union-IsSettled env next file),
        )
