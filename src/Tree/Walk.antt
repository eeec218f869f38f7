-- ===== src/Tree/Walk.antt =====
-- The loop of `_descendant_pids` ends, and selects what its parent-to-children map leads to.
use kilix_telemetry.Common.{
  ℕ, zero, suc, ℤ, ◌+◌, ◌≤◌, ==ℤ_iff, ◌≡◌, refl, sym, ap, subst, ◌↔◌, ◌⊎◌, inl, inr, true, false,
  some, List, [], ◌∷◌, arith, if◌then◌else◌, length, Bool-cases,
}
use kilix_telemetry.IntSet.{
  contains, extend, IsDistinct, contains-cons, contains-extend, length-extend,
}
use kilix_telemetry.Tree.{Children, children_of, walk, child_count, descendant_pids}

-- The entries of the map that are still to be pushed: those of keys not yet selected.
unpushed : List ℤ → Children → ℕ
unpushed selected [] = 0
unpushed selected ((key, pids) ∷ rest) =
    (if contains key selected then 0 else length pids) + unpushed selected rest

unpushed-cons-le :
    (pid : ℤ) (selected : List ℤ) (children : Children)
    → unpushed (pid ∷ selected) children ≤ unpushed selected children
unfolding unpushed
unpushed-cons-le pid selected [] = omega arith
unpushed-cons-le pid selected ((key, pids) ∷ rest) =
    ground (arith, unpushed-cons-le pid selected rest, contains-cons key pid selected)

-- Selecting a key takes its children off the count.
unpushed-cons :
    (pid : ℤ) (selected : List ℤ) (children : Children)
    → contains pid selected ≡ false
    → unpushed (pid ∷ selected) children + length (children_of pid children)
      ≤ unpushed selected children
unfolding unpushed children_of
unpushed-cons pid selected [] h = omega arith
unpushed-cons pid selected ((key, pids) ∷ rest) h = ground (
  arith,
  unpushed-cons pid selected rest h,
  unpushed-cons-le pid selected rest,
  contains-cons key pid selected,
  ==ℤ_iff key pid,
  ap (λ (k : ℤ). contains k selected),
)

unpushed-nil : (children : Children) → unpushed [] children ≡ child_count children
unfolding unpushed child_count contains
unpushed-nil [] = refl
unpushed-nil ((key, pids) ∷ rest) = ap (λ n. length pids + n) (unpushed-nil rest)

module _ (live : List ℤ) (children : Children) (roots : List ℤ) where
  -- What the map leads to from the listed roots that are live, along live children.
  pub data Reaches : ℤ → Type 0 where
    root : {v : ℤ} → contains v roots ≡ true → contains v live ≡ true → Reaches v
    child :
        {u v : ℤ}
        → Reaches u
        → contains v (children_of u children) ≡ true
        → contains v live ≡ true
        → Reaches v

  record Inv (selected pending : List ℤ) : Type 0 where
    distinct : IsDistinct selected
    sound : (v : ℤ) → contains v selected ≡ true → Reaches v
    offered : (v : ℤ) → contains v pending ≡ true → contains v live ≡ true → Reaches v
    rooted :
        (v : ℤ)
        → contains v roots ≡ true
        → contains v live ≡ true
        → (contains v pending ≡ true) ⊎ (contains v selected ≡ true)
    closed :
        (u v : ℤ)
        → contains u selected ≡ true
        → contains v (children_of u children) ≡ true
        → contains v live ≡ true
        → (contains v pending ≡ true) ⊎ (contains v selected ≡ true)

  in_roots : (v : ℤ) → contains v (extend roots []) ≡ true → contains v roots ≡ true
  unfolding contains
  in_roots v p = ground (arith, contains-extend v roots [])

  Inv-start : Inv [] (extend roots [])
  unfolding contains
  Inv-start = record {
    distinct = tt;
    sound = λ v h. cc;
    offered = λ v p l. root (in_roots v p) l;
    rooted = λ v r l. inl ((contains-extend v roots []).1 (inl r));
    closed = λ u v s c l. cc;
  }

  module _ (pid : ℤ) (selected pending : List ℤ) (h : Inv selected (pid ∷ pending)) where
    -- What waits or is selected still does when `pid` is dropped.
    kept_by_skip :
        (contains pid selected ≡ true) ⊎ (contains pid live ≡ false)
        → (v : ℤ) → contains v live ≡ true
        → (contains v (pid ∷ pending) ≡ true) ⊎ (contains v selected ≡ true)
        → (contains v pending ≡ true) ⊎ (contains v selected ≡ true)
    kept_by_skip skip v l at = ground (
      arith,
      contains-cons v pid pending,
      ap (λ (k : ℤ). contains k selected) {x = v} {y = pid},
      ap (λ (k : ℤ). contains k live) {x = v} {y = pid},
    )

    Inv-skip : (contains pid selected ≡ true) ⊎ (contains pid live ≡ false) → Inv selected pending
    Inv-skip skip = record {
      distinct = h.distinct;
      sound = h.sound;
      offered = λ v p. h.offered v ((contains-cons v pid pending).1 (inr p));
      rooted = λ v r l. kept_by_skip skip v l (h.rooted v r l);
      closed = λ u v s c l. kept_by_skip skip v l (h.closed u v s c l);
    }

    visited : List ℤ
    visited = extend (children_of pid children) pending

    kept_by_visit :
        (v : ℤ)
        → (contains v (pid ∷ pending) ≡ true) ⊎ (contains v selected ≡ true)
        → (contains v visited ≡ true) ⊎ (contains v (pid ∷ selected) ≡ true)
    unfolding visited
    kept_by_visit v at = ground (
      arith,
      contains-cons v pid pending,
      contains-cons v pid selected,
      contains-extend v (children_of pid children) pending,
    )

    child_of_visited :
        (u v : ℤ) → u ≡ pid → contains v (children_of u children) ≡ true → contains v visited ≡ true
    unfolding visited
    child_of_visited u v e c =
        (contains-extend v (children_of pid children) pending).1
          (inl (subst (λ k. contains v (children_of k children) ≡ true) e c))

    Inv-visit :
        contains pid selected ≡ false → contains pid live ≡ true → Inv (pid ∷ selected) visited
    unfolding visited
    Inv-visit fresh alive =
        let here = h.offered pid ((contains-cons pid pid pending).1 (inl refl)) alive in
        record {
          distinct = (fresh, h.distinct);
          sound = λ v s. elim ((contains-cons v pid selected).0 s) [
            | inl e ↦ subst Reaches (sym e) here
            | inr old ↦ h.sound v old
          ];
          offered = λ v p l. elim ((contains-extend v (children_of pid children) pending).0 p) [
            | inl c ↦ child here c l
            | inr old ↦ h.offered v ((contains-cons v pid pending).1 (inr old)) l
          ];
          rooted = λ v r l. kept_by_visit v (h.rooted v r l);
          closed = λ u v s c l. elim ((contains-cons u pid selected).0 s) [
            | inl e ↦ inl (child_of_visited u v e c)
            | inr old ↦ kept_by_visit v (h.closed u v old c l)
          ];
        }

  -- With enough fuel the loop ends with nothing pending, and the invariant holds there.
  walk_ends :
      (fuel : ℕ) (selected pending : List ℤ)
      → Inv selected pending
      → length pending + unpushed selected children ≤ fuel
      → (t : List ℤ) × (walk live children fuel selected pending ≡ some t) × Inv t []
  unfolding walk
  walk_ends zero selected [] h m = (selected, refl, h)
  walk_ends zero selected (pid ∷ pending) h m = absurd (omega arith)
  walk_ends (suc fuel) selected [] h m = (selected, refl, h)
  walk_ends (suc fuel) selected (pid ∷ pending) h m = elim (Bool-cases (contains pid selected)) [
    | inl old ↦
        let (t, e, i) =
          walk_ends fuel selected pending (Inv-skip pid selected pending h (inl old))
            (omega arith) in
        (t, rw (old, walk) e, i)
    | inr fresh ↦ elim (Bool-cases (contains pid live)) [
      | inr dead ↦
          let (t, e, i) =
            walk_ends fuel selected pending (Inv-skip pid selected pending h (inr dead))
              (omega arith) in
          (t, rw (fresh, dead, walk) e, i)
      | inl alive ↦
          let (t, e, i) =
            walk_ends fuel (pid ∷ selected) (extend (children_of pid children) pending)
              (unfold visited in Inv-visit pid selected pending h fresh alive)
              (omega (
                arith,
                unpushed-cons pid selected children fresh,
                length-extend (children_of pid children) pending,
              )) in
          (t, rw (fresh, alive, walk) e, i)
    ]
  ]

  complete : (t : List ℤ) → Inv t [] → {v : ℤ} → Reaches v → contains v t ≡ true
  unfolding contains
  complete t h (root {v} r l) = ground (arith, h.rooted v r l)
  complete t h (child {u} {v} p c l) = ground (arith, h.closed u v (complete t h p) c l)

  walk_returns :
      (t : List ℤ) × (walk live children (length roots + child_count children) [] (extend roots [])
        ≡ some t)
      × Inv t []
  walk_returns =
      walk_ends (length roots + child_count children) [] (extend roots []) Inv-start
        (omega (arith, length-extend roots [], unpushed-nil children))

  -- The loop does not run out of fuel, and it selects each process once, exactly those that the
  -- map leads to from a live root.
  pub descendant_pids_lem :
      (walk live children (length roots + child_count children) [] (extend roots [])
        ≡ some (descendant_pids live children roots))
      × IsDistinct (descendant_pids live children roots)
      × ((v : ℤ) → (contains v (descendant_pids live children roots) ≡ true) ↔ Reaches v)
  unfolding descendant_pids
  descendant_pids_lem =
      let (t, e, h) = walk_returns in rw e (refl, h.distinct, λ v. (h.sound v, complete t h))
