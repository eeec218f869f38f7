-- ===== src/Registry/Clean.antt =====
-- What `_clean_owners` lets through, whatever the file holds.
use kilix_telemetry.Common.{
  ℕ, suc, ◌+◌, ◌≤◌, ℤ, pos, ◌-ℤ◌, ◌≤ℤ◌, ◌==ℤ◌, ltb_ℤ, leb_ℤ, ◌≡◌, refl, subst, inl, inr, String,
  ◌||◌, Option, none, some, List, [], ◌∷◌, All, take, length, length-take, arith, Bool-cases,
}
use kilix_telemetry.IntSet.{contains, add, IsDistinct, add-IsDistinct}
use kilix_telemetry.Sorting.{
  IsSorted, sort_by_key-IsSorted, sort_by-IsDistinct, length-sort_by, All-sort_by,
}
use kilix_telemetry.Values.{Value, Fields, Python, list, dict, get?, int_of, entries_of, list_of}
use kilix_telemetry.Values.Laws.{Ensures, Ensures-any, Ensures-weaken, Ensures-bind}
use kilix_telemetry.Registry.{
  Owner, max_owners, max_roots_per_owner, set_owner, set_found, caught, above_zero, add_found,
  positive_pid, root_set, clean_roots, identified, with_roots, kept_owner, clean_owner,
  clean_entries, clean_owners,
}

-- A sorted list of at most 512 different positive PIDs.
pub record AreRoots (roots : List ℤ) : Type 0 where
  pub in_order : IsSorted (λ z. z) roots
  pub distinct : IsDistinct roots
  pub positive : All (λ pid. pos 1 ≤ℤ pid) roots
  pub few : length roots ≤ max_roots_per_owner

-- An owner of the registry that has not become stale.
pub record IsCurrent (now_ns stale_ns : ℤ) (owner : Owner) : Type 0 where
  pub pid : pos 1 ≤ℤ owner.pid
  pub updated_ns : pos 1 ≤ℤ owner.updated_ns
  pub age : now_ns -ℤ owner.updated_ns ≤ℤ stale_ns
  pub roots : AreRoots owner.roots

-- Positive PIDs without repetition.
record AreFound (n : ℕ) (pids : List ℤ) : Type 0 where
  distinct : IsDistinct pids
  positive : All (λ pid. pos 1 ≤ℤ pid) pids
  few : length pids ≤ n

pub All-add :
    (x : ℤ) (pids : List ℤ)
    → pos 1 ≤ℤ x
    → All (λ pid. pos 1 ≤ℤ pid) pids
    → All (λ pid. pos 1 ≤ℤ pid) (add x pids)
unfolding add
All-add x pids h p = elim (Bool-cases (contains x pids)) [ inl e ↦ rw e p | inr e ↦ rw e (h, p) ]

length-add : (x : ℤ) (pids : List ℤ) → length (add x pids) ≤ suc (length pids)
unfolding add
length-add x pids = ground arith

add_found-AreFound :
    (n : ℕ) (found : Option ℤ) (pids : List ℤ)
    → AreFound n pids
    → AreFound (suc n) (add_found (above_zero found) pids)
add_found-AreFound n none pids h = record {
  distinct = h.distinct;
  positive = h.positive;
  few = omega (arith, h.few);
}
add_found-AreFound n (some x) pids h = elim (Bool-cases (ltb_ℤ (pos 0) x)) [
  | inl e ↦ rw e (record {
    distinct = add-IsDistinct x pids h.distinct;
    positive = All-add x pids (ground arith) h.positive;
    few = omega (arith, length-add x pids, h.few);
  })
  | inr e ↦
      rw e (record { distinct = h.distinct; positive = h.positive; few = omega (arith, h.few) })
]

module _ {F : Type 0} (py : Python F) where
  root_set-AreFound :
      (items : List (Value F)) → Ensures (AreFound (length items)) (root_set py items)
  unfolding root_set positive_pid
  root_set-AreFound [] = record { distinct = tt; positive = tt; few = omega arith }
  root_set-AreFound (item ∷ rest) =
      Ensures-bind (λ found. (parsed : Option ℤ) × (found ≡ above_zero parsed))
        (AreFound (suc (length rest))) (positive_pid py item) _
        (Ensures-bind (λ _. Unit {0}) (λ found. (parsed : Option ℤ) × (found ≡ above_zero parsed))
          (caught (int_of py item)) _ (Ensures-any (caught (int_of py item)))
          (λ parsed h. (parsed, refl)))
        λ found (parsed, e).
          Ensures-bind (AreFound (length rest)) (AreFound (suc (length rest))) (root_set py rest) _
            (root_set-AreFound rest) λ pids h. rw e (add_found-AreFound (length rest) parsed pids h)

  clean_roots-AreRoots : (items : List (Value F)) → Ensures AreRoots (clean_roots py items)
  unfolding clean_roots
  clean_roots-AreRoots items =
      Ensures-bind (AreFound (length (take max_roots_per_owner items))) AreRoots
        (root_set py (take max_roots_per_owner items)) _
        (root_set-AreFound (take max_roots_per_owner items))
        λ pids h. record {
          in_order = sort_by_key-IsSorted (λ z. z) pids;
          distinct = sort_by-IsDistinct ltb_ℤ pids h.distinct;
          positive = All-sort_by ltb_ℤ (λ pid. pos 1 ≤ℤ pid) pids h.positive;
          few =
              omega
                (arith, length-sort_by ltb_ℤ pids, h.few, length-take max_roots_per_owner items);
        }

-- An owner that is current, where one was found.
abbrev CurrentIfFound : ℤ → ℤ → Option Owner → Type 0
CurrentIfFound now_ns stale_ns none = Unit {0}
CurrentIfFound now_ns stale_ns (some owner) = IsCurrent now_ns stale_ns owner

All-set_owner {κ} :
    (P : Owner → Type κ) (owner : Owner) (owners : List Owner)
    → P owner
    → All P owners
    → All P (set_owner owner owners)
unfolding set_owner
All-set_owner P owner [] p ps = (p, tt)
All-set_owner P owner (other ∷ rest) p ps = elim (Bool-cases (other.pid ==ℤ owner.pid)) [
  | inl e ↦ rw e (p, ps.1)
  | inr e ↦ rw e (ps.0, All-set_owner P owner rest p ps.1)
]

pub length-set_owner :
    (owner : Owner) (owners : List Owner) → length (set_owner owner owners) ≤ suc (length owners)
unfolding set_owner
length-set_owner owner [] = omega arith
length-set_owner owner (other ∷ rest) = ground (arith, length-set_owner owner rest)

-- At most `n` owners, all current.
abbrev pub AreCurrent : ℤ → ℤ → ℕ → List Owner → Type 0
AreCurrent now_ns stale_ns n owners = (length owners ≤ n) × All (IsCurrent now_ns stale_ns) owners

set_found-AreCurrent :
    (now_ns stale_ns : ℤ) (n : ℕ) (found : Option Owner) (owners : List Owner)
    → CurrentIfFound now_ns stale_ns found
    → AreCurrent now_ns stale_ns n owners
    → AreCurrent now_ns stale_ns (suc n) (set_found found owners)
set_found-AreCurrent now_ns stale_ns n none owners f h = (omega (arith, h.0), h.1)
set_found-AreCurrent now_ns stale_ns n (some owner) owners f h = (
  omega (arith, length-set_owner owner owners, h.0),
  All-set_owner (IsCurrent now_ns stale_ns) owner owners f h.1,
)

module _ {F : Type 0} (py : Python F) (now_ns stale_ns : ℤ) where
  with_roots-CurrentIfFound :
      (owner updated : ℤ) (raw : Option (Value F))
      → pos 1 ≤ℤ owner
      → pos 1 ≤ℤ updated
      → now_ns -ℤ updated ≤ℤ stale_ns
      → Ensures (CurrentIfFound now_ns stale_ns) (with_roots py owner updated raw)
  unfolding with_roots
  with_roots-CurrentIfFound owner updated (some (list items)) o u a =
      Ensures-bind AreRoots (CurrentIfFound now_ns stale_ns) (clean_roots py (list_of items)) _
        (clean_roots-AreRoots py (list_of items))
        λ roots h. record { pid = o; updated_ns = u; age = a; roots = h }
  with_roots-CurrentIfFound owner updated _ o u a = tt

  kept_owner-CurrentIfFound :
      (fields : Fields F) (parsed : Option (ℤ × ℤ))
      → Ensures (CurrentIfFound now_ns stale_ns) (kept_owner py now_ns stale_ns fields parsed)
  unfolding kept_owner
  kept_owner-CurrentIfFound fields none = tt
  kept_owner-CurrentIfFound fields (some (owner, updated)) =
      elim (Bool-cases
        (leb_ℤ owner (pos 0) || leb_ℤ updated (pos 0) || ltb_ℤ stale_ns (now_ns -ℤ updated))) [
          | inl e ↦ rw e tt
          | inr e ↦ rw e (
              with_roots-CurrentIfFound owner updated (get? "roots" fields) (ground arith)
                (ground arith) (ground arith))
        ]

  clean_owner-CurrentIfFound :
      (entry : String × Value F)
      → Ensures (CurrentIfFound now_ns stale_ns) (clean_owner py now_ns stale_ns entry)
  unfolding clean_owner
  clean_owner-CurrentIfFound (raw_owner, dict fields) =
      Ensures-bind (λ _. Unit {0}) (CurrentIfFound now_ns stale_ns)
        (caught (identified py raw_owner fields)) _
        (Ensures-any (caught (identified py raw_owner fields)))
        λ parsed h. kept_owner-CurrentIfFound fields parsed
  clean_owner-CurrentIfFound _ = tt

  clean_entries-AreCurrent :
      (n : ℕ) (entries : List (String × Value F)) (owners : List Owner)
      → AreCurrent now_ns stale_ns n owners
      → Ensures
          (AreCurrent now_ns stale_ns (n + length entries))
          (clean_entries py now_ns stale_ns owners entries)
  unfolding clean_entries
  clean_entries-AreCurrent n [] owners h = (omega (arith, h.0), h.1)
  clean_entries-AreCurrent n (entry ∷ rest) owners h =
      Ensures-bind (CurrentIfFound now_ns stale_ns)
        (AreCurrent now_ns stale_ns (n + suc (length rest))) (clean_owner py now_ns stale_ns entry)
        _ (clean_owner-CurrentIfFound entry)
        λ found f.
          subst
            (λ m.
              Ensures (AreCurrent now_ns stale_ns m)
                (clean_entries py now_ns stale_ns (set_found found owners) rest))
            (omega arith)
            (clean_entries-AreCurrent (suc n) rest (set_found found owners)
              (set_found-AreCurrent now_ns stale_ns n found owners f h))

  -- Whatever dictionary of owners the file holds, `_clean_owners` raises, or returns at most 64
  -- owners, each with a positive PID, a positive time within the stale limit, and a sorted list
  -- of at most 512 different positive roots.
  pub clean_owners-AreCurrent :
      (raw_owners : Fields F)
      → Ensures (AreCurrent now_ns stale_ns max_owners) (clean_owners py now_ns stale_ns raw_owners)
  unfolding clean_owners
  clean_owners-AreCurrent raw_owners =
      let entries = take max_owners (entries_of raw_owners) in
      Ensures-weaken (AreCurrent now_ns stale_ns (0 + length entries))
        (AreCurrent now_ns stale_ns max_owners) (clean_entries py now_ns stale_ns [] entries)
        (λ owners h. (omega (arith, h.0, length-take max_owners (entries_of raw_owners)), h.1))
        (clean_entries-AreCurrent 0 entries [] (omega arith, tt))
