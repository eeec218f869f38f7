-- ===== src/Registry/Update.antt =====
-- `update` on the registry file, and what `roots` lists.
use kilix_telemetry.Common.{
  ◌≤◌, ℤ, pos, leb_ℤ, ltb_ℤ, ◌≡◌, refl, ◌↔◌, ◌⊎◌, inl, inr, true, Option, some, List, [], ◌∷◌, map,
  length, arith, ltb, Result, ok, err, value_error, if◌then◌else◌, Bool-cases,
}
use kilix_telemetry.IntSet.{
  contains, IsDistinct, contains-add, contains-cons, contains-nil, add-IsDistinct,
}
use kilix_telemetry.Sorting.{
  sorted, IsSorted, sort_by_key-IsSorted, sort_by-IsDistinct, contains-sort_by,
}
use kilix_telemetry.Bytes.{Bytes}
use kilix_telemetry.Json.{dumps}
use kilix_telemetry.Values.{Python, int}
use kilix_telemetry.Values.Laws.{Ensures, Ensures-any, Ensures-bind}
use kilix_telemetry.Ring.{Codec}
use kilix_telemetry.Registry.{
  Owner, max_registry_bytes, contents, add_all, all_roots, clean_roots, read_owners, registry_value,
  set_owner, updated_bytes, rewritten, update_owner, update, registered_roots,
}

-- Some owner of the list has the PID among its roots.
abbrev pub ListsRoot : ℤ → List Owner → Type 0
ListsRoot pid [] = ⊥
ListsRoot pid (owner ∷ rest) = (contains pid owner.roots ≡ true) ⊎ ListsRoot pid rest

contains-add_all :
    (v : ℤ) (xs pids : List ℤ)
    → (contains v (add_all xs pids) ≡ true) ↔ ((contains v xs ≡ true) ⊎ (contains v pids ≡ true))
unfolding add_all
contains-add_all v [] pids = ground (arith, contains-nil v)
contains-add_all v (x ∷ xs) pids =
    ground
      (arith, contains-add v x (add_all xs pids), contains-add_all v xs pids, contains-cons v x xs)

add_all-IsDistinct : (xs pids : List ℤ) → IsDistinct pids → IsDistinct (add_all xs pids)
unfolding add_all
add_all-IsDistinct [] pids h = h
add_all-IsDistinct (x ∷ xs) pids h =
    add-IsDistinct x (add_all xs pids) (add_all-IsDistinct xs pids h)

all_roots-IsDistinct : (owners : List Owner) → IsDistinct (all_roots owners)
unfolding all_roots
all_roots-IsDistinct [] = tt
all_roots-IsDistinct (owner ∷ rest) =
    add_all-IsDistinct owner.roots (all_roots rest) (all_roots-IsDistinct rest)

contains-all_roots :
    (v : ℤ) (owners : List Owner) → (contains v (all_roots owners) ≡ true) ↔ ListsRoot v owners
unfolding all_roots
contains-all_roots v [] = ground (arith, contains-nil v)
contains-all_roots v (owner ∷ rest) =
    ground (arith, contains-add_all v owner.roots (all_roots rest), contains-all_roots v rest)

within :
    (encoded : Bytes)
    → Ensures
        (λ bytes. length bytes ≤ max_registry_bytes)
        (if ltb max_registry_bytes (length encoded) then err value_error else ok encoded)
within encoded = elim (Bool-cases (ltb max_registry_bytes (length encoded))) [
  | inl e ↦ rw e tt
  | inr e ↦ rw e (ground arith)
]

module _ {F : Type 0} (py : Python F) (codec : Codec F) where
  -- Where the owners of the file can be read, `roots` returns a sorted list without repetitions
  -- of exactly the PIDs that some owner has among its roots.
  pub registered_roots_lem :
      (bytes : Bytes) (now_ns stale_ns : ℤ) (owners : List Owner)
      → read_owners py codec bytes now_ns stale_ns ≡ ok owners
      → (pids : List ℤ) × (registered_roots py codec (some bytes) now_ns stale_ns ≡ ok pids)
        × IsSorted (λ z. z) pids
        × IsDistinct pids
        × ((v : ℤ) → (contains v pids ≡ true) ↔ ListsRoot v owners)
  unfolding registered_roots
  registered_roots_lem bytes now_ns stale_ns owners e = (
    sorted (all_roots owners),
    rw (registered_roots, e),
    sort_by_key-IsSorted (λ z. z) (all_roots owners),
    sort_by-IsDistinct ltb_ℤ (all_roots owners) (all_roots-IsDistinct owners),
    λ v. ground (arith, contains-sort_by ltb_ℤ v (all_roots owners), contains-all_roots v owners),
  )

  -- The file as it was, which `os.O_CREAT` may have made.
  abbrev pub IsUntouched : Option Bytes → Option Bytes → Type 0
  IsUntouched file after = (after ≡ file) ⊎ (after ≡ some (contents file))

  -- What a call leaves: a small file if it returned, and otherwise the file as it was.
  abbrev pub IsAllOrNothing : Option Bytes → Option Bytes × Result (Unit {0}) → Type 0
  IsAllOrNothing file (after, ok done) = length (contents after) ≤ max_registry_bytes
  IsAllOrNothing file (after, err e) = IsUntouched file after

  updated_bytes-le :
      (bytes : Bytes) (owner : Owner) (stale_ns : ℤ)
      → Ensures
          (λ encoded. length encoded ≤ max_registry_bytes)
          (updated_bytes py codec bytes owner stale_ns)
  unfolding updated_bytes
  updated_bytes-le bytes owner stale_ns =
      Ensures-bind (λ _. Unit {0}) (λ encoded. length encoded ≤ max_registry_bytes)
        (read_owners py codec bytes owner.updated_ns stale_ns) _
        (Ensures-any (read_owners py codec bytes owner.updated_ns stale_ns))
        λ owners h. within (dumps codec.text (registry_value py (set_owner owner owners)))

  rewritten-IsAllOrNothing :
      (file : Option Bytes) (r : Result Bytes)
      → Ensures (λ encoded. length encoded ≤ max_registry_bytes) r
      → IsAllOrNothing file (rewritten (contents file) r)
  unfolding rewritten
  rewritten-IsAllOrNothing file (ok encoded) h = h
  rewritten-IsAllOrNothing file (err e) h = inr refl

  update_owner-IsAllOrNothing :
      (file : Option Bytes) (now_ns stale_ns owner_pid : ℤ) (roots : Result (List ℤ))
      → IsAllOrNothing file (update_owner py codec file now_ns stale_ns owner_pid roots)
  unfolding update_owner
  update_owner-IsAllOrNothing file now_ns stale_ns owner_pid (ok roots) =
      rewritten-IsAllOrNothing file _ (
        updated_bytes-le (contents file)
          (record { pid = owner_pid; updated_ns = now_ns; roots = roots }) stale_ns)
  update_owner-IsAllOrNothing file now_ns stale_ns owner_pid (err e) = inl refl

  -- Whatever the file and the arguments, an `update` that raises leaves the bytes of the file
  -- as they were, at most having made it empty where it was missing, and one that returns
  -- leaves at most 65536 bytes.
  pub update-IsAllOrNothing :
      (file : Option Bytes) (now_ns stale_ns owner_pid : ℤ) (roots : List ℤ)
      → IsAllOrNothing file (update py codec file now_ns stale_ns owner_pid roots)
  unfolding update
  update-IsAllOrNothing file now_ns stale_ns owner_pid roots =
      elim (Bool-cases (leb_ℤ owner_pid (pos 0))) [
        | inl e ↦ rw e (inl refl)
        | inr e ↦ rw e (
            update_owner-IsAllOrNothing file now_ns stale_ns owner_pid
              (clean_roots py (map int roots)))
      ]
