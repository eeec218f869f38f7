-- ===== src/Tests/Registries.antt =====
-- The registry of panes at a concrete file.
use kilix_telemetry.Common.{
  ℤ, pos, ◌==ℤ◌, ◌-ℤ◌, ◌≡◌, refl, ◌↔◌, true, none, some, List, [], ◌∷◌, ok,
}
use kilix_telemetry.IntSet.{contains, add, IsDistinct}
use kilix_telemetry.Sorting.{sort_by, insert, IsSorted}
use kilix_telemetry.Bytes.{Bytes}
use kilix_telemetry.Values.{Fields, null, int, str, list, dict, items_of, fields_of, int_of}
use kilix_telemetry.Values.Laws.{Ensures}
use kilix_telemetry.Json.{ascii}
use kilix_telemetry.Ring.{Codec}
use kilix_telemetry.Registry.{
  Owner, max_owners, clean_owners, clean_entries, clean_owner, identified, kept_owner, with_roots,
  clean_roots, root_set, positive_pid, set_owner, decode_owners, is_schema, read_owners,
  registered_roots, update,
}
use kilix_telemetry.Registry.Clean.{AreCurrent, clean_owners-AreCurrent}
use kilix_telemetry.Registry.Update.{
  ListsRoot, registered_roots_lem, IsAllOrNothing, update-IsAllOrNothing,
}
use kilix_telemetry.Tests.Instances.{Float, python, codec}

-- One owner with roots out of order, and an entry that is no record.
abbrev raw_owners : Fields Float
raw_owners = fields_of (
    (
      "42",
      dict (
          fields_of (
            ("updated_ns", int (pos 90))
            ∷ ("roots", list (items_of (int (pos 7) ∷ str "x" ∷ int (pos 3) ∷ int (pos 7) ∷ [])))
            ∷ [])),
    )
    ∷ ("x", null)
    ∷ [])

abbrev owner_42 : Owner
owner_42 = record { pid = pos 42; updated_ns = pos 90; roots = pos 3 ∷ pos 7 ∷ [] }

cleaned : clean_owners python (pos 100) (pos 50) raw_owners ≡ ok (owner_42 ∷ [])
unfolding clean_owners clean_entries clean_owner identified kept_owner with_roots clean_roots
    root_set positive_pid set_owner int_of sort_by insert add contains ◌==ℤ◌ ◌-ℤ◌
cleaned = refl

clean_owners-AreCurrent_example :
    Ensures
      (AreCurrent (pos 100) (pos 50) max_owners)
      (clean_owners python (pos 100) (pos 50) raw_owners)
clean_owners-AreCurrent_example = clean_owners-AreCurrent python (pos 100) (pos 50) raw_owners

-- A decoder that reads this registry.
abbrev registry_codec : Codec Float
registry_codec = record codec {
  loads =
      λ raw. some (dict (fields_of (("schema", int (pos 1)) ∷ ("owners", dict raw_owners) ∷ [])));
}

abbrev registry_file : Bytes
registry_file = ascii "{}"

read_back : read_owners python registry_codec registry_file (pos 100) (pos 50) ≡ ok (owner_42 ∷ [])
unfolding read_owners decode_owners is_schema ◌==ℤ◌
read_back = cleaned

registered_roots_lem_example :
    (pids : List ℤ) × (registered_roots python registry_codec
        (some registry_file)
        (pos 100)
        (pos 50)
      ≡ ok pids)
    × IsSorted (λ z. z) pids
    × IsDistinct pids
    × ((v : ℤ) → (contains v pids ≡ true) ↔ ListsRoot v (owner_42 ∷ []))
registered_roots_lem_example =
    registered_roots_lem python registry_codec registry_file (pos 100) (pos 50) (owner_42 ∷ [])
      read_back

update-IsAllOrNothing_example :
    IsAllOrNothing python registry_codec none
      (update python registry_codec none (pos 100) (pos 50) (pos 42) (pos 7 ∷ []))
update-IsAllOrNothing_example =
    update-IsAllOrNothing python registry_codec none (pos 100) (pos 50) (pos 42) (pos 7 ∷ [])
