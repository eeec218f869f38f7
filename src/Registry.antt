-- ===== src/Registry.antt =====
-- `PaneRegistry` of src/kilix_telemetry/registry.py: the file that tells the sampler which process
-- trees need a pane. The file lock makes each method one step on the file's bytes; the file may be
-- missing. `json.loads` is the one of the ring's `Codec`; the keys that are written are decimal
-- numbers, so the escapes of `ensure_ascii` do not arise.
pub mod Clean
pub mod Update
use Prim.Native.String.{compare}
use Prim.Native.Nat.{lt, eq, gt}
use kilix_telemetry.Common.{
  ℕ, ◌+◌, ◌*◌, ℤ, pos, ◌-ℤ◌, ◌==ℤ◌, ltb_ℤ, leb_ℤ, String, Bool, true, false, ◌||◌, Option, none,
  some, List, [], ◌∷◌, map, take, length, ltb, Result, ok, err, value_error, type_error, ◌>>=◌,
  if◌then◌else◌,
}
use kilix_telemetry.IntSet.{add, extend}
use kilix_telemetry.Sorting.{sort_by, sorted}
use kilix_telemetry.Bytes.{Bytes}
use kilix_telemetry.Values.{
  Value, Fields, Python, int, bool, float, str, list, dict, end, get?, get_default, items_of,
  list_of, fields_of, entries_of, int_of,
}
use kilix_telemetry.Json.{dumps}
use kilix_telemetry.Ring.{Codec}

abbrev pub registry_schema : ℕ
registry_schema = 1

abbrev pub max_owners : ℕ
max_owners = 64

abbrev pub max_roots_per_owner : ℕ
max_roots_per_owner = 512

abbrev pub max_registry_bytes : ℕ
max_registry_bytes = 64 * 1024

-- One entry of the dictionary of owners, whose key is `str(pid)`.
pub record Owner : Type 0 where
  pub pid : ℤ
  pub updated_ns : ℤ
  pub roots : List ℤ

-- `owners[str(owner.pid)] = ...`: a key that is there keeps its place.
unfoldable pub set_owner : Owner → List Owner → List Owner
set_owner owner [] = owner ∷ []
set_owner owner (other ∷ rest) =
    let later = set_owner owner rest in
    if other.pid ==ℤ owner.pid then owner ∷ rest else other ∷ later

-- `except (TypeError, ValueError)` around a conversion, with the handler's way out as `none`.
abbrev pub caught {ℓ} : {A : Type ℓ} → Result A → Result (Option A)
caught (ok a) = ok (some a)
caught (err value_error) = ok none
caught (err type_error) = ok none
caught (err e) = err e

abbrev pub above_zero : Option ℤ → Option ℤ
above_zero none = none
above_zero (some pid) = if ltb_ℤ (pos 0) pid then some pid else none

abbrev pub add_found : Option ℤ → List ℤ → List ℤ
add_found none pids = pids
add_found (some pid) pids = add pid pids

unfoldable pub add_all : List ℤ → List ℤ → List ℤ
add_all [] pids = pids
add_all (pid ∷ rest) pids = add pid (add_all rest pids)

abbrev pub set_found : Option Owner → List Owner → List Owner
set_found none owners = owners
set_found (some owner) owners = set_owner owner owners

-- `{pid for record in owners.values() for pid in record["roots"]}`
unfoldable pub all_roots : List Owner → List ℤ
all_roots [] = []
all_roots (owner ∷ rest) = add_all owner.roots (all_roots rest)

-- The file's bytes, where it exists.
abbrev pub contents : Option Bytes → Bytes
contents none = []
contents (some bytes) = bytes

-- The order of `sort_keys`.
abbrev pub lt_text : String → String → Bool
lt_text s t = elim (compare s t) [ lt ↦ true | eq ↦ false | gt ↦ false ]

-- `os.write` and `os.ftruncate`, or the exception; by then the file exists.
unfoldable pub rewritten : Bytes → Result Bytes → Option Bytes × Result (Unit {0})
rewritten bytes (err e) = (some bytes, err e)
rewritten bytes (ok encoded) = (some encoded, ok tt)

module _ {F : Type 0} (py : Python F) where
  -- `_positive_pid`
  unfoldable pub positive_pid : Value F → Result (Option ℤ)
  positive_pid value = do parsed ← caught (int_of py value); ok (above_zero parsed)

  -- The set comprehension over `_positive_pid` of the items.
  unfoldable pub root_set : List (Value F) → Result (List ℤ)
  root_set [] = ok []
  root_set (item ∷ rest) = do
    found ← positive_pid item
    pids ← root_set rest
    ok (add_found found pids)

  -- `sorted({... for item in items[:MAX_ROOTS_PER_OWNER] ...})`
  unfoldable pub clean_roots : List (Value F) → Result (List ℤ)
  clean_roots items = do pids ← root_set (take max_roots_per_owner items); ok (sorted pids)

  -- The two conversions of the `try` block.
  unfoldable pub identified : String → Fields F → Result (ℤ × ℤ)
  identified raw_owner fields = do
    owner ← int_of py (str raw_owner)
    updated ← int_of py (get_default "updated_ns" (int (pos 0)) fields)
    ok (owner, updated)

  -- The list of roots; without one the record is skipped.
  unfoldable pub with_roots : ℤ → ℤ → Option (Value F) → Result (Option Owner)
  with_roots owner updated (some (list items)) = do
    roots ← clean_roots (list_of items)
    ok (some (record { pid = owner; updated_ns = updated; roots = roots }))
  with_roots owner updated _ = ok none

  unfoldable pub kept_owner : ℤ → ℤ → Fields F → Option (ℤ × ℤ) → Result (Option Owner)
  kept_owner now_ns stale_ns fields none = ok none
  kept_owner now_ns stale_ns fields (some (owner, updated)) =
      let kept = with_roots owner updated (get? "roots" fields) in
      if leb_ℤ owner (pos 0) || leb_ℤ updated (pos 0) || ltb_ℤ stale_ns (now_ns -ℤ updated)
      then ok none
      else kept

  -- The body of the loop of `_clean_owners`.
  unfoldable pub clean_owner : ℤ → ℤ → String × Value F → Result (Option Owner)
  clean_owner now_ns stale_ns (raw_owner, dict fields) = do
    parsed ← caught (identified raw_owner fields)
    kept_owner now_ns stale_ns fields parsed
  clean_owner now_ns stale_ns _ = ok none

  unfoldable pub clean_entries : ℤ → ℤ → List Owner → List (String × Value F) → Result (List Owner)
  clean_entries now_ns stale_ns owners [] = ok owners
  clean_entries now_ns stale_ns owners (entry ∷ rest) = do
    found ← clean_owner now_ns stale_ns entry
    clean_entries now_ns stale_ns (set_found found owners) rest

  -- `_clean_owners`, from the dictionary of raw owners on.
  unfoldable pub clean_owners : ℤ → ℤ → Fields F → Result (List Owner)
  clean_owners now_ns stale_ns raw_owners =
      clean_entries now_ns stale_ns [] (take max_owners (entries_of raw_owners))

  -- `value.get("schema") == REGISTRY_SCHEMA`: Python's `==` takes True and 1.0 for 1.
  unfoldable pub is_schema : Option (Value F) → Bool
  is_schema (some (int z)) = z ==ℤ pos registry_schema
  is_schema (some (bool b)) = b
  is_schema (some (float f)) = elim (py.float_of_int (pos registry_schema)) [
    | none ↦ false
    | some one ↦ py.eq f one
  ]
  is_schema _ = false

  abbrev pub raw_owners_of : Option (Value F) → Fields F
  raw_owners_of (some (dict owners)) = owners
  raw_owners_of _ = end

  module _ (codec : Codec F) where
    -- The dictionary under "owners" of what `_decode` returns; of the errors of `json.loads` it
    -- catches those of decoding.
    unfoldable pub decode_owners : Bytes → Result (Fields F)
    decode_owners raw = elim (codec.loads raw) [
      | some (dict fields) ↦
          let owners = raw_owners_of (get? "owners" fields) in
          if is_schema (get? "schema" fields) then ok owners else ok end
      | some other ↦ ok end
      | none ↦ if codec.is_decode_error raw then ok end else err value_error
    ]

    -- `_clean_owners(_decode(os.read(fd, MAX_REGISTRY_BYTES + 1)), ...)`
    unfoldable pub read_owners : Bytes → ℤ → ℤ → Result (List Owner)
    read_owners bytes now_ns stale_ns = do
      owners ← decode_owners (take (max_registry_bytes + 1) bytes)
      clean_owners now_ns stale_ns owners

  unfoldable pub owner_entry : Owner → String × Value F
  owner_entry owner = (
    py.str_of (int owner.pid),
    dict (
        fields_of (
          ("roots", list (items_of (map int owner.roots)))
          ∷ ("updated_ns", int owner.updated_ns)
          ∷ [])),
  )

  unfoldable pub registry_value : List Owner → Value F
  registry_value owners =
      let entries = sort_by (λ a b. lt_text a.0 b.0) (map owner_entry owners) in
      dict (
        fields_of
          (("owners", dict (fields_of entries)) ∷ ("schema", int (pos registry_schema)) ∷ []))

  module _ (codec : Codec F) where
    -- The part of `update` under the lock that may raise: the bytes to write.
    unfoldable pub updated_bytes : Bytes → Owner → ℤ → Result Bytes
    updated_bytes bytes owner stale_ns = do
      owners ← read_owners codec bytes owner.updated_ns stale_ns
      let encoded = dumps codec.text (registry_value (set_owner owner owners))
      if ltb max_registry_bytes (length encoded) then err value_error else ok encoded

    unfoldable pub update_owner :
        Option Bytes → ℤ → ℤ → ℤ → Result (List ℤ) → Option Bytes × Result (Unit {0})
    update_owner file now_ns stale_ns owner_pid (err e) = (file, err e)
    update_owner file now_ns stale_ns owner_pid (ok roots) = rewritten (contents file) (
        updated_bytes (contents file)
          (record { pid = owner_pid; updated_ns = now_ns; roots = roots }) stale_ns)

    -- `update`, with the monotonic clock's reading inside it.
    unfoldable pub update : Option Bytes → ℤ → ℤ → ℤ → List ℤ → Option Bytes × Result (Unit {0})
    update file now_ns stale_ns owner_pid roots =
        let updated = update_owner file now_ns stale_ns owner_pid (clean_roots (map int roots)) in
        if leb_ℤ owner_pid (pos 0) then (file, err value_error) else updated

    -- `roots`
    unfoldable pub registered_roots : Option Bytes → ℤ → ℤ → Result (List ℤ)
    registered_roots none now_ns stale_ns = ok []
    registered_roots (some bytes) now_ns stale_ns = do
      owners ← read_owners codec bytes now_ns stale_ns
      ok (sorted (all_roots owners))
