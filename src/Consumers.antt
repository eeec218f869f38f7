-- ===== src/Consumers.antt =====
-- `ConsumerRegistry` of src/kilix_telemetry/consumers.py: the file that keeps an automatically
-- started sampler alive while one of its consumers lives. `process_identity`, which reads /proc, is
-- a parameter; `json.loads` is the one of the ring's `Codec`. The loop around `os.write` is one step.
pub mod Entries
pub mod Live
pub mod Active
use kilix_telemetry.Common.{
  ℕ, suc, ◌+◌, ◌*◌, ℤ, String, str_eq, Bool, true, false, not, ◌&&◌, ◌||◌, Option, none, some, List,
  [], ◌∷◌, map, take, length, ltb, leb, is_nonempty, Result, ok, err, value_error, telemetry_error,
  if◌then◌else◌,
}
use kilix_telemetry.Sorting.{sort_by}
use kilix_telemetry.Bytes.{Bytes}
use kilix_telemetry.Values.{Value, Fields, Python, int, str, dict, fields_of, entries_of}
use kilix_telemetry.Json.{dumps}
use kilix_telemetry.Ring.{Codec}
use kilix_telemetry.Registry.{contents, lt_text, rewritten}

abbrev pub max_consumers : ℕ
max_consumers = 1024

abbrev pub max_bytes : ℕ
max_bytes = 256 * 1024

-- A dictionary from PIDs, as texts, to identities.
abbrev pub Identities : Type 0
Identities = List (String × String)

-- `pid in live`
unfoldable pub has_key : String → Identities → Bool
has_key key [] = false
has_key key ((other, identity) ∷ rest) = str_eq other key || has_key key rest

-- `live[pid] = identity`
unfoldable pub set_key : String → String → Identities → Identities
set_key key identity [] = (key, identity) ∷ []
set_key key identity ((other, old) ∷ rest) =
    let later = set_key key identity rest in
    if str_eq other key then (other, identity) ∷ rest else (other, old) ∷ later

abbrev pub add_live : String → Option String → Identities → Identities
add_live pid none live = live
add_live pid (some identity) live = (pid, identity) ∷ live

module _ {F : Type 0} where
  -- `isinstance(identity, str) and process_identity(numeric) == identity`
  abbrev pub same_identity : Option String → Value F → Option String
  same_identity (some current) (str identity) =
      if str_eq current identity then some identity else none
  same_identity _ _ = none

  abbrev pub identity_entry : String × String → String × Value F
  identity_entry (pid, identity) = (pid, str identity)

  unfoldable pub consumers_value : Identities → Value F
  consumers_value live =
      dict (fields_of (map identity_entry (sort_by (λ a b. lt_text a.0 b.0) live)))

module _ {F : Type 0} (py : Python F) (process_identity : ℤ → Option String) where
  -- The body of the loop of `_live`.
  unfoldable pub live_identity : String → Value F → Option String
  live_identity pid identity = elim (py.int_of_str pid) [
    | none ↦ none
    | some numeric ↦ same_identity (process_identity numeric) identity
  ]

  unfoldable pub live_entries : List (String × Value F) → Identities
  live_entries [] = []
  live_entries ((pid, identity) ∷ rest) =
      add_live pid (live_identity pid identity) (live_entries rest)

  unfoldable pub live_of : Option (Value F) → Identities
  live_of (some (dict fields)) =
      let live = live_entries (entries_of fields) in
      if ltb max_consumers (length (entries_of fields)) then [] else live
  live_of _ = []

  module _ (codec : Codec F) where
    -- `_live`
    unfoldable pub live_consumers : Bytes → Identities
    live_consumers raw = if ltb max_bytes (length raw) then [] else live_of (codec.loads raw)

    -- The part of `register` from the test of the number of consumers to the encoding.
    unfoldable pub registered_bytes : String → String → Identities → Result Bytes
    registered_bytes pid identity live =
        if not (has_key pid live) && leb max_consumers (length live)
        then err telemetry_error
        else ok (dumps codec.text (consumers_value (set_key pid identity live)))

    -- `register`
    unfoldable pub register : Option Bytes → ℤ → Option Bytes × Result (Unit {0})
    register file pid = elim (process_identity pid) [
      | none ↦ (file, err value_error)
      | some identity ↦ rewritten (contents file) (
          registered_bytes (py.str_of (int pid)) identity
            (live_consumers (take (max_bytes + 1) (contents file))))
    ]

    -- `active`
    unfoldable pub active : Option Bytes → Bool
    active none = false
    active (some bytes) = is_nonempty (live_consumers (take (max_bytes + 1) bytes))
