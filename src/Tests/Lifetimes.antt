-- ===== src/Tests/Lifetimes.antt =====
-- The registry of consumers at a concrete file.
use kilix_telemetry.Common.{
  ℤ, pos, ◌==ℤ◌, String, ◌≡◌, refl, true, false, Option, none, some, [], ◌∷◌, ok, length, arith,
  ltb, if◌then◌else◌,
}
use kilix_telemetry.Bytes.{Bytes}
use kilix_telemetry.Values.{Python, str, dict, fields_of}
use kilix_telemetry.Json.{dumps}
use kilix_telemetry.Sorting.{sort_by, insert}
use kilix_telemetry.Ring.{Codec}
use kilix_telemetry.Registry.{rewritten}
use kilix_telemetry.Consumers.{
  consumers_value, has_key, set_key, live_identity, live_entries, live_of, live_consumers,
  registered_bytes, register, active,
}
use kilix_telemetry.Consumers.Live.{AreLive, live_consumers-AreLive}
use kilix_telemetry.Consumers.Active.{registered, register-active}
use kilix_telemetry.Tests.Instances.{Float, python, codec}

-- An interpreter that prints every number as "42".
abbrev pub one_number : Python Float
one_number = record python { str_of = λ value. "42" }

abbrev pub boot_1 : ℤ → Option String
boot_1 pid = if pid ==ℤ pos 42 then some "boot:1" else none

-- A decoder that reads this dictionary.
abbrev pub lifetime_codec : Codec Float
lifetime_codec = record codec { loads = λ raw. some (dict (fields_of (("42", str "boot:1") ∷ []))) }

abbrev pub written : Bytes
written = dumps lifetime_codec.text (consumers_value (("42", "boot:1") ∷ []))

pub first_registered :
    register one_number boot_1 lifetime_codec none (pos 42) ≡ (some written, ok tt)
unfolding register registered_bytes rewritten has_key set_key live_consumers live_of live_entries
    live_identity ◌==ℤ◌
first_registered = refl

pub alive : boot_1 (pos 42) ≡ some "boot:1"
unfolding ◌==ℤ◌
alive = refl

pub reads_back :
    lifetime_codec.loads (
      dumps lifetime_codec.text
        (consumers_value (registered one_number boot_1 lifetime_codec none (pos 42) "boot:1")))
    ≡ some (consumers_value (registered one_number boot_1 lifetime_codec none (pos 42) "boot:1"))
unfolding consumers_value set_key live_consumers live_of live_entries live_identity ◌==ℤ◌ sort_by
    insert
reads_back = refl

pub written_small : ltb 262144 (length written) ≡ false
unfolding dumps consumers_value sort_by insert
written_small = refl

register-active_example : active one_number boot_1 lifetime_codec (some written) ≡ true
register-active_example =
    register-active one_number boot_1 lifetime_codec none (pos 42) "boot:1" alive (some written)
      refl first_registered reads_back (ground (arith, written_small))

live_consumers-AreLive_example :
    AreLive one_number boot_1 (live_consumers one_number boot_1 lifetime_codec written)
live_consumers-AreLive_example = live_consumers-AreLive one_number boot_1 lifetime_codec written
