-- ===== src/Consumers/Live.antt =====
-- What `_live` lets through, whatever the file holds.
use kilix_telemetry.Common.{
  ◌≤◌, ℤ, ◌≡◌, sym, ◌∙◌, inl, inr, String, str_eq, Option, none, some, List, [], ◌∷◌, All, length,
  ltb, arith, Bool-cases, Option-cases,
}
use text.Mathlib.TextEquality.{eq_iff}
use kilix_telemetry.Bytes.{Bytes}
use kilix_telemetry.Values.{Value, Python, str, dict, entries_of}
use kilix_telemetry.Ring.{Codec}
use kilix_telemetry.Consumers.{
  Identities, max_consumers, max_bytes, same_identity, live_identity, live_entries, live_of,
  live_consumers,
}

module _ {F : Type 0} (py : Python F) (process_identity : ℤ → Option String) where
  -- The entry's PID is a number whose process has the entry's identity now.
  abbrev pub IsLive : String × String → Type 0
  IsLive (pid, identity) =
      (numeric : ℤ) × (py.int_of_str pid ≡ some numeric)
      × (process_identity numeric ≡ some identity)

  -- At most 1024 entries, all live.
  abbrev pub AreLive : Identities → Type 0
  AreLive live = (length live ≤ max_consumers) × All IsLive live

  same_identity-eq :
      (current : Option String) (value : Value F) (identity : String)
      → same_identity current value ≡ some identity
      → current ≡ some identity
  same_identity-eq none value identity e = absurd (cc)
  same_identity-eq (some now) (str text) identity e = elim (Bool-cases (str_eq now text)) [
    | inl same ↦
        let equal : now ≡ text = (eq_iff now text).0 same in
        let found : some text ≡ some identity = sym (rw same) ∙ e in cc
    | inr differs ↦
        let missing : same_identity {F = F} (some now) (str text) ≡ none = rw differs in absurd (cc)
  ]
  same_identity-eq (some now) _ identity e = absurd (cc)

  live_identity-IsLive :
      (pid : String) (value : Value F) (identity : String)
      → live_identity py process_identity pid value ≡ some identity
      → IsLive (pid, identity)
  unfolding live_identity
  live_identity-IsLive pid value identity e = elim (Option-cases (py.int_of_str pid)) [
    | inl none_read ↦
        let missing : live_identity py process_identity pid value ≡ none =
          rw (live_identity, none_read) in
        absurd (cc)
    | inr (numeric, read) ↦ (
      numeric,
      read,
      same_identity-eq (process_identity numeric) value identity
          (sym (rw (live_identity, read)) ∙ e),
    )
  ]

  live_entries-AreLive :
      (entries : List (String × Value F))
      → (length (live_entries py process_identity entries) ≤ length entries)
        × All IsLive (live_entries py process_identity entries)
  unfolding live_entries
  live_entries-AreLive [] = (omega arith, tt)
  live_entries-AreLive ((pid, value) ∷ rest) =
      let (few, all) = live_entries-AreLive rest in
      elim (Option-cases (live_identity py process_identity pid value)) [
        | inl e ↦ rw e (omega (arith, few), all)
        | inr (identity, e) ↦
            rw e (omega (arith, few), (live_identity-IsLive pid value identity e, all))
      ]

  live_of-AreLive : (value : Option (Value F)) → AreLive (live_of py process_identity value)
  unfolding live_of
  live_of-AreLive (some (dict fields)) =
      let (few, all) = live_entries-AreLive (entries_of fields) in
      elim (Bool-cases (ltb max_consumers (length (entries_of fields)))) [
        | inl e ↦ rw e (omega arith, tt)
        | inr e ↦ rw e (ground (arith, few), all)
      ]
  live_of-AreLive _ = (omega arith, tt)

  module _ (codec : Codec F) where
    -- Whatever the bytes of the file, `_live` returns at most 1024 entries, and each of them
    -- names by number a process that has the identity of the entry.
    pub live_consumers-AreLive :
        (raw : Bytes) → AreLive (live_consumers py process_identity codec raw)
    unfolding live_consumers
    live_consumers-AreLive raw = elim (Bool-cases (ltb max_bytes (length raw))) [
      | inl e ↦ rw e (omega arith, tt)
      | inr e ↦ rw e (live_of-AreLive (codec.loads raw))
    ]
