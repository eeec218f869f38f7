-- ===== src/Consumers/Active.antt =====
-- A registered consumer counts as active.
use kilix_telemetry.Common.{
  ◌+◌, ◌≤◌, ℤ, ◌≡◌, refl, ap, sym, subst, ◌∙◌, inl, inr, ⊎_elim, String, str_eq, Bool, true, false,
  not, ◌&&◌, Option, none, some, List, [], ◌∷◌, map, take, take-of_le, length, length-map, ltb, leb,
  is_nonempty, arith, Bool-cases, Option-cases, Result, ok, err, telemetry_error,
}
use text.Mathlib.TextEquality.{eq_iff}
use kilix_telemetry.Sorting.{sort_by, length-sort_by}
use kilix_telemetry.Bytes.{Bytes}
use kilix_telemetry.Values.{Value, Python, int, str, fields_of, entries_of}
use kilix_telemetry.Values.Laws.{entries_of-fields_of}
use kilix_telemetry.Json.{dumps}
use kilix_telemetry.Ring.{Codec, ReadsBack}
use kilix_telemetry.Registry.{contents, lt_text, rewritten}
use kilix_telemetry.Consumers.{
  Identities, max_consumers, max_bytes, has_key, set_key, identity_entry, consumers_value,
  live_identity, live_entries, live_of, live_consumers, registered_bytes, register, active,
}
use kilix_telemetry.Consumers.Entries.{
  not-ltb, refused, Has, Has-sort_by, set_key-Has, length-set_key,
}
use kilix_telemetry.Consumers.Live.{live_consumers-AreLive}

module _ {F : Type 0} (py : Python F) (process_identity : ℤ → Option String) where
  module _ (codec : Codec F) where
    -- Equal entries are judged alike.
    differs :
        (a b : String × String) (identity : String)
        → a ≡ b
        → live_identity py process_identity b.0 (str b.1) ≡ some identity
        → live_identity py process_identity a.0 (str a.1) ≡ none
        → ⊥
    differs a b identity same e missing =
        let alike : live_identity py process_identity a.0 (str a.1)
            ≡ live_identity py process_identity b.0 (str b.1) =
          ap (λ (x : String × String). live_identity py process_identity x.0 (str x.1)) same in
        absurd (cc)

    -- The tests of `register` keep the dictionary small enough to be read.
    length-registered :
        (key identity : String) (live : Identities)
        → length live ≤ max_consumers
        → (not (has_key key live) && leb max_consumers (length live)) ≡ false
        → length (set_key key identity live) ≤ max_consumers
    length-registered key identity live few h = ground (arith, length-set_key key identity live)

    nonempty :
        (key identity : String) (live : Identities)
        → live_identity py process_identity key (str identity) ≡ some identity
        → Has (key, identity) live
        → is_nonempty (live_entries py process_identity (map identity_entry live)) ≡ true
    unfolding live_entries
    nonempty key identity [] e h = absurd h
    nonempty key identity ((other, old) ∷ rest) e h =
        elim (Option-cases (live_identity py process_identity other (str old))) [
          | inr (found, f) ↦ rw f refl
          | inl missing ↦
              ⊎_elim (λ here. absurd (differs (other, old) (key, identity) identity here e missing))
                (λ later. rw missing (nonempty key identity rest e later)) h
        ]

    -- The written dictionary, where it is read back.
    active-written :
        (key identity : String) (live : Identities)
        → live_identity py process_identity key (str identity) ≡ some identity
        → Has (key, identity) live
        → length live ≤ max_consumers
        → ReadsBack codec (consumers_value live)
        → length (dumps codec.text (consumers_value live)) ≤ max_bytes
        → active py process_identity codec (some (dumps codec.text (consumers_value live))) ≡ true
    unfolding active live_consumers live_of consumers_value
    active-written key identity live e has few reads small =
        let sorted : Identities = sort_by (λ a b. lt_text a.0 b.0) live in
        let entries : List (String × Value F) = map identity_entry sorted in
        let written : Bytes = dumps codec.text (consumers_value live) in
        let whole : take (max_bytes + 1) written ≡ written =
          take-of_le (max_bytes + 1) written (omega arith) in
        let fits : ltb max_bytes (length written) ≡ false =
          not-ltb (length written) max_bytes small in
        let back : entries_of (fields_of entries) ≡ entries = entries_of-fields_of entries in
        let size : length entries ≡ length live =
          length-map identity_entry sorted ∙ length-sort_by (λ a b. lt_text a.0 b.0) live in
        let allowed : ltb max_consumers (length entries) ≡ false =
          not-ltb (length entries) max_consumers (subst (λ n. n ≤ max_consumers) (sym size) few) in
        rw (active, live_consumers, live_of, whole, fits, reads, back, allowed)
          (nonempty key identity sorted e
            (Has-sort_by (λ a b. lt_text a.0 b.0) (key, identity) live has))

    live_identity_self :
        (pid : ℤ) (identity : String)
        → py.int_of_str (py.str_of (int pid)) ≡ some pid
        → process_identity pid ≡ some identity
        → live_identity py process_identity (py.str_of (int pid)) (str identity) ≡ some identity
    unfolding live_identity
    live_identity_self pid identity number alive =
        let same : str_eq identity identity ≡ true = (eq_iff identity identity).1 refl in
        rw (live_identity, number, alive, same) refl

    -- The dictionary that `register` writes.
    abbrev pub registered : Option Bytes → ℤ → String → Identities
    registered file pid identity =
        set_key (py.str_of (int pid)) identity
          (live_consumers py process_identity codec (take (max_bytes + 1) (contents file)))

    module _ (file : Option Bytes) (pid : ℤ) (identity : String)
        (alive : process_identity pid ≡ some identity) where
      abbrev known : Identities
      known = live_consumers py process_identity codec (take (max_bytes + 1) (contents file))

      abbrev is_full : Bool
      is_full = not (has_key (py.str_of (int pid)) known) && leb max_consumers (length known)

      register_full :
          is_full ≡ true
          → register py process_identity codec file pid
            ≡ (some (contents file), err telemetry_error)
      unfolding register registered_bytes rewritten
      register_full e = rw (register, alive, registered_bytes, e) refl

      register_room :
          is_full ≡ false
          → register py process_identity codec file pid
            ≡ (some (dumps codec.text (consumers_value (registered file pid identity))), ok tt)
      unfolding register registered_bytes rewritten
      register_room e = rw (register, alive, registered_bytes, e) refl

      -- After a `register` that returned for a process with an identity, `active` holds as long
      -- as the process keeps the identity, where the PID reads back from its text, the
      -- dictionary that was written reads back from its JSON text, and the text is within the
      -- limit of bytes.
      pub register-active :
          (after : Option Bytes)
          → py.int_of_str (py.str_of (int pid)) ≡ some pid
          → register py process_identity codec file pid ≡ (after, ok tt)
          → ReadsBack codec (consumers_value (registered file pid identity))
          → length (contents after) ≤ max_bytes
          → active py process_identity codec after ≡ true
      register-active after number e reads small = elim (Bool-cases is_full) [
        | inl full ↦ absurd (refused (sym (register_full full) ∙ e))
        | inr room ↦
            let left : some (dumps codec.text (consumers_value (registered file pid identity)))
                ≡ after =
              ap (λ (r : Option Bytes × Result (Unit {0})). r.0) (sym (register_room room) ∙ e) in
            subst (λ f. active py process_identity codec f ≡ true) left
              (active-written (py.str_of (int pid)) identity (registered file pid identity)
                (live_identity_self pid identity number alive)
                (set_key-Has (py.str_of (int pid)) identity known)
                (length-registered (py.str_of (int pid)) identity known
                  (live_consumers-AreLive py process_identity codec
                    (take (max_bytes + 1) (contents file))).0
                  room)
                reads (subst (λ f. length (contents f) ≤ max_bytes) (sym left) small))
      ]
