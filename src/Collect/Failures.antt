-- ===== src/Collect/Failures.antt =====
-- What the conversions of numbers in src/kilix_telemetry/collect.py can raise, and `_parse_stat`,
-- which asks for no field that is not there.
use kilix_telemetry.Common.{
  ℕ, zero, suc, ◌≤◌, ◌<◌, ℤ, ◌≡◌, refl, sym, subst, ◌⊎◌, inl, inr, String, ◌||◌, some, List, [],
  ◌∷◌, length, get_elem?, leb, arith, Result, Exc, ok, err, value_error, overflow_error, ◌>>=◌,
  Bool-cases, Option-cases,
}
use kilix_telemetry.Values.{Python, prefix}
use kilix_telemetry.Text.{Unicode, split, find, rfind, suffix_from}
use kilix_telemetry.Collect.{to_float}
use kilix_telemetry.Collect.Stat.{
  Stat, ProcessFiles, MetaCache, field_at, int_of_text, int_field, stat_of, caught_stat,
  stat_between, parse_stat, raw_process,
}
use kilix_telemetry.Collect.State.{Settings}
use kilix_telemetry.Collect.Processes.{numbered, raw_processes}

-- A ValueError or an OverflowError, of a conversion of a number.
abbrev pub IsNumberError : Exc → Type 0
IsNumberError e = (e ≡ value_error) ⊎ (e ≡ overflow_error)

-- The call returns or raises such an error.
abbrev pub FailsByNumber {ℓ} : {A : Type ℓ} → Result A → Type 0
FailsByNumber (ok a) = Unit
FailsByNumber (err e) = IsNumberError e

pub FailsByNumber-bind {ℓ κ} :
    {A : Type ℓ} {B : Type κ} (m : Result A) (f : A → Result B)
    → FailsByNumber m
    → ((a : A) → m ≡ ok a → FailsByNumber (f a))
    → FailsByNumber (m >>= f)
FailsByNumber-bind (ok a) f h k = k a refl
FailsByNumber-bind (err e) f h k = h

-- An index below the length is there.
get_elem?-some {ℓ} :
    {A : Type ℓ} (xs : List A) (i : ℕ) → i < length xs → (x : A) × (get_elem? xs i ≡ some x)
get_elem?-some [] i low = absurd (omega (arith, low))
get_elem?-some (x ∷ xs) zero low = (x, refl)
get_elem?-some (x ∷ xs) (suc i) low = get_elem?-some xs i (omega (arith, low))

module _ {F : Type 0} (py : Python F) where
  pub to_float-FailsByNumber : (z : ℤ) → FailsByNumber (to_float py z)
  to_float-FailsByNumber z = elim (Option-cases (py.float_of_int z)) [
    | inl e ↦ rw (to_float, e) (inr refl)
    | inr (f, e) ↦ rw (to_float, e) tt
  ]

  pub numbered-FailsByNumber :
      (unicode : Unicode) (directories : List ProcessFiles)
      → FailsByNumber (numbered py unicode directories)
  unfolding numbered
  numbered-FailsByNumber unicode [] = tt
  numbered-FailsByNumber unicode (files ∷ rest) =
      let others = numbered-FailsByNumber unicode rest in
      elim (Bool-cases (unicode.is_digits files.directory)) [
        | inr skipped ↦ rw skipped others
        | inl digits ↦ elim (Option-cases (py.int_of_str files.directory)) [
          | inl e ↦ rw (digits, e) (inl refl)
          | inr (pid, e) ↦
              rw (digits, e) (FailsByNumber-bind (numbered py unicode rest) _ others λ r h. tt)
        ]
      ]

  field_at-FailsByNumber :
      (fields : List String) (i : ℕ) → i < length fields → FailsByNumber (field_at fields i)
  unfolding field_at
  field_at-FailsByNumber fields i low =
      let (text, found) = get_elem?-some fields i low in rw (field_at, found) tt

  int_field-FailsByNumber :
      (fields : List String) (i : ℕ) → i < length fields → FailsByNumber (int_field py fields i)
  unfolding int_field int_of_text
  int_field-FailsByNumber fields i low =
      FailsByNumber-bind (field_at fields i) _ (field_at-FailsByNumber fields i low) λ text e.
        elim (Option-cases (py.int_of_str text)) [
          | inl e ↦ rw (int_of_text, e) (inl refl)
          | inr (z, e) ↦ rw (int_of_text, e) tt
        ]

  module _ (unicode : Unicode) where
    -- Where there are more than 21 fields, every one that is asked for is there.
    stat_of-FailsByNumber :
        (pid : ℤ) (command : String) (page_size : ℤ) (fields : List String)
        → 21 < length fields
        → FailsByNumber (stat_of py unicode pid command page_size fields)
    unfolding stat_of
    stat_of-FailsByNumber pid command page_size fields many =
        let at : (i : ℕ) → i ≤ 21 → FailsByNumber (int_field py fields i) =
          λ i low. int_field-FailsByNumber fields i (omega (arith, many, low)) in
        FailsByNumber-bind _ _ (at 1 (omega arith)) λ ppid e.
          FailsByNumber-bind _ _ (at 19 (omega arith)) λ start e.
            FailsByNumber-bind _ _ (at 11 (omega arith)) λ user e.
              FailsByNumber-bind _ _ (at 12 (omega arith)) λ system e.
                FailsByNumber-bind _ _ (at 13 (omega arith)) λ child_user e.
                  FailsByNumber-bind _ _ (at 14 (omega arith)) λ child_system e.
                    FailsByNumber-bind _ _ (at 21 (omega arith)) λ rss e.
                      FailsByNumber-bind _ _ (at 20 (omega arith)) λ virtual e.
                        FailsByNumber-bind _ _
                          (field_at-FailsByNumber fields 0 (omega (arith, many)))
                          λ state e. FailsByNumber-bind _ _ (at 17 (omega arith)) λ threads e. tt

    caught_stat-FailsByNumber : (r : Result Stat) → FailsByNumber r → FailsByNumber (caught_stat r)
    caught_stat-FailsByNumber (ok stat) h = tt
    caught_stat-FailsByNumber (err x) (inl e) =
        subst (λ x. FailsByNumber (caught_stat (err x))) (sym e) tt
    caught_stat-FailsByNumber (err x) (inr e) =
        subst (λ x. FailsByNumber (caught_stat (err x))) (sym e) (inr refl)

    stat_between-FailsByNumber :
        (pid : ℤ) (text : String) (page_size : ℤ) (left right : ℕ)
        → FailsByNumber (stat_between py unicode pid text page_size left right)
    unfolding stat_between
    stat_between-FailsByNumber pid text page_size left right =
        let fields : List String = split (suffix_from (suc right) text) in
        elim (Bool-cases (leb right left || leb (length fields) 21)) [
          | inl e ↦ rw e tt
          | inr e ↦ rw e (
              caught_stat-FailsByNumber _ (
                stat_of-FailsByNumber pid (suffix_from (suc left) (prefix right text)) page_size
                  fields (ground (arith, e))))
        ]

    parse_stat-FailsByNumber :
        (pid : ℤ) (text : String) (page_size : ℤ)
        → FailsByNumber (parse_stat py unicode pid text page_size)
    unfolding parse_stat
    parse_stat-FailsByNumber pid text page_size = elim (Option-cases (find b'(' text)) [
      | inl e ↦ rw (parse_stat, e) tt
      | inr (left, e) ↦ elim (Option-cases (rfind b')' text)) [
        | inl f ↦ rw (parse_stat, e, f) tt
        | inr (right, f) ↦
            rw (parse_stat, e, f) (stat_between-FailsByNumber pid text page_size left right)
      ]
    ]

    pub raw_processes-FailsByNumber :
        (settings : Settings) (now_ns : ℤ) (cache : MetaCache) (listed : List (ℤ × ProcessFiles))
        → FailsByNumber (raw_processes py unicode settings now_ns cache listed)
    unfolding raw_processes raw_process
    raw_processes-FailsByNumber settings now_ns cache [] = tt
    raw_processes-FailsByNumber settings now_ns cache ((pid, files) ∷ rest) =
        FailsByNumber-bind _ _
          (FailsByNumber-bind _ _ (parse_stat-FailsByNumber pid files.stat settings.page_size)
            λ stat e. tt)
          λ read e.
            FailsByNumber-bind _ _ (raw_processes-FailsByNumber settings now_ns read.1 rest)
              λ others h. tt
