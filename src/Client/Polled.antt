-- ===== src/Client/Polled.antt =====
-- The client's table of polled roots: the one that is noted, and the stale ones that are deleted.
use kilix_telemetry.Common.{
  ℤ, ◌==ℤ◌, ==ℤ_iff, ◌≡◌, refl, sym, subst, ◌⊎◌, inl, inr, ◌↔◌, true, false, none, some, List, [],
  ◌∷◌, All, map, arith, if◌then◌else◌, Bool-cases,
}
use kilix_telemetry.IntSet.{contains, contains-cons, contains-nil, IsDistinct}
use kilix_telemetry.Values.{Python}
use kilix_telemetry.Dict.{lookup, assign}
use kilix_telemetry.Collect.Trees.{same_roots}
use kilix_telemetry.Client.Registration.{still_polled}

pub same_roots-eq : (a b : List ℤ) → same_roots a b ≡ true → a ≡ b
unfolding same_roots
same_roots-eq [] [] e = refl
same_roots-eq [] (y ∷ b) e = absurd (cc)
same_roots-eq (x ∷ a) [] e = absurd (cc)
same_roots-eq (x ∷ a) (y ∷ b) e =
    let same : x ≡ y = ground (arith, ==ℤ_iff x y) in
    let rest : a ≡ b = same_roots-eq a b (ground arith) in cc

module _ {V : Type 0} where
  abbrev pub keys : List (ℤ × V) → List ℤ
  keys = map (λ entry. entry.0)

  contains-assign :
      (key other : ℤ) (v : V) (d : List (ℤ × V))
      → (contains other (keys (assign ◌==ℤ◌ key v d)) ≡ true)
        ↔ ((other ≡ key) ⊎ (contains other (keys d) ≡ true))
  unfolding assign
  contains-assign key other v [] = contains-cons other key []
  contains-assign key other v ((first, old) ∷ rest) = elim (Bool-cases (first ==ℤ key)) [
    | inl e ↦ rw e (ground (arith, ==ℤ_iff first key, contains-cons other first (keys rest)))
    | inr e ↦ rw e (
        ground (
          arith,
          contains-cons other first (keys (assign ◌==ℤ◌ key v rest)),
          contains-cons other first (keys rest),
          contains-assign key other v rest,
        ))
  ]

  pub keys-assign-IsDistinct :
      (key : ℤ) (v : V) (d : List (ℤ × V))
      → IsDistinct (keys d)
      → IsDistinct (keys (assign ◌==ℤ◌ key v d))
  unfolding assign
  keys-assign-IsDistinct key v [] h = (contains-nil key, tt)
  keys-assign-IsDistinct key v ((first, old) ∷ rest) h = elim (Bool-cases (first ==ℤ key)) [
    | inl e ↦ rw e h
    | inr e ↦ rw e (
      ground (arith, ==ℤ_iff first key, contains-assign key first v rest, h.0),
      keys-assign-IsDistinct key v rest h.1,
    )
  ]

module _ {F : Type 0} (py : Python F) where
  -- A root that was seen at or behind the horizon.
  abbrev pub IsRecent : F → ℤ × F → Type 0
  IsRecent horizon entry = py.lt entry.1 horizon ≡ false

  pub still_polled-IsRecent :
      (horizon : F) (d : List (ℤ × F)) → All (IsRecent horizon) (still_polled py horizon d)
  unfolding still_polled
  still_polled-IsRecent horizon [] = tt
  still_polled-IsRecent horizon ((known, seen) ∷ rest) = elim (Bool-cases (py.lt seen horizon)) [
    | inl e ↦ rw e (still_polled-IsRecent horizon rest)
    | inr e ↦ rw e (e, still_polled-IsRecent horizon rest)
  ]

  pub lookup-still_polled :
      (horizon : F) (key : ℤ) (seen : F) (d : List (ℤ × F))
      → py.lt seen horizon ≡ false
      → lookup ◌==ℤ◌ key d ≡ some seen
      → lookup ◌==ℤ◌ key (still_polled py horizon d) ≡ some seen
  unfolding lookup still_polled
  lookup-still_polled horizon key seen [] recent e = absurd (cc)
  lookup-still_polled horizon key seen ((known, old) ∷ rest) recent e =
      elim (Bool-cases (known ==ℤ key)) [
        | inl same ↦
            let first : some old ≡ some seen =
              subst (λ b. (if b then some old else lookup ◌==ℤ◌ key rest) ≡ some seen) same e in
            let kept : py.lt old horizon ≡ false = cc in rw (kept, same) first
        | inr differs ↦
            let found : lookup ◌==ℤ◌ key rest ≡ some seen =
              subst (λ b. (if b then some old else lookup ◌==ℤ◌ key rest) ≡ some seen) differs e in
            let later : lookup ◌==ℤ◌ key (still_polled py horizon rest) ≡ some seen =
              lookup-still_polled horizon key seen rest recent found in
            elim (Bool-cases (py.lt old horizon)) [
              | inl dropped ↦ rw dropped later
              | inr kept ↦ rw (kept, differs) later
            ]
      ]

  -- A key that is not there is not found.
  lookup-absent :
      {V : Type 0} (key : ℤ) (d : List (ℤ × V))
      → contains key (keys d) ≡ false
      → lookup ◌==ℤ◌ key d ≡ none
  unfolding lookup
  lookup-absent key [] absent = refl
  lookup-absent key ((known, v) ∷ rest) absent = elim (Bool-cases (known ==ℤ key)) [
    | inl e ↦
        let here : contains key (known ∷ keys rest) ≡ true =
          (contains-cons key known (keys rest)).1 (inl (sym ((==ℤ_iff known key).0 e))) in
        absurd (cc)
    | inr e ↦
        rw e (lookup-absent key rest (ground (arith, contains-cons key known (keys rest), absent)))
  ]

  -- A root that is found was found before, and not before the horizon.
  pub lookup-still_polled_inv :
      (horizon : F) (key : ℤ) (seen : F) (d : List (ℤ × F))
      → IsDistinct (keys d)
      → lookup ◌==ℤ◌ key (still_polled py horizon d) ≡ some seen
      → (lookup ◌==ℤ◌ key d ≡ some seen) × (py.lt seen horizon ≡ false)
  unfolding lookup still_polled
  lookup-still_polled_inv horizon key seen [] distinct e = absurd (cc)
  lookup-still_polled_inv horizon key seen ((known, old) ∷ rest) distinct e =
      elim (Bool-cases (py.lt old horizon)) [
        | inl dropped ↦
            let later : lookup ◌==ℤ◌ key (still_polled py horizon rest) ≡ some seen =
              subst
                (λ b.
                  lookup ◌==ℤ◌ key (
                    if b
                    then still_polled py horizon rest
                    else (known, old) ∷ still_polled py horizon rest)
                  ≡ some seen)
                dropped e in
            let (found, recent) = lookup-still_polled_inv horizon key seen rest distinct.1 later in
            elim (Bool-cases (known ==ℤ key)) [
              | inl same ↦
                  let eq : known ≡ key = (==ℤ_iff known key).0 same in
                  let absent : contains key (keys rest) ≡ false =
                    subst (λ k. contains k (keys rest) ≡ false) eq distinct.0 in
                  let missing : lookup ◌==ℤ◌ key rest ≡ none = lookup-absent key rest absent in
                  absurd (cc)
              | inr differs ↦ (rw differs found, recent)
            ]
        | inr kept ↦
            let here : (if known ==ℤ key
                  then some old
                  else lookup ◌==ℤ◌ key (still_polled py horizon rest))
                ≡ some seen =
              subst
                (λ b.
                  lookup ◌==ℤ◌ key (
                    if b
                    then still_polled py horizon rest
                    else (known, old) ∷ still_polled py horizon rest)
                  ≡ some seen)
                kept e in
            elim (Bool-cases (known ==ℤ key)) [
              | inl same ↦
                  let first : some old ≡ some seen =
                    subst
                      (λ b.
                        (if b then some old else lookup ◌==ℤ◌ key (still_polled py horizon rest))
                        ≡ some seen)
                      same here in
                  (rw same first, cc)
              | inr differs ↦
                  let later : lookup ◌==ℤ◌ key (still_polled py horizon rest) ≡ some seen =
                    subst
                      (λ b.
                        (if b then some old else lookup ◌==ℤ◌ key (still_polled py horizon rest))
                        ≡ some seen)
                      differs here in
                  let (found, recent) =
                    lookup-still_polled_inv horizon key seen rest distinct.1 later in
                  (rw differs found, recent)
            ]
      ]

  contains-still_polled :
      (horizon : F) (key : ℤ) (d : List (ℤ × F))
      → contains key (keys (still_polled py horizon d)) ≡ true
      → contains key (keys d) ≡ true
  unfolding still_polled
  contains-still_polled horizon key [] e = e
  contains-still_polled horizon key ((known, seen) ∷ rest) e = ground (
    arith,
    contains-still_polled horizon key rest,
    contains-cons key known (keys (still_polled py horizon rest)),
    contains-cons key known (keys rest),
  )

  pub still_polled-IsDistinct :
      (horizon : F) (d : List (ℤ × F))
      → IsDistinct (keys d)
      → IsDistinct (keys (still_polled py horizon d))
  unfolding still_polled
  still_polled-IsDistinct horizon [] h = tt
  still_polled-IsDistinct horizon ((known, seen) ∷ rest) h =
      elim (Bool-cases (py.lt seen horizon)) [
        | inl e ↦ rw e (still_polled-IsDistinct horizon rest h.1)
        | inr e ↦ rw e (
          ground (arith, contains-still_polled horizon known rest, h.0),
          still_polled-IsDistinct horizon rest h.1,
        )
      ]
