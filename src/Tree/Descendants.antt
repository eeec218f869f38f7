-- ===== src/Tree/Descendants.antt =====
-- `_process_children` and `_descendant_pids` together, against the process table itself.
use kilix_telemetry.Common.{
  ℤ, ==ℤ_iff, ◌≡◌, ◌↔◌, ◌⊎◌, inl, inr, true, List, [], ◌∷◌, ◌++◌, some, arith, ◌+◌, length,
}
use kilix_telemetry.IntSet.{
  contains, contains-nil, add, extend, IsDistinct, contains-cons, contains-add,
}
use kilix_telemetry.Tree.{
  Children, children_of, append_child, index_processes, process_children, walk, child_count,
  descendant_pids,
}
use kilix_telemetry.Tree.Walk.{Reaches, root, child, descendant_pids_lem}

contains-concat :
    (v x : ℤ) (xs : List ℤ)
    → (contains v (xs ++ x ∷ []) ≡ true) ↔ ((contains v xs ≡ true) ⊎ (v ≡ x))
unfolding contains
contains-concat v x [] = ground (arith, contains-cons v x [])
contains-concat v x (y ∷ xs) =
    ground (arith, contains-concat v x xs, contains-cons v y xs, contains-cons v y (xs ++ x ∷ []))

contains-append_child :
    (u v k x : ℤ) (children : Children)
    → (contains v (children_of u (append_child k x children)) ≡ true)
      ↔ ((contains v (children_of u children) ≡ true) ⊎ (k ≡ u) × (x ≡ v))
unfolding children_of append_child
contains-append_child u v k x [] = ground (arith, ==ℤ_iff k u, contains-cons v x [], contains-nil v)
contains-append_child u v k x ((key, pids) ∷ rest) = ground (
  arith,
  contains-append_child u v k x rest,
  ==ℤ_iff key k,
  ==ℤ_iff key u,
  ==ℤ_iff k u,
  contains-concat v x pids,
)

module _ {A : Type 0} (pid : A → ℤ) where
  -- Some record of the table has this PID.
  abbrev pub HasPid : ℤ → List A → Type 0
  HasPid v [] = ⊥
  HasPid v (process ∷ rest) = (pid process ≡ v) ⊎ HasPid v rest

module _ {A : Type 0} (pid ppid : A → ℤ) where
  -- Some record of the table has the PID `v` and the parent `u`.
  abbrev pub HasChild : ℤ → ℤ → List A → Type 0
  HasChild u v [] = ⊥
  HasChild u v (process ∷ rest) = (ppid process ≡ u) × (pid process ≡ v) ⊎ HasChild u v rest

  -- A listed root that is in the table, or a process whose parent is selected.
  pub data Descendant (table : List A) (roots : List ℤ) : ℤ → Type 0 where
    listed : {v : ℤ} → contains v roots ≡ true → HasPid pid v table → Descendant table roots v
    child_of : {u v : ℤ} → Descendant table roots u → HasChild u v table → Descendant table roots v

  contains-index :
      (live : List ℤ) (children : Children) (table : List A) (v : ℤ)
      → (contains v (index_processes pid ppid live children table).0 ≡ true)
        ↔ ((contains v live ≡ true) ⊎ HasPid pid v table)
  unfolding index_processes
  contains-index live children [] v = ground arith
  contains-index live children (process ∷ rest) v = ground (
    arith,
    contains-index (add (pid process) live) (append_child (ppid process) (pid process) children)
        rest v,
    contains-add v (pid process) live,
  )

  children_of-index :
      (live : List ℤ) (children : Children) (table : List A) (u v : ℤ)
      → (contains v (children_of u (index_processes pid ppid live children table).1) ≡ true)
        ↔ ((contains v (children_of u children) ≡ true) ⊎ HasChild u v table)
  unfolding index_processes
  children_of-index live children [] u v = ground arith
  children_of-index live children (process ∷ rest) u v = ground (
    arith,
    children_of-index (add (pid process) live) (append_child (ppid process) (pid process) children)
        rest u v,
    contains-append_child u v (ppid process) (pid process) children,
  )

  pub HasPid-of_HasChild : (u v : ℤ) (table : List A) → HasChild u v table → HasPid pid v table
  HasPid-of_HasChild u v [] h = h
  HasPid-of_HasChild u v (process ∷ rest) (inl h) = inl h.1
  HasPid-of_HasChild u v (process ∷ rest) (inr h) = inr (HasPid-of_HasChild u v rest h)

  module _ (table : List A) (roots : List ℤ) where
    abbrev pub live : List ℤ
    live = (process_children pid ppid table).0

    abbrev pub children : Children
    children = (process_children pid ppid table).1

    contains-live : (v : ℤ) → (contains v live ≡ true) ↔ HasPid pid v table
    unfolding process_children
    contains-live v = ground (arith, contains-index [] [] table v, contains-nil v)

    contains-children :
        (u v : ℤ) → (contains v (children_of u children) ≡ true) ↔ HasChild u v table
    unfolding process_children children_of
    contains-children u v = ground (arith, children_of-index [] [] table u v, contains-nil v)

    pub HasPid-of_Descendant : {v : ℤ} → Descendant table roots v → HasPid pid v table
    HasPid-of_Descendant (listed r h) = h
    HasPid-of_Descendant (child_of {u} {v} p c) = HasPid-of_HasChild u v table c

    Descendant-of_Reaches : {v : ℤ} → Reaches live children roots v → Descendant table roots v
    Descendant-of_Reaches (root {v} r l) = listed r ((contains-live v).0 l)
    Descendant-of_Reaches (child {u} {v} p c l) =
        child_of (Descendant-of_Reaches p) ((contains-children u v).0 c)

    Reaches-of_Descendant : {v : ℤ} → Descendant table roots v → Reaches live children roots v
    Reaches-of_Descendant (listed {v} r l) = root r ((contains-live v).1 l)
    Reaches-of_Descendant (child_of {u} {v} p c) =
        child (Reaches-of_Descendant p) ((contains-children u v).1 c)
          ((contains-live v).1 (HasPid-of_HasChild u v table c))

    -- The walk over the index of a process table returns within its fuel, lists no PID twice,
    -- and lists exactly the roots that are in the table and, from each listed process on, all
    -- the processes whose parent it is.
    pub descendant_pids_correct :
        (walk live children (length roots + child_count children) [] (extend roots [])
          ≡ some (descendant_pids live children roots))
        × IsDistinct (descendant_pids live children roots)
        × ((v : ℤ)
            → (contains v (descendant_pids live children roots) ≡ true) ↔ Descendant table roots v)
    descendant_pids_correct =
        let (e, d, h) = descendant_pids_lem live children roots in
        (
          e,
          d,
          λ v. (λ c. Descendant-of_Reaches ((h v).0 c), λ p. (h v).1 (Reaches-of_Descendant p)),
        )
