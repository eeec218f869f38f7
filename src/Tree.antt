-- ===== src/Tree.antt =====
-- The process tree of src/kilix_telemetry/model.py: `_process_children` and `_descendant_pids`.
-- The walk is used on the sampler's raw records and on shared process metrics alike, so it is
-- modelled over any type of records with a `pid` and a `ppid`.
pub mod Walk
pub mod Descendants
use kilix_telemetry.Common.{
  ℕ, zero, suc, ℤ, ◌+◌, ◌==ℤ◌, Bool, true, false, not, ◌||◌, Option, none, some, List, [], ◌∷◌,
  ◌++◌, if◌then◌else◌, length,
}
use mathlib.Core.Option
use kilix_telemetry.IntSet.{contains, add, extend}

-- The parent-to-children map, in the order in which its keys were first set.
abbrev pub Children : Type 0
Children = List (ℤ × List ℤ)

-- `children.get(pid, ())`
unfoldable pub children_of : ℤ → Children → List ℤ
children_of pid [] = []
children_of pid ((key, pids) ∷ rest) = if key ==ℤ pid then pids else children_of pid rest

-- `children.setdefault(ppid, []).append(pid)`
unfoldable pub append_child : ℤ → ℤ → Children → Children
append_child ppid pid [] = (ppid, pid ∷ []) ∷ []
append_child ppid pid ((key, pids) ∷ rest) =
    if key ==ℤ ppid
    then (key, pids ++ pid ∷ []) ∷ rest
    else (key, pids) ∷ append_child ppid pid rest

module _ {ℓ} {A : Type ℓ} (pid ppid : A → ℤ) where
  -- The loop of `_process_children`.
  unfoldable pub index_processes : List ℤ → Children → List A → List ℤ × Children
  index_processes live children [] = (live, children)
  index_processes live children (process ∷ rest) =
      index_processes (add (pid process) live) (append_child (ppid process) (pid process) children)
        rest

  unfoldable pub process_children : List A → List ℤ × Children
  process_children = index_processes [] []

-- The `while pending` loop of `_descendant_pids`. `pending` is kept last element first, so that
-- `pop` takes its head; `none` means that the fuel ran out.
unfoldable pub walk : List ℤ → Children → ℕ → List ℤ → List ℤ → Option (List ℤ)
walk live children zero selected [] = some selected
walk live children zero selected (pid ∷ pending) = none
walk live children (suc fuel) selected [] = some selected
walk live children (suc fuel) selected (pid ∷ pending) =
    elim (contains pid selected || not (contains pid live)) [
      | true ↦ walk live children fuel selected pending
      | false ↦ walk live children fuel (pid ∷ selected) (extend (children_of pid children) pending)
    ]

-- The number of child entries of the map: no round but those for the roots and these is made.
unfoldable pub child_count : Children → ℕ
child_count [] = 0
child_count ((key, pids) ∷ rest) = length pids + child_count rest

unfoldable pub descendant_pids : List ℤ → Children → List ℤ → List ℤ
descendant_pids live children roots =
    Option.get_or (walk live children (length roots + child_count children) [] (extend roots [])) []
