-- ===== src/Stack/Laws.antt =====
-- The stack is last in, first out.
use granite.Common.{◌≡◌, refl, Option, some, List, [], ◌∷◌, length, ℕ, zero, suc}
use granite.Stack.{Stack, push, pop, pop_items}

module _ {T : Type 0} where
  -- pushes of the elements of a list, the first of them last
  abbrev pub push_all : List T → Stack T → Stack T
  push_all [] s = s
  push_all (x ∷ xs) s = push x (push_all xs s)

  abbrev pub all_some : List T → List (Option T)
  all_some [] = []
  all_some (x ∷ xs) = some x ∷ all_some xs

  -- so many pops, with what each returned
  pub pops : ℕ → Stack T → List (Option T) × Stack T
  pops zero s = ([], s)
  pops (suc k) s = ((pop s).0 ∷ (pops k (pop s).1).0, (pops k (pop s).1).1)

  -- As many pops as there were pushes return the pushed elements, the last pushed first, and leave
  -- the stack as it was before.
  pub pops-push_all :
      (xs : List T) (s : Stack T) → pops (length xs) (push_all xs s) ≡ (all_some xs, s)
  unfolding pops push pop pop_items
  pops-push_all [] s = refl
  pops-push_all (x ∷ xs) s = rw (pops-push_all xs s) refl
