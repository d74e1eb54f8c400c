-- ===== src/Stack.antt =====
-- src/data_structures/stack.rs: the call stack of the translation.
-- The vector is a list from its last element, the top, down to its first.
pub mod Laws
use granite.Common.{Bool, true, false, Option, none, some, List, [], ◌∷◌}
use granite.Common.Outcome.{Outcome, ok, panic, empty_stack, Run, and_then}

pub record Stack {ℓ} (T : Type ℓ) : Type ℓ where
  pub items : List T

module _ {ℓ} {T : Type ℓ} where
  unfoldable pub new : Stack T
  new = record { items = [] }

  unfoldable pub push : T → Stack T → Stack T
  push item s = record { items = item ∷ s.items }

  unfoldable pub pop_items : List T → Option T × Stack T
  pop_items [] = (none, record { items = [] })
  pop_items (x ∷ xs) = (some x, record { items = xs })

  unfoldable pub pop : Stack T → Option T × Stack T
  unfolding pop_items
  pop s = pop_items s.items

  unfoldable pub peek_items : List T → Outcome T
  peek_items [] = panic empty_stack
  peek_items (x ∷ xs) = ok x

  unfoldable pub peek : Stack T → Outcome T
  unfolding peek_items
  peek s = peek_items s.items

  unfoldable pub peek_mut_items : {A : Type ℓ} → Run T A → List T → Outcome (A × Stack T)
  peek_mut_items m [] = panic empty_stack
  peek_mut_items m (x ∷ xs) = and_then (m x) λ (a, x'). ok (a, record { items = x' ∷ xs })

  -- `peek_mut` hands out a mutable reference: `m` is what is done through it.
  unfoldable pub peek_mut : {A : Type ℓ} → Run T A → Run (Stack T) A
  unfolding peek_mut_items
  peek_mut m s = peek_mut_items m s.items
