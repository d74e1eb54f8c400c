-- ===== src/Function/Heap.antt =====
-- The heap of the postprocessing tasks: what `pop_task` takes off and what it leaves.
use granite.Common.{◌≡◌, subst, Option, none, some, inl, inr, Bool-cases, List, [], ◌∷◌, All}
use granite.Function.Tasks.{PostprocessingTask, is_greatest, pop_task}

module _ (P : PostprocessingTask → Type 0) where
  -- the task that was taken, and the tasks that are left
  abbrev pub AllPopped : Option (PostprocessingTask × List PostprocessingTask) → Type 0
  AllPopped none = Unit
  AllPopped (some (t, rest)) = P t × All P rest

  -- what holds of every task holds of the one taken off the heap and of the others
  pub pop_task-All : (ts : List PostprocessingTask) → All P ts → AllPopped (pop_task ts)
  unfolding pop_task
  pop_task-All [] h = tt
  pop_task-All (t ∷ ts) h = elim (Bool-cases (is_greatest t ts)) [
    | inl e ↦ rw e h
    | inr e ↦ rw e (
        elim (pop_task ts)
            as (λ o.
              AllPopped o → AllPopped (elim o [ none ↦ none | some (u, us) ↦ some (u, t ∷ us) ])) [
                | none ↦ λ k. tt
                | some (u, us) ↦ λ k. (k.0, (h.0, k.1))
              ]
          (pop_task-All ts h.1))
  ]

  pub AllPopped-some :
      (o : Option (PostprocessingTask × List PostprocessingTask)) (t : PostprocessingTask)
      (rest : List PostprocessingTask)
      → o ≡ some (t, rest)
      → AllPopped o
      → AllPopped (some (t, rest))
  AllPopped-some o t rest e h = subst AllPopped e h
