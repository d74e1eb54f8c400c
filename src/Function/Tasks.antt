-- ===== src/Function/Tasks.antt =====
-- The postprocessing tasks, and the heap from which they are taken by priority.
use granite.Common.{ℕ, Bool, true, ◌&&◌, Option, none, some, List, [], ◌∷◌, leb, if◌then◌else◌}
use granite.PetriNet.{PlaceRef, TransitionRef}
use granite.Objects.{MutexRef}

pub data PostprocessingTask : Type 0 where
  link_mutex_to_condvar :
      (priority index : ℕ) (start_place end_place : PlaceRef) (wait_start : TransitionRef)
      → PostprocessingTask
  new_mutex : (priority : ℕ) (mutex_ref : MutexRef) → PostprocessingTask

-- The two functions that create a task.
unfoldable pub link_mutex_to_condvar_task :
    ℕ → (start_place end_place : PlaceRef) → TransitionRef → PostprocessingTask
link_mutex_to_condvar_task index start_place end_place wait_start =
    link_mutex_to_condvar 1 index start_place end_place wait_start

unfoldable pub new_mutex_task : MutexRef → PostprocessingTask
new_mutex_task mutex_ref = new_mutex 2 mutex_ref

abbrev pub get_priority : PostprocessingTask → ℕ
get_priority (link_mutex_to_condvar priority index start_place end_place wait_start) = priority
get_priority (new_mutex priority mutex_ref) = priority

-- `task` is popped before the tasks of the list: by `cmp`, no task of the list is greater
unfoldable pub is_greatest : PostprocessingTask → List PostprocessingTask → Bool
is_greatest task [] = true
is_greatest task (t ∷ ts) = leb (get_priority t) (get_priority task) && is_greatest task ts

-- BinaryHeap::pop: a task of the greatest priority, and the other tasks. Which one of several is
-- not specified; this takes the first of the list.
unfoldable pub pop_task :
    List PostprocessingTask → Option (PostprocessingTask × List PostprocessingTask)
pop_task [] = none
pop_task (t ∷ ts) =
    let rest = pop_task ts in
    if is_greatest t ts
    then some (t, ts)
    else elim rest [ none ↦ none | some (u, us) ↦ some (u, t ∷ us) ]
