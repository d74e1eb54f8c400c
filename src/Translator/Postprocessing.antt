-- ===== src/Translator/Postprocessing.antt =====
-- `translation_postprocessing` of src/translator.rs
pub mod Order
pub mod Links
use granite.Common.{ℕ, zero, suc, Option, none, some, List, [], ◌∷◌, ◌++◌, length}
use granite.Common.Outcome.{Outcome, ok, and_then, Run, pure, lift, gets, ◌>>=◌, ◌>>◌}
use granite.PetriNet.{PlaceRef, TransitionRef, PetriNet}
use granite.Objects.{MutexRef, Objects, mutex_at}
use granite.Function.{PostprocessingTask, link_mutex_to_condvar, new_mutex, pop_task}
use granite.Sync.Mutex.{link_to_condvar}
use granite.Translator.{Translator}

module _ {Net : Type 0} ⦃api : PetriNet Net⦄ where
  -- the loop over the mutexes found so far
  unfoldable pub link_all :
      Objects
      → List MutexRef
      → ℕ
      → (start_place end_place : PlaceRef) → TransitionRef
      → Run Net (Unit {0})
  link_all objects [] index start_place end_place wait_start = pure tt
  link_all objects (mutex_ref ∷ mutexes) index start_place end_place wait_start = do
    m ← lift (mutex_at mutex_ref objects)
    link_to_condvar m index start_place end_place wait_start
    link_all objects mutexes index start_place end_place wait_start

  -- what one task does to the mutexes that were collected and to the net
  unfoldable pub run_task : Objects → PostprocessingTask → List MutexRef → Run Net (List MutexRef)
  unfolding link_all
  run_task objects (link_mutex_to_condvar priority index start_place end_place wait_start) mutexes =
      do link_all objects mutexes index start_place end_place wait_start; pure mutexes
  run_task objects (new_mutex priority mutex_ref) mutexes = pure (mutexes ++ mutex_ref ∷ [])

  -- The loop that empties the heap. Each round takes one task off, so that as many rounds as there
  -- are tasks suffice.
  unfoldable pub run_tasks :
      ℕ → Objects → List PostprocessingTask → List MutexRef → Run Net (Unit {0})
  unfolding run_task
  run_tasks zero objects tasks mutexes = pure tt
  run_tasks (suc rounds) objects tasks mutexes = elim (pop_task tasks) [
    | none ↦ pure tt
    | some (task, rest) ↦ do
      mutexes' ← run_task objects task mutexes
      run_tasks rounds objects rest mutexes'
  ]

  unfoldable pub translation_postprocessing : Run (Translator Net) (Unit {0})
  unfolding run_tasks
  translation_postprocessing s =
      and_then (run_tasks (length s.postprocessing) s.objects s.postprocessing [] s.net)
        λ (_, net'). ok (tt, record s { net = net'; postprocessing = [] })
