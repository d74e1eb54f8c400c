-- ===== src/Sync/Mutex.antt =====
-- src/translator/sync/mutex.rs
pub mod Model
pub mod Condition
pub mod Lock
pub mod Exclusion
pub mod Setting
use granite.Common.{ℕ, String, List, [], ◌∷◌, ◌++◌, if◌then◌else◌}
use granite.Common.Outcome.{
  ok, and_then, expect, argument_not_a_place, Run, pure, lift, ◌>>=◌, ◌>>◌,
}
use granite.Naming.Condvar.{wait_skip_label}
use granite.Naming.Mutex.{place_label, condition_place_labels}
use granite.PetriNet.{
  PlaceRef, TransitionRef, PetriNet, add_place, add_token, add_arc_place_transition,
  add_arc_transition_place, connect_places,
}
use granite.Mir.{Place, Operand}
use granite.Utils.{extract_nth_argument_as_place}
use granite.Objects.{MutexRef, Guard, Mutex, Objects, mutex_at, set_mutex}
use granite.Memory.{link_mutex, link_mutex_guard, get_mutex, get_mutex_guard, is_mutex_guard}
use granite.Function.{Places, ignore_cleanup_place, get_default, PostprocessingTask, new_mutex_task}
use granite.SpecialFunction.{call_foreign_function}
use granite.Context.{Context, on_net, on_store, read_memory, read_objects}

unfoldable pub add_deref_mut_transition : MutexRef → TransitionRef → Run Objects (Unit {0})
add_deref_mut_transition r transition o =
    and_then (mutex_at r o)
      λ m. ok (tt, set_mutex r (record m { deref_mut = m.deref_mut ++ transition ∷ [] }) o)

module _ {Net : Type 0} ⦃api : PetriNet Net⦄ where
  -- Mutex::new
  unfoldable pub new : ℕ → Run Net Mutex
  new index = do
    mutex ← add_place (place_label index)
    add_token mutex 1
    pure (record { mutex = mutex; deref_mut = [] })

  unfoldable pub add_lock_arc : Mutex → TransitionRef → Run Net (Unit {0})
  add_lock_arc m lock_transition = add_arc_place_transition m.mutex lock_transition

  unfoldable pub add_unlock_arc : Mutex → TransitionRef → Run Net (Unit {0})
  add_unlock_arc m unlock_transition = add_arc_transition_place unlock_transition m.mutex

  -- the loop over the transitions that set the value of the mutex
  unfoldable pub set_condition :
      (condition_not_set condition_set : PlaceRef) → List TransitionRef → Run Net (Unit {0})
  set_condition condition_not_set condition_set [] = pure tt
  set_condition condition_not_set condition_set (transition_ref ∷ rest) = do
    add_arc_place_transition condition_not_set transition_ref
    add_arc_transition_place transition_ref condition_set
    set_condition condition_not_set condition_set rest

  -- what `link_to_condvar` does once it has found a transition
  unfoldable pub add_condition :
      List TransitionRef
      → ℕ
      → (start_place end_place : PlaceRef) → TransitionRef
      → Run Net (Unit {0})
  unfolding set_condition
  add_condition deref_mut index start_place end_place wait_start = do
    let labels = condition_place_labels index
    condition_not_set ← add_place labels.0
    condition_set ← add_place labels.1
    add_token condition_not_set 1
    set_condition condition_not_set condition_set deref_mut
    add_arc_place_transition condition_not_set wait_start
    add_arc_transition_place wait_start condition_not_set
    wait_skip ← connect_places start_place end_place (wait_skip_label index)
    add_arc_place_transition condition_set wait_skip
    add_arc_transition_place wait_skip condition_set

  unfoldable pub link_transitions :
      List TransitionRef
      → ℕ
      → (start_place end_place : PlaceRef) → TransitionRef
      → Run Net (Unit {0})
  link_transitions [] index start_place end_place wait_start = pure tt
  link_transitions (t ∷ ts) index start_place end_place wait_start =
      add_condition (t ∷ ts) index start_place end_place wait_start

  unfoldable pub link_to_condvar :
      Mutex → ℕ → (start_place end_place : PlaceRef) → TransitionRef → Run Net (Unit {0})
  unfolding link_transitions
  link_to_condvar m = link_transitions m.deref_mut

  unfoldable pub call_lock :
      String → ℕ → List Operand → (destination : Place) → Places → Run (Context Net) (Unit {0})
  call_lock function_name index args destination places = do
    transitions ← on_net (call_foreign_function function_name index (ignore_cleanup_place places))
    let lock_transition = get_default transitions
    self_ref ← lift (expect argument_not_a_place (extract_nth_argument_as_place args 0))
    mutex_ref ← read_memory (get_mutex self_ref)
    m ← read_objects (mutex_at mutex_ref)
    on_net (add_lock_arc m lock_transition)
    on_store (link_mutex_guard destination (record { mutex = mutex_ref }))
    pure tt

  unfoldable pub call_new :
      String → ℕ → (destination : Place) → Places → Run (Context Net) PostprocessingTask
  call_new function_name index destination places = do
    on_net (call_foreign_function function_name index places)
    m ← on_net (new index)
    mutex_ref ← on_store (link_mutex destination m)
    pure (new_mutex_task mutex_ref)

  -- the branch of `handle_mutex_guard_drop` in which the place holds a mutex guard
  unfoldable pub drop_guard : Place → TransitionRef → Run (Context Net) (Unit {0})
  drop_guard place unlock_transition = do
    guard ← read_memory (get_mutex_guard place)
    m ← read_objects (mutex_at guard.mutex)
    on_net (add_unlock_arc m unlock_transition)

  unfoldable pub handle_mutex_guard_drop : Place → TransitionRef → Run (Context Net) (Unit {0})
  unfolding drop_guard
  handle_mutex_guard_drop place unlock_transition c =
      if is_mutex_guard place c.store.memory
      then drop_guard place unlock_transition c
      else ok (tt, c)
