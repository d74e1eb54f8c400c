-- ===== src/Sync/Condvar.antt =====
-- src/translator/sync/condvar.rs
pub mod Model
pub mod Wait
pub mod Wake
pub mod Call
use granite.Common.{ℕ, String, Bool, true, false, List, if◌then◌else◌}
use granite.Common.Outcome.{
  Outcome, ok, panic, expect, argument_not_a_place, multiple_waits, Run, pure, fail, lift, ◌>>=◌,
  ◌>>◌, modify,
}
use granite.Naming.Condvar.{place_labels, transition_labels}
use granite.PetriNet.{
  PlaceRef, TransitionRef, PetriNet, add_place, add_transition, add_token, add_arc_place_transition,
  add_arc_transition_place,
}
use granite.Mir.{Place, Operand}
use granite.Utils.{extract_nth_argument_as_place}
use granite.Objects.{CondvarRef, Guard, Condvar, condvar_at, mutex_at, set_condvar}
use granite.Memory.{link_condvar, link_place_to_same_value, get_condvar, get_mutex_guard}
use granite.Function.{
  Places, ignore_cleanup_place, get_start_end_place, get_default, PostprocessingTask,
  link_mutex_to_condvar_task,
}
use granite.SpecialFunction.{call_foreign_function}
use granite.Context.{Context, on_net, on_store, on_memory, on_objects, read_memory, read_objects}
use granite.Sync.Mutex.{add_lock_arc, add_unlock_arc}

module _ {Net : Type 0} ⦃api : PetriNet Net⦄ where
  -- Condvar::new
  unfoldable pub new : ℕ → Run Net Condvar
  new index = do
    let places = place_labels index
    wait_enabled ← add_place places.0
    notify ← add_place places.1
    add_token wait_enabled 1
    let transitions = transition_labels index
    wait_start ← add_transition transitions.0
    lost_signal ← add_transition transitions.1
    notify_received ← add_transition transitions.2
    add_arc_place_transition wait_enabled lost_signal
    add_arc_place_transition notify lost_signal
    add_arc_transition_place lost_signal wait_enabled
    add_arc_place_transition wait_enabled wait_start
    add_arc_place_transition notify notify_received
    add_arc_transition_place notify_received wait_enabled
    pure (record {
      wait_start = wait_start;
      notify = notify;
      notify_received = notify_received;
      already_linked_to_call = false;
    })

  -- the arcs that `link_to_wait_call` adds
  unfoldable pub add_wait_arcs :
      Condvar → (start_place end_place : PlaceRef) → Guard → Run (Context Net) (Unit {0})
  add_wait_arcs c start_place end_place mutex_guard_ref = do
    on_net (add_arc_place_transition start_place c.wait_start)
    on_net (add_arc_transition_place c.notify_received end_place)
    m ← read_objects (mutex_at mutex_guard_ref.mutex)
    on_net (add_unlock_arc m c.wait_start)
    on_net (add_lock_arc m c.notify_received)

  unfoldable pub link_to_wait_call :
      CondvarRef → (start_place end_place : PlaceRef) → Guard → Run (Context Net) (Unit {0})
  unfolding add_wait_arcs
  link_to_wait_call r start_place end_place mutex_guard_ref = do
    c ← read_objects (condvar_at r)
    if c.already_linked_to_call then fail multiple_waits else do
      add_wait_arcs c start_place end_place mutex_guard_ref
      on_objects (modify (set_condvar r (record c { already_linked_to_call = true })))

  unfoldable pub link_to_notify_one_call : Condvar → TransitionRef → Run Net (Unit {0})
  link_to_notify_one_call c notify_transition = add_arc_transition_place notify_transition c.notify

  unfoldable pub call_new :
      String → ℕ → (destination : Place) → Places → Run (Context Net) (Unit {0})
  call_new function_name index destination places = do
    on_net (call_foreign_function function_name index places)
    c ← on_net (new index)
    on_store (link_condvar destination c)
    pure tt

  unfoldable pub call_notify_one : String → ℕ → List Operand → Places → Run (Context Net) (Unit {0})
  call_notify_one function_name index args places = do
    transitions ← on_net (call_foreign_function function_name index (ignore_cleanup_place places))
    self_ref ← lift (expect argument_not_a_place (extract_nth_argument_as_place args 0))
    condvar_ref ← read_memory (get_condvar self_ref)
    c ← read_objects (condvar_at condvar_ref)
    on_net (link_to_notify_one_call c (get_default transitions))

  unfoldable pub call_wait :
      String
      → ℕ
      → List Operand
      → (destination : Place) → Places
      → Run (Context Net) PostprocessingTask
  call_wait function_name index args destination places = do
    self_ref ← lift (expect argument_not_a_place (extract_nth_argument_as_place args 0))
    condvar_ref ← read_memory (get_condvar self_ref)
    mutex_guard ← lift (expect argument_not_a_place (extract_nth_argument_as_place args 1))
    mutex_guard_ref ← read_memory (get_mutex_guard mutex_guard)
    let ends = get_start_end_place (ignore_cleanup_place places)
    link_to_wait_call condvar_ref ends.0 ends.1 mutex_guard_ref
    c ← read_objects (condvar_at condvar_ref)
    on_memory (link_place_to_same_value destination mutex_guard)
    pure (link_mutex_to_condvar_task index ends.0 ends.1 c.wait_start)
