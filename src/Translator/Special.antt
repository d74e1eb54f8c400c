-- ===== src/Translator/Special.antt =====
-- src/translator.rs: the calls that are translated without looking into the called function.
use granite.Common.{
  String, Bool, ◌||◌, Option, none, some, List, [], ◌∷◌, ◌++◌, length, str_eq, if◌then◌else◌,
}
use granite.Common.Outcome.{
  Outcome, ok, expect, argument_not_a_place, Run, pure, lift, gets, ◌>>=◌, ◌>>◌,
}
use granite.PetriNet.{TransitionRef, PetriNet}
use granite.Mir.{Place, Operand}
use granite.Utils.{
  extract_def_id_of_called_function_from_operand, extract_nth_argument_as_place, first_operand,
  extract_closure, check_substring_in_place_type,
}
use granite.Objects.{ThreadRef, ValueVec, nil}
use granite.Memory.{Memory, get_mutex_guard, copy_aggregate, link_join_handle}
use granite.Context.{on_net, on_store, on_memory, on_objects, read_memory}
use granite.Function.{Places, ignore_cleanup_place, Transitions, basic, with_cleanup, get_default}
use granite.SpecialFunction
use granite.Sync.Mutex.{handle_mutex_guard_drop, add_deref_mut_transition}
use granite.Sync.Thread
use granite.Sync.Tracking.{link_return_value_if_sync_variable}
use granite.Translator.{Translator, with_context, read_top, get_count}

-- the sync variables that a closure captured, if there is a closure
unfoldable pub closure_aggregate : Option Place → Memory → Outcome ValueVec
closure_aggregate none m = ok nil
closure_aggregate (some place) m = copy_aggregate place m

module _ {Net : Type 0} where
  -- VecDeque::push_back
  unfoldable pub push_thread : ThreadRef → Run (Translator Net) (Unit {0})
  push_thread thread_ref s = ok (tt, record s { threads = s.threads ++ thread_ref ∷ [] })

  unfoldable pub is_self_ref_mutex : List Operand → Run (Translator Net) Bool
  is_self_ref_mutex args s =
      (do
        self_ref ← lift (expect argument_not_a_place (extract_nth_argument_as_place args 0))
        function ← read_top (λ f. ok f)
        pure (
            check_substring_in_place_type self_ref "std::sync::MutexGuard<" function.def_id s.tcx
            || check_substring_in_place_type self_ref "std::sync::Mutex<" function.def_id s.tcx))
        s

module _ {Net : Type 0} ⦃api : PetriNet Net⦄ where
  unfoldable pub call_foreign_function :
      String → List Operand → (destination : Place) → Places → Run (Translator Net) Transitions
  call_foreign_function function_name args destination places s =
      (do
        index ← get_count function_name
        transitions ←
            with_context (on_net (SpecialFunction.call_foreign_function function_name index places))
        function ← read_top (λ f. ok f)
        with_context
            (on_memory (link_return_value_if_sync_variable function.def_id s.tcx args destination))
        pure transitions)
        s

  unfoldable pub drop_guards : Place → Transitions → Run (Translator Net) (Unit {0})
  drop_guards dropped_place (basic default) =
      with_context (handle_mutex_guard_drop dropped_place default)
  drop_guards dropped_place (with_cleanup default cleanup) = do
    with_context (handle_mutex_guard_drop dropped_place default)
    with_context (handle_mutex_guard_drop dropped_place cleanup)

  unfoldable pub call_mem_drop :
      String → List Operand → (destination : Place) → Places → Run (Translator Net) (Unit {0})
  unfolding drop_guards
  call_mem_drop function_name args destination places = do
    transitions ← call_foreign_function function_name args destination places
    dropped_place ← lift (expect argument_not_a_place (extract_nth_argument_as_place args 0))
    drop_guards dropped_place transitions

  -- the transition that sets the value behind a mutex guard
  unfoldable pub note_deref_mut : List Operand → TransitionRef → Run (Translator Net) (Unit {0})
  note_deref_mut args transition = do
    reference ← lift (expect argument_not_a_place (extract_nth_argument_as_place args 0))
    guard ← with_context (read_memory (get_mutex_guard reference))
    with_context (on_objects (add_deref_mut_transition guard.mutex transition))

  unfoldable pub call_deref_mutex :
      String → List Operand → (destination : Place) → Places → Run (Translator Net) (Unit {0})
  unfolding note_deref_mut
  call_deref_mutex function_name args destination places = do
    transitions ← call_foreign_function function_name args destination (ignore_cleanup_place places)
    if str_eq function_name "std::ops::DerefMut::deref_mut"
        then note_deref_mut args (get_default transitions)
        else pure tt

  unfoldable pub call_unwrap_mutex :
      String → List Operand → (destination : Place) → Places → Run (Translator Net) (Unit {0})
  call_unwrap_mutex function_name args destination places = do
    call_foreign_function function_name args destination (ignore_cleanup_place places)
    pure tt

  unfoldable pub call_thread_spawn :
      String → List Operand → (destination : Place) → Places → Run (Translator Net) (Unit {0})
  unfolding closure_aggregate push_thread
  call_thread_spawn function_name args destination places s =
      (do
        transitions ← call_foreign_function function_name args destination places
        function ← read_top (λ f. ok f)
        function_to_be_run ← lift (first_operand args)
        thread_function_def_id ← lift (
            extract_def_id_of_called_function_from_operand function_to_be_run function.def_id s.tcx)
        closure ← lift (extract_closure args)
        aggregate ← with_context (read_memory (closure_aggregate closure))
        index ← gets (λ s'. length s'.threads)
        thread_ref ← with_context (
            on_store (
              link_join_handle destination
                (Thread.new (get_default transitions) thread_function_def_id aggregate index)))
        push_thread thread_ref)
        s
