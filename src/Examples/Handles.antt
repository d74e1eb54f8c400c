-- ===== src/Examples/Handles.antt =====
-- Threads, calls of `wait` and aliases on a small net.
use granite.Common.{◌≡◌, refl, false, some, none, List, [], ◌∷◌}
use granite.Common.Outcome.Returns.{Returns}
use granite.PetriNet.Counted.{Counted, counted_net, counted_laws}
use granite.Mir.{Place, local_place, place_eq, Operand, move}
use granite.Objects.{Thread, nil, join_handle, condvar, mutex_guard}
use granite.Utils.{extract_nth_argument_as_place}
use granite.Function.{Places, get_start_end_place}
use granite.Context.{Context}
use granite.Memory.{link_place_to_same_value}
use granite.Memory.Map.{get}
use granite.Memory.Aliases.{NotesThrough, link_place_to_same_value-shares}
use granite.Sync.Condvar.{call_wait}
use granite.Sync.Condvar.Call.{WaitArguments, Waited, call_wait-Waited}
use granite.Sync.Thread.{prepare_for_translation, call_join}
use granite.Sync.Thread.Handle.{
  SelfIsThread, Prepared, Joined, prepare_for_translation-Prepared, call_join-IsJoin,
}
use granite.Examples.Nets.{small_net, small_mutex, small_context, small_condvar, wait_context}

-- `_4` becomes an alias of the guard `_2`
link_place_to_same_value-shares_example :
    Returns
      (λ (_, memory).
        NotesThrough (local_place 4) 0 small_mutex 3 small_context.store.objects memory
        × NotesThrough (local_place 2) 0 small_mutex 3 small_context.store.objects memory
        × ((other : Place)
            → place_eq (local_place 4) other ≡ false
            → get other memory.map ≡ get other small_context.store.memory.map))
      (link_place_to_same_value (local_place 4) (local_place 2) small_context.store.memory)
unfolding get place_eq
link_place_to_same_value-shares_example =
    link_place_to_same_value-shares (local_place 4) (local_place 2) small_context.store 0
      small_mutex 3 refl refl

abbrev joined_thread : Thread
joined_thread = record {
  spawn_transition = 3;
  def_id = 1;
  aggregate = nil;
  join_transition = some 3;
  index = 0;
}

prepare_for_translation-Prepared_example :
    Returns
      (λ (a, n'). Prepared counted_laws joined_thread small_net a n')
      (prepare_for_translation joined_thread small_net)
prepare_for_translation-Prepared_example =
    prepare_for_translation-Prepared counted_laws joined_thread small_net refl refl

abbrev new_thread : Thread
new_thread = record joined_thread { join_transition = none }

-- `_3` is linked to the join handle of the thread
abbrev thread_context : Context Counted
thread_context = record small_context {
  store = record {
    objects = record (small_context.store.objects) { threads = new_thread ∷ [] };
    memory = record { map = (local_place 3, join_handle 0) ∷ [] };
  };
}

abbrev handle_args : List Operand
handle_args = move (local_place 3) ∷ []

self_is_thread : SelfIsThread handle_args thread_context (local_place 3) 0 new_thread
unfolding extract_nth_argument_as_place get place_eq
self_is_thread = record { argument = refl; linked = refl; object = refl }

call_join-IsJoin_example : Returns (Joined counted_laws thread_context 0 1 0 new_thread) (
    call_join "std::thread::JoinHandle::<T>::join" 0 handle_args
      (Places.with_cleanup 0 1 2)
      thread_context)
unfolding get_start_end_place
call_join-IsJoin_example =
    call_join-IsJoin counted_laws "std::thread::JoinHandle::<T>::join" 0 handle_args
      (Places.with_cleanup 0 1 2) thread_context (local_place 3) 0 new_thread self_is_thread refl
      refl

-- `_3` is linked to the condition variable, `_2` to a guard
abbrev calling_context : Context Counted
calling_context = record wait_context {
  store = record (wait_context.store) {
    memory = record {
      map = (local_place 3, condvar 0) ∷ (local_place 2, mutex_guard (record { mutex = 0 })) ∷ [];
    };
  };
}

abbrev wait_args : List Operand
wait_args = move (local_place 3) ∷ move (local_place 2) ∷ []

wait_arguments :
    WaitArguments wait_args calling_context
      (local_place 3)
      (local_place 2)
      0
      small_condvar
      (record { mutex = 0 })
      small_mutex
unfolding extract_nth_argument_as_place get place_eq
wait_arguments = record {
  self_argument = refl;
  guard_argument = refl;
  condvar_linked = refl;
  guard_linked = refl;
  waits_on = record { condvar_object = refl; mutex_object = refl; first_call = refl };
}

call_wait-Waited_example :
    Returns
      (Waited counted_laws calling_context 0 0 1
        (local_place 4)
        0
        small_condvar
        (record { mutex = 0 })
        small_mutex)
      (call_wait "std::sync::Condvar::wait" 0 wait_args
        (local_place 4)
        (Places.with_cleanup 0 1 2)
        calling_context)
unfolding get_start_end_place
call_wait-Waited_example =
    call_wait-Waited counted_laws "std::sync::Condvar::wait" 0 wait_args (local_place 4)
      (Places.with_cleanup 0 1 2) calling_context (local_place 3) (local_place 2) 0 small_condvar
      (record { mutex = 0 }) small_mutex wait_arguments refl refl refl refl refl
