-- ===== src/Examples/Witnesses.antt =====
-- The properties at concrete inputs.
use granite.Common.Outcome.Returns.{Returns}
use granite.Common.Outcome.Safe.{is_internal}
use granite.PetriNet.{PlaceRef, TransitionRef, connect_places}
use granite.PetriNet.Counted.{Counted, counted_net, counted_laws}
use granite.PetriNet.View.{empty, with_place, with_tokens, with_output}
use granite.PetriNet.Operations.{connected, connect_places_lem}
use granite.Function.{Places, get_start_end_place}
use granite.SpecialFunction.{call_foreign_function}
use granite.SpecialFunction.Shape.{ForeignCall, call_foreign_function-ForeignCall}
use granite.Sync.Mutex
use granite.Sync.Mutex.Model.{new-unlocked}
use granite.Sync.Mutex.Condition.{Linked, link_to_condvar-Linked}
use granite.Sync.Mutex.Lock.{SelfIsMutex, Locked, call_lock-Locked, handle_mutex_guard_drop-unlocks}
use granite.Sync.Condvar
use granite.Sync.Condvar.Wait.{WaitsOn, waiting, link_to_wait_call-waiting}
use granite.Sync.Condvar.Model.{CondvarModel, new-CondvarModel}
use granite.HashMapCounter
use granite.HashMapCounter.Occurrences.{read, bump, count_of, uses, occurrences, count-uses}
use granite.Stack
use granite.Stack.Laws.{pops, push_all, all_some, pops-push_all}
use granite.Naming.Sanitize.{sanitize}
use granite.Naming.Sanitize.Plain.{sanitize-is_plain}
use granite.Naming.Labels.{place_label-injective}
use granite.Translator.{initial_places}
use granite.Translator.Postprocessing.{run_tasks}
use granite.Translator.Postprocessing.Order.{mutexes_of}
use granite.Translator.Postprocessing.Links.{expected_links, make_links, run_tasks-make_links}
use granite.Safety.Program.{
  HasStarted, initial_places_lem, translate_not_internal, translate-HasStarted,
}
use granite.Safety.Termination.{translate_ends}
use granite.Utils.{extract_nth_argument_as_place}
use granite.Memory.Map.{get, insert}
use granite.Examples.Programs.{lock_program, unlinked_program, self_args}
use granite.Examples.Ranks.{spawning_program, spawning_rank, spawning-Ranked, main_rank}
use granite.Examples.Runs.{unlinked_panics, lock_net, lock_translates}
use granite.Common.{ℕ, ◌≡◌, ◌≢◌, refl, arith, true, false, ◌+◌, List, [], ◌∷◌, ◌++◌, some}
use granite.Common.Outcome.{ok, panic, not_linked, multiple_waits, out_of_fuel}
use granite.Mir.{Place, local_place, place_eq}
use granite.Objects.{
  set_condvar, Guard, ValueVec, nil, cons, aggregate, mutex, mutex_guard, mutex_at,
}
use granite.Memory.Map
use granite.Memory.{
  Memory, get_mutex, link_mutex, linked_values, get_linked_value, link_aggregate, insert_new,
  create_aggregate,
}
use granite.Memory.Links.{LinkedTo, link_mutex-get_mutex, create_aggregate_lem}
use granite.MirFunction.{get_or_add_basic_block, ensure_block, get_active_block}
use granite.MirFunction.Blocks
use granite.MirFunction.Blocks.{contains_key}
use granite.MirFunction.Lookup.{get_or_add_basic_block_again}
use granite.MirFunction.Switch.{all_found, found, Switched, switch_int-Switched}
use granite.MirFunction.Terminator
use granite.Translator.Main.{translate}
use granite.Text.{all_chars}
use granite.Examples.Nets.{
  small_condvar, wait_context, small_net, small_mutex, small_context, small_tasks, small_block,
  small_frame,
}

translate_not_internal_example : is_internal not_linked ≡ false
translate_not_internal_example =
    translate_not_internal counted_laws 5 5 unlinked_program not_linked unlinked_panics

run_tasks-make_links_example :
    run_tasks 3 (small_context.store.objects) small_tasks [] small_net
    ≡ make_links small_context.store.objects
        (expected_links ([] ++ mutexes_of small_tasks) small_tasks)
        small_net
run_tasks-make_links_example =
    run_tasks-make_links small_context.store.objects 3 small_tasks (omega arith)
      (refl, (refl, (refl, tt))) [] small_net

link_to_condvar-Linked_example :
    Returns
      (λ (_, n'). Linked small_net.seen n'.seen 0 1 3 (3 ∷ []))
      (Mutex.link_to_condvar small_mutex 0 0 1 3 small_net)
link_to_condvar-Linked_example =
    link_to_condvar-Linked counted_laws small_mutex 0 0 1 3 small_net refl refl refl (refl, tt)

new-CondvarModel_example :
    Returns
      (λ (c, n').
        (we : PlaceRef) × (ls : TransitionRef) × CondvarModel small_net.seen n'.seen c we ls)
      (Condvar.new 0 small_net)
new-CondvarModel_example = new-CondvarModel counted_laws 0 small_net

self_is_mutex : SelfIsMutex self_args small_context (local_place 1) 0 small_mutex
unfolding extract_nth_argument_as_place get place_eq
self_is_mutex = record { argument = refl; linked = refl; object = refl }

call_lock-Locked_example :
    Returns (Locked counted_laws small_context 0 1 (local_place 3) 0 small_mutex) (
      Mutex.call_lock "std::sync::Mutex::<T>::lock" 0 self_args
        (local_place 3)
        (Places.with_cleanup 0 1 2)
        small_context)
unfolding get_start_end_place
call_lock-Locked_example =
    call_lock-Locked counted_laws "std::sync::Mutex::<T>::lock" 0 self_args (local_place 3)
      (Places.with_cleanup 0 1 2) small_context (local_place 1) 0 small_mutex self_is_mutex refl
      refl refl

handle_mutex_guard_drop-unlocks_example :
    Returns
      (λ (_, c'). (c'.net.seen ≡ with_output 3 2 small_net.seen) × (c'.store ≡ small_context.store))
      (Mutex.handle_mutex_guard_drop (local_place 2) 3 small_context)
unfolding get place_eq
handle_mutex_guard_drop-unlocks_example =
    handle_mutex_guard_drop-unlocks counted_laws (local_place 2) 3 small_context 0 small_mutex refl
      refl refl refl

call_foreign_function-ForeignCall_example :
    Returns
      (λ (ts, n'). ForeignCall small_net.seen n'.seen (Places.with_cleanup 0 1 2) ts)
      (call_foreign_function "std::fs::read" 0 (Places.with_cleanup 0 1 2) small_net)
call_foreign_function-ForeignCall_example =
    call_foreign_function-ForeignCall counted_laws "std::fs::read" 0 (Places.with_cleanup 0 1 2)
      small_net (refl, refl, refl)

initial_places_lem_example :
    Returns
      (λ ((start, end, panicked), n).
        (start ≢ end)
        × (start ≢ panicked)
        × (end ≢ panicked)
        × (n.seen
            ≡ with_tokens start 1 (with_place start (with_place end (with_place panicked empty)))))
      (initial_places counted_net.new)
initial_places_lem_example = initial_places_lem counted_laws

connect_places_lem_example :
    Returns
      (λ (t, n').
        (small_net.seen.is_transition t ≡ false) × (n'.seen ≡ connected 0 1 t small_net.seen))
      (connect_places 0 1 "CALL" small_net)
connect_places_lem_example = connect_places_lem counted_laws 0 1 "CALL" small_net refl refl

new-unlocked_example :
    Returns
      (λ (m, n').
        (small_net.seen.is_place m.mutex ≡ false)
        × (n'.seen ≡ with_tokens m.mutex 1 (with_place m.mutex small_net.seen))
        × (m.deref_mut ≡ []))
      (Mutex.new 4 small_net)
new-unlocked_example = new-unlocked counted_laws 4 small_net

count-uses_example :
    count_of "f" (uses (bump "f" ∷ read "f" ∷ bump "g" ∷ bump "f" ∷ []) HashMapCounter.new)
    ≡ count_of "f" HashMapCounter.new
      + occurrences "f" (bump "f" ∷ read "f" ∷ bump "g" ∷ bump "f" ∷ [])
count-uses_example =
    count-uses "f" (bump "f" ∷ read "f" ∷ bump "g" ∷ bump "f" ∷ []) HashMapCounter.new

abbrev two : List ℕ
two = 7 ∷ 8 ∷ []

pops-push_all_example : pops 2 (push_all two Stack.new) ≡ (all_some two, Stack.new)
pops-push_all_example = pops-push_all two Stack.new

abbrev block_number : ℕ
block_number = 12

place_label-injective_example : block_number ≡ block_number
place_label-injective_example = place_label-injective "main" block_number block_number refl

sanitize-is_plain_example : sanitize "alloc_vec(Vec,T)" ≡ "alloc_vec(Vec,T)"
unfolding all_chars
sanitize-is_plain_example = sanitize-is_plain "alloc_vec(Vec,T)" refl

found_again : get_or_add_basic_block {Net = Counted} 1 small_frame ≡ ok (small_block 1, small_frame)
unfolding get_or_add_basic_block ensure_block contains_key Blocks.get
found_again = refl

get_or_add_basic_block_again_example :
    get_or_add_basic_block {Net = Counted} 1 small_frame ≡ ok (small_block 1, small_frame)
get_or_add_basic_block_again_example =
    get_or_add_basic_block_again 1 small_frame (small_block 1) small_frame found_again

switch_int-Switched_example :
    Returns
      (λ (_, c').
        (c'.function ≡ small_frame.function)
        × Switched (small_block 0) small_net.seen (small_block 1 ∷ small_block 2 ∷ []) c'.net.seen)
      (Terminator.switch_int (1 ∷ 2 ∷ []) small_frame)
unfolding get_active_block Blocks.get
switch_int-Switched_example =
    switch_int-Switched counted_laws (1 ∷ 2 ∷ []) (small_block 1 ∷ small_block 2 ∷ [])
      (small_block 0) small_frame refl (found refl (found refl all_found)) refl (refl, (refl, tt))

link_mutex-get_mutex_example :
    Returns
      (λ (r, s').
        (get_mutex (local_place 4) s'.memory ≡ ok r)
        × (mutex_at r s'.objects ≡ ok small_mutex)
        × ((other : Place)
            → place_eq (local_place 4) other ≡ false
            → get other s'.memory.map ≡ get other small_context.store.memory.map))
      (link_mutex (local_place 4) small_mutex small_context.store)
link_mutex-get_mutex_example = link_mutex-get_mutex (local_place 4) small_mutex small_context.store

abbrev two_places : List Place
two_places = local_place 2 ∷ local_place 1 ∷ []

abbrev two_values : ValueVec
two_values = cons (mutex_guard (record { mutex = 0 })) (cons (mutex 0) nil)

abbrev aggregated : Memory
aggregated = record {
  map =
      (local_place 1, mutex 0)
      ∷ (local_place 2, mutex_guard (record { mutex = 0 }))
      ∷ (local_place 5, aggregate two_values)
      ∷ [];
}

aggregated_lem :
    create_aggregate (local_place 5) two_places small_context.store.memory ≡ ok (tt, aggregated)
unfolding create_aggregate linked_values get_linked_value link_aggregate insert_new get insert
    Map.contains_key place_eq
aggregated_lem = refl

create_aggregate_example :
    (Map.contains_key (local_place 5) small_context.store.memory.map ≡ false)
    × ((values : ValueVec) × (get (local_place 5) aggregated.map ≡ some (aggregate values))
        × LinkedTo small_context.store.memory two_places values)
    × ((other : Place)
        → place_eq (local_place 5) other ≡ false
        → get other aggregated.map ≡ get other small_context.store.memory.map)
create_aggregate_example =
    create_aggregate_lem (local_place 5) two_places small_context.store.memory aggregated
      aggregated_lem

waits_on : WaitsOn wait_context 0 small_condvar (record { mutex = 0 }) small_mutex
waits_on = record { condvar_object = refl; mutex_object = refl; first_call = refl }

link_to_wait_call-waiting_example :
    Returns
      (λ (_, c').
        (c'.net.seen ≡ waiting counted_laws small_condvar small_mutex 0 2 small_net.seen)
        × (c'.store ≡ record (wait_context.store) {
          objects =
              set_condvar 0
                (record small_condvar { already_linked_to_call = true })
                wait_context.store.objects;
        })
        × ((s' e' : PlaceRef) (g' : Guard)
            → Condvar.link_to_wait_call 0 s' e' g' c' ≡ panic multiple_waits))
      (Condvar.link_to_wait_call 0 0 2 (record { mutex = 0 }) wait_context)
link_to_wait_call-waiting_example =
    link_to_wait_call-waiting counted_laws 0 0 2 (record { mutex = 0 }) wait_context small_condvar
      small_mutex waits_on refl refl refl refl refl

translate_ends_example :
    (rounds : ℕ) × (translate {Net = Counted} 2 rounds spawning_program ≢ panic out_of_fuel)
translate_ends_example =
    translate_ends counted_laws spawning_program spawning_rank 2 spawning-Ranked main_rank

translate-HasStarted_example : HasStarted counted_laws lock_program lock_net
translate-HasStarted_example =
    translate-HasStarted counted_laws 5 5 lock_program lock_net lock_translates
