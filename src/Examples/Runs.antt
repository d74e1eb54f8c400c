-- ===== src/Examples/Runs.antt =====
-- The translation of the example programs.
use granite.Common.{ℕ, ◌≡◌, refl, Bool, true, false}
use granite.Common.Outcome.{Outcome, ok, panic, not_linked}
use granite.PetriNet.Counted.{Counted, counted_net}
use granite.Mir.{TyCtxt}
use granite.Stack
use granite.HashMapCounter
use granite.PetriNet
use granite.Text
use granite.Utils
use granite.Objects
use granite.Memory
use granite.Memory.Map
use granite.Function
use granite.SpecialFunction
use granite.Sync
use granite.Sync.Mutex
use granite.Sync.Condvar
use granite.Sync.Thread
use granite.Sync.Tracking
use granite.MirFunction
use granite.MirFunction.Blocks
use granite.MirFunction.BasicBlock
use granite.MirFunction.Terminator
use granite.Translator
use granite.Translator.Special
use granite.Translator.Calls
use granite.Translator.Visitor
use granite.Translator.Postprocessing
use granite.Translator.Main
use granite.Mir
use granite.Examples.Programs.{lock_program, wait_program, unlinked_program}

abbrev input_arc : ℕ → ℕ → Outcome Counted → Bool
input_arc t p (ok c) = c.seen.input t p
input_arc t p (panic e) = false

abbrev net_of : Outcome Counted → Counted
net_of (ok c) = c
net_of (panic e) = counted_net.new

abbrev pub lock_net : Counted
lock_net = net_of (Main.translate 5 5 lock_program)

abbrev pub wait_net : Counted
wait_net = net_of (Main.translate 5 5 wait_program)

-- all definitions of the translator compute here
runs :
    (input_arc 7 5 (Main.translate 5 5 lock_program) ≡ true)
    × (Main.translate {Net = Counted} 5 5 unlinked_program ≡ panic not_linked)
    × (Main.translate 5 5 lock_program ≡ ok lock_net)
    × (Main.translate 5 5 wait_program ≡ ok wait_net)
    × (wait_net.next ≡ 22)
unfolding Stack.new Stack.push Stack.pop_items Stack.pop Stack.peek_items Stack.peek
    Stack.peek_mut_items Stack.peek_mut HashMapCounter.find_count HashMapCounter.set_count
    HashMapCounter.new HashMapCounter.increment_from HashMapCounter.increment
    HashMapCounter.get_count_from HashMapCounter.get_count PetriNet.add_place
    PetriNet.add_transition PetriNet.add_token PetriNet.add_arc_place_transition
    PetriNet.add_arc_transition_place PetriNet.connect_places Text.begins Text.contains Text.replace
    Text.replace_chars Text.all_chars Utils.def_id_of_kind Utils.function_type
    Utils.extract_def_id_of_called_function_from_operand Utils.operand_place Utils.nth_place
    Utils.extract_nth_argument_as_place Utils.closure_of_const Utils.closure_of_operand
    Utils.first_operand Utils.extract_closure Utils.check_substring_in_place_type Utils.field_number
    Utils.get_field_number_in_projection Objects.new_mutex_ref Objects.new_condvar_ref
    Objects.new_thread_ref Objects.mutex_at Objects.condvar_at Objects.thread_at Objects.set_mutex
    Objects.set_condvar Objects.set_thread Memory.insert_value Memory.link_mutex
    Memory.link_mutex_guard Memory.link_join_handle Memory.link_condvar Memory.insert_new
    Memory.link_aggregate Memory.get_linked_value Memory.link_place_to_same_value Memory.get_mutex
    Memory.get_mutex_guard Memory.get_join_handle Memory.get_condvar Memory.copy_aggregate
    Memory.is_guard Memory.is_mutex_guard Memory.linked_values Memory.create_aggregate
    Memory.link_field_in_aggregate Map.get Map.insert Map.contains_key Function.ignore_cleanup_place
    Function.get_start_end_place Function.get_default Function.link_mutex_to_condvar_task
    Function.new_mutex_task Function.is_greatest Function.pop_task SpecialFunction.is_panic_function
    SpecialFunction.is_foreign_function SpecialFunction.call_foreign_function
    SpecialFunction.call_diverging_function SpecialFunction.call_panic_function
    Sync.is_supported_function Sync.call_function Mutex.add_deref_mut_transition Mutex.new
    Mutex.add_lock_arc Mutex.add_unlock_arc Mutex.set_condition Mutex.add_condition
    Mutex.link_transitions Mutex.link_to_condvar Mutex.call_lock Mutex.call_new Mutex.drop_guard
    Mutex.handle_mutex_guard_drop Condvar.new Condvar.add_wait_arcs Condvar.link_to_wait_call
    Condvar.link_to_notify_one_call Condvar.call_new Condvar.call_notify_one Condvar.call_wait
    Thread.new Thread.set_once Thread.set_join_transition Thread.link_fields
    Thread.move_sync_variables Thread.join_arc Thread.prepare_for_translation Thread.call_join
    Tracking.check_if_sync_variable Tracking.add_sync_place Tracking.sync_places
    Tracking.aggregate_if_any Tracking.handle_aggregate_assignment Tracking.link_if_sync_variable
    Tracking.link_first Tracking.link_return_value_if_sync_variable MirFunction.new
    MirFunction.prepare_start_place_for_next_basic_block MirFunction.get_active_block
    MirFunction.prepare_start_place_for_return_statement
    MirFunction.get_start_place_for_function_call MirFunction.insert_block
    MirFunction.add_basic_block MirFunction.ensure_block MirFunction.get_or_add_basic_block
    MirFunction.get_pair_active_block_target_block MirFunction.activate_block
    MirFunction.get_end_place_for_function_call Blocks.get Blocks.insert Blocks.contains_key
    Blocks.is_empty BasicBlock.block_place BasicBlock.new BasicBlock.goto BasicBlock.switch_int
    BasicBlock.unwind BasicBlock.drop BasicBlock.drop_cleanup BasicBlock.assert
    BasicBlock.assert_cleanup BasicBlock.unreachable Terminator.goto Terminator.switch_int
    Terminator.unwind Terminator.drop_to_cleanup Terminator.drop Terminator.assert_to_cleanup
    Terminator.assert Terminator.return_statement Terminator.unreachable Translator.with_net
    Translator.initial_places Translator.new Translator.get_result Translator.context_of
    Translator.on_translator_net Translator.read_top Translator.frame_result Translator.with_frame
    Translator.context_result Translator.with_context Translator.get_count Translator.increment
    Translator.push_function Translator.push_function_to_call_stack Translator.pop_function
    Special.closure_aggregate Special.push_thread Special.is_self_ref_mutex
    Special.call_foreign_function Special.drop_guards Special.call_mem_drop Special.note_deref_mut
    Special.call_deref_mutex Special.call_unwrap_mutex Special.call_thread_spawn Calls.push_task
    Calls.call_places Calls.call_unwind Calls.call_sync_function Calls.call_mir_function
    Calls.call_default Calls.call_unwrap_or_default Calls.start_function_call Calls.finish_call
    Calls.call_function Visitor.visit_basic_block_data Visitor.link_assigned Visitor.link_aggregate
    Visitor.visit_assign Visitor.unwind_to_panic Visitor.unreachable_to_end Visitor.drop_transitions
    Visitor.drop_at_cleanup Visitor.visit_drop Visitor.visit_assert Visitor.visit_terminator
    Visitor.visit Visitor.visit_all Postprocessing.link_all Postprocessing.run_task
    Postprocessing.run_tasks Postprocessing.translation_postprocessing Main.translate_top_call_stack
    Main.set_program_panic Main.translate_thread Main.next_thread Main.pop_thread
    Main.translate_threads Main.run Main.translate Mir.projection_eq Mir.place_eq Mir.has_deref
    Mir.is_indirect
runs = (refl, refl, refl, refl, refl)

-- the transition of the lock takes the token of the mutex
lock_takes : input_arc 7 5 (Main.translate 5 5 lock_program) ≡ true
lock_takes = runs.0

pub unlinked_panics : Main.translate {Net = Counted} 5 5 unlinked_program ≡ panic not_linked
unlinked_panics = runs.1

pub lock_translates : Main.translate 5 5 lock_program ≡ ok lock_net
lock_translates = runs.2

pub wait_translates : Main.translate 5 5 wait_program ≡ ok wait_net
wait_translates = runs.3
