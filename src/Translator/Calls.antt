-- ===== src/Translator/Calls.antt =====
-- src/translator.rs: `call_function` and the choice of the handler. `recurse` stands for
-- `translate_top_call_stack`, which the call of a function with a MIR body enters again.
use granite.Common.{ℕ, String, ◌||◌, Option, none, some, List, ◌∷◌, str_eq, if◌then◌else◌}
use granite.Common.Outcome.{ok, Run, pure, lift, gets, ◌>>=◌, ◌>>◌}
use granite.Naming.Function.{indexed_mir_function_cleanup_label, indexed_mir_function_name}
use granite.PetriNet.{PlaceRef, PetriNet, connect_places}
use granite.Mir.{
  DefId, Place, BasicBlock, Operand, UnwindAction, continue, unreachable, terminate, cleanup,
}
use granite.Utils.{extract_def_id_of_called_function_from_operand}
use granite.Function.{Places, basic, with_cleanup, PostprocessingTask}
use granite.SpecialFunction.{
  is_panic_function, is_foreign_function, call_diverging_function, call_panic_function,
}
use granite.Sync
use granite.Sync.{is_supported_function}
use granite.MirFunction
use granite.MirFunction.{get_start_place_for_function_call, get_end_place_for_function_call}
use granite.Translator.{
  Translator, on_translator_net, with_frame, with_context, read_top, get_count, increment,
  push_function,
}
use granite.Translator.Special.{
  is_self_ref_mutex, call_foreign_function, call_mem_drop, call_deref_mutex, call_unwrap_mutex,
  call_thread_spawn,
}

module _ {Net : Type 0} ⦃api : PetriNet Net⦄ where
  unfoldable pub push_task : Option PostprocessingTask → Run (Translator Net) (Unit {0})
  push_task none s = ok (tt, s)
  push_task (some task) s = ok (tt, record s { postprocessing = task ∷ s.postprocessing })

  -- The places of a call, by its return block and its unwind action. `none`: the call does not
  -- return, and is translated already.
  unfoldable pub call_places :
      Option BasicBlock
      → UnwindAction
      → (start_place : PlaceRef) → String
      → Run (Translator Net) (Option Places)
  call_places (some return_block) continue start_place function_name = do
    end_place ← with_frame (get_end_place_for_function_call return_block)
    pure (some (basic start_place end_place))
  call_places (some return_block) (cleanup cleanup_block) start_place function_name = do
    end_place ← with_frame (get_end_place_for_function_call return_block)
    cleanup_place ← with_frame (get_end_place_for_function_call cleanup_block)
    pure (some (with_cleanup start_place end_place cleanup_place))
  call_places (some return_block) terminate start_place function_name = do
    end_place ← with_frame (get_end_place_for_function_call return_block)
    program_panic ← gets (λ s. s.program_panic)
    pure (some (with_cleanup start_place end_place program_panic))
  call_places none terminate start_place function_name = do
    program_panic ← gets (λ s. s.program_panic)
    pure (some (basic start_place program_panic))
  call_places none (cleanup cleanup_block) start_place function_name = do
    end_place ← with_frame (get_end_place_for_function_call cleanup_block)
    pure (some (basic start_place end_place))
  call_places none continue start_place function_name = do
    program_panic ← gets (λ s. s.program_panic)
    current_function ← read_top (λ f. ok f)
    on_translator_net (
        if is_panic_function function_name
        then call_panic_function start_place program_panic current_function.name
        else call_diverging_function start_place function_name)
    pure none
  call_places (some return_block) unreachable start_place function_name = do
    end_place ← with_frame (get_end_place_for_function_call return_block)
    program_end ← gets (λ s. s.program_end)
    pure (some (with_cleanup start_place end_place program_end))
  call_places none unreachable start_place function_name = do
    program_end ← gets (λ s. s.program_end)
    pure (some (basic start_place program_end))

  -- the unwind transition of a call that has a cleanup place
  unfoldable pub call_unwind : String → ℕ → Places → Run (Translator Net) (PlaceRef × PlaceRef)
  call_unwind function_name index (basic start_place end_place) = pure (start_place, end_place)
  call_unwind function_name index (with_cleanup start_place end_place cleanup_place) = do
    on_translator_net (
        connect_places start_place cleanup_place
          (indexed_mir_function_cleanup_label function_name index))
    pure (start_place, end_place)

  unfoldable pub call_sync_function :
      String → List Operand → (destination : Place) → Places → Run (Translator Net) (Unit {0})
  unfolding push_task
  call_sync_function function_name args destination places = do
    index ← get_count function_name
    task ← with_context (Sync.call_function function_name index args destination places)
    push_task task

  module _ (recurse : Run (Translator Net) (Unit {0})) where
    unfoldable pub call_mir_function : DefId → String → Places → Run (Translator Net) (Unit {0})
    unfolding call_unwind
    call_mir_function function_def_id function_name places = do
      index ← get_count function_name
      (start_place, end_place) ← call_unwind function_name index places
      push_function (
          MirFunction.new function_def_id (indexed_mir_function_name function_name index)
            start_place end_place)
      recurse

    -- the cases behind the special ones
    unfoldable pub call_default :
        DefId
        → String
        → List Operand
        → (destination : Place) → Places
        → Run (Translator Net) (Unit {0})
    unfolding call_mir_function call_sync_function
    call_default function_def_id function_name args destination places s =
        (if str_eq function_name "std::thread::spawn"
            then call_thread_spawn function_name args destination places
            else if is_supported_function function_name
            then call_sync_function function_name args destination places
            else if is_foreign_function function_def_id function_name s.tcx
            then (call_foreign_function function_name args destination places >> pure tt)
            else call_mir_function function_def_id function_name places)
          s

    unfoldable pub call_unwrap_or_default :
        DefId
        → String
        → List Operand
        → (destination : Place) → Places
        → Run (Translator Net) (Unit {0})
    unfolding call_default
    call_unwrap_or_default function_def_id function_name args destination places =
        if str_eq function_name "std::result::Result::<T, E>::unwrap"
        then (do
          on_mutex ← is_self_ref_mutex args
          if on_mutex
              then call_unwrap_mutex function_name args destination places
              else call_default function_def_id function_name args destination places)
        else call_default function_def_id function_name args destination places

    unfoldable pub start_function_call :
        DefId
        → String
        → List Operand
        → (destination : Place) → Places
        → Run (Translator Net) (Unit {0})
    unfolding call_unwrap_or_default
    start_function_call function_def_id function_name args destination places =
        if str_eq function_name "std::mem::drop"
        then call_mem_drop function_name args destination places
        else if str_eq function_name "std::ops::Deref::deref"
            || str_eq function_name "std::ops::DerefMut::deref_mut"
        then (do
          on_mutex ← is_self_ref_mutex args
          if on_mutex
              then call_deref_mutex function_name args destination places
              else call_unwrap_or_default function_def_id function_name args destination places)
        else call_unwrap_or_default function_def_id function_name args destination places

    -- the end of `call_function`; a call that was translated already is not counted
    unfoldable pub finish_call :
        DefId
        → String
        → List Operand
        → (destination : Place) → Option Places
        → Run (Translator Net) (Unit {0})
    finish_call function_def_id function_name args destination none = pure tt
    finish_call function_def_id function_name args destination (some places) = do
      start_function_call function_def_id function_name args destination places
      increment function_name

    unfoldable pub call_function :
        Operand
        → List Operand
        → (destination : Place) → Option BasicBlock
        → UnwindAction
        → Run (Translator Net) (Unit {0})
    unfolding finish_call
    call_function func args destination target unwind s =
        (do
          current_function ← read_top (λ f. ok f)
          function_def_id ←
              lift
                (extract_def_id_of_called_function_from_operand func current_function.def_id s.tcx)
          let function_name = s.tcx.def_path_str function_def_id
          start_place ← lift (get_start_place_for_function_call current_function)
          places ← call_places target unwind start_place function_name
          finish_call function_def_id function_name args destination places)
          s
