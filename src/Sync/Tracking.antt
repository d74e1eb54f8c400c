-- ===== src/Sync/Tracking.antt =====
-- src/translator/sync.rs: which places hold a sync variable, and how assignments and calls link
-- them.
use granite.Common.{Bool, ◌||◌, Option, none, some, List, [], ◌∷◌, if◌then◌else◌}
use granite.Common.Outcome.{Run, pure, lift, ◌>>=◌}
use granite.Mir.{DefId, Place, local_place, is_indirect, Operand, copy, move, constant, TyCtxt}
use granite.Utils.{
  check_substring_in_place_type, extract_nth_argument_as_place, get_field_number_in_projection,
}
use granite.Memory.{Memory, create_aggregate, link_place_to_same_value, link_field_in_aggregate}

module _ (caller_function_def_id : DefId) (tcx : TyCtxt) where
  unfoldable pub check_if_sync_variable : Place → Bool
  check_if_sync_variable place =
      check_substring_in_place_type place "std::sync::MutexGuard<" caller_function_def_id tcx
      || check_substring_in_place_type place "std::sync::Mutex<" caller_function_def_id tcx
      || check_substring_in_place_type place "std::thread::JoinHandle<" caller_function_def_id tcx
      || check_substring_in_place_type place "std::sync::Condvar" caller_function_def_id tcx

  unfoldable pub add_sync_place : Place → List Place → List Place
  add_sync_place rhs places = if check_if_sync_variable rhs then rhs ∷ places else places

  -- the operands with a place that holds a sync variable, in their order
  unfoldable pub sync_places : List Operand → List Place
  unfolding add_sync_place
  sync_places [] = []
  sync_places (copy rhs ∷ operands) = add_sync_place rhs (sync_places operands)
  sync_places (move rhs ∷ operands) = add_sync_place rhs (sync_places operands)
  sync_places (constant c ∷ operands) = sync_places operands

  unfoldable pub aggregate_if_any : Place → List Place → Run Memory (Unit {0})
  aggregate_if_any place [] = pure tt
  aggregate_if_any place (p ∷ ps) = create_aggregate place (p ∷ ps)

  unfoldable pub handle_aggregate_assignment : Place → List Operand → Run Memory (Unit {0})
  unfolding sync_places aggregate_if_any
  handle_aggregate_assignment place operands = aggregate_if_any place (sync_places operands)

  unfoldable pub link_if_sync_variable :
      (place_to_link place_linked : Place) → Run Memory (Unit {0})
  unfolding check_if_sync_variable
  link_if_sync_variable place_to_link place_linked =
      if check_if_sync_variable place_to_link
      then if is_indirect place_linked
        then (do
          field_number ← lift (get_field_number_in_projection place_linked)
          link_field_in_aggregate place_to_link (local_place place_linked.local) field_number)
        else link_place_to_same_value place_to_link place_linked
      else pure tt

  unfoldable pub link_first : Option Place → (return_value : Place) → Run Memory (Unit {0})
  link_first none return_value = pure tt
  link_first (some first_argument) return_value = link_if_sync_variable return_value first_argument

  unfoldable pub link_return_value_if_sync_variable :
      List Operand → (return_value : Place) → Run Memory (Unit {0})
  unfolding link_first
  link_return_value_if_sync_variable args return_value =
      link_first (extract_nth_argument_as_place args 0) return_value
