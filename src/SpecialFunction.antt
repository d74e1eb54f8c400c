-- ===== src/SpecialFunction.antt =====
-- src/translator/special_function.rs: calls that are translated in an abridged form.
pub mod Shape
use granite.Common.{ℕ, String, Bool, not, ◌||◌, str_eq, starts_with}
use granite.Common.Outcome.{Run, pure, ◌>>=◌, ◌>>◌}
use granite.Naming.Function.{
  diverging_call_transition_label, foreign_call_transition_labels, panic_transition_label,
}
use granite.PetriNet.{PlaceRef, PetriNet, add_transition, add_arc_place_transition, connect_places}
use granite.Function.{Places, Transitions}
use granite.Mir.{DefId, TyCtxt}

unfoldable pub is_panic_function : String → Bool
is_panic_function function_name =
    str_eq function_name "core::panicking::assert_failed"
    || str_eq function_name "core::panicking::panic"
    || str_eq function_name "core::panicking::panic_fmt"
    || str_eq function_name "std::rt::begin_panic"
    || str_eq function_name "std::rt::begin_panic_fmt"

unfoldable pub is_foreign_function : DefId → String → TyCtxt → Bool
is_foreign_function function_def_id function_name tcx =
    starts_with function_name "std::"
    || starts_with function_name "core::"
    || starts_with function_name "alloc::"
    || tcx.is_foreign_item function_def_id
    || not (tcx.is_mir_available function_def_id)

module _ {Net : Type 0} ⦃api : PetriNet Net⦄ where
  unfoldable pub call_foreign_function : String → ℕ → Places → Run Net Transitions
  call_foreign_function function_name index (Places.basic start_place end_place) = do
    let labels = foreign_call_transition_labels function_name index
    default ← connect_places start_place end_place labels.0
    pure (Transitions.basic default)
  call_foreign_function function_name index
        (Places.with_cleanup start_place end_place cleanup_place) =
      do
        let labels = foreign_call_transition_labels function_name index
        default ← connect_places start_place end_place labels.0
        cleanup ← connect_places start_place cleanup_place labels.1
        pure (Transitions.with_cleanup default cleanup)

  unfoldable pub call_diverging_function : PlaceRef → String → Run Net (Unit {0})
  call_diverging_function start_place function_name = do
    transition ← add_transition (diverging_call_transition_label function_name)
    add_arc_place_transition start_place transition

  unfoldable pub call_panic_function :
      (start_place unwind_place : PlaceRef) → String → Run Net (Unit {0})
  call_panic_function start_place unwind_place function_name = do
    connect_places start_place unwind_place (panic_transition_label function_name)
    pure tt
