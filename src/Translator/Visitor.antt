-- ===== src/Translator/Visitor.antt =====
-- src/translator/mir_visitor.rs: what the translation does at each element of a body.
use granite.Common.{Option, none, some, List, [], ◌∷◌}
use granite.Common.Outcome.{ok, unsupported_terminator, Run, pure, fail, gets, ◌>>=◌, ◌>>◌}
use granite.PetriNet.{TransitionRef, PetriNet}
use granite.Mir.{
  Place, BasicBlock, Operand, copy, move, constant, Rvalue, use_of, ref, aggregate, other_rvalue,
  UnwindAction, cleanup, TerminatorKind, Visit, basic_block_data, assign, terminator,
}
use granite.Context.{on_memory}
use granite.Sync.Mutex.{handle_mutex_guard_drop}
use granite.Sync.Tracking.{handle_aggregate_assignment, link_if_sync_variable}
use granite.MirFunction.{activate_block}
use granite.MirFunction.Terminator
use granite.Translator.{Translator, with_frame, with_context, read_top}
use granite.Translator.Calls.{call_function}

module _ {Net : Type 0} ⦃api : PetriNet Net⦄ where
  unfoldable pub visit_basic_block_data : BasicBlock → Run (Translator Net) (Unit {0})
  visit_basic_block_data block = with_frame (activate_block block)

  unfoldable pub link_assigned : (place rhs : Place) → Run (Translator Net) (Unit {0})
  link_assigned place rhs s =
      (do
        function ← read_top (λ f. ok f)
        with_context (on_memory (link_if_sync_variable function.def_id s.tcx place rhs)))
        s

  unfoldable pub link_aggregate : Place → List Operand → Run (Translator Net) (Unit {0})
  link_aggregate place operands s =
      (do
        function ← read_top (λ f. ok f)
        with_context (on_memory (handle_aggregate_assignment function.def_id s.tcx place operands)))
        s

  unfoldable pub visit_assign : Place → Rvalue → Run (Translator Net) (Unit {0})
  unfolding link_assigned link_aggregate
  visit_assign place (use_of (copy rhs)) = link_assigned place rhs
  visit_assign place (use_of (move rhs)) = link_assigned place rhs
  visit_assign place (use_of (constant c)) = pure tt
  visit_assign place (ref rhs) = link_assigned place rhs
  visit_assign place (aggregate operands) = link_aggregate place operands
  visit_assign place other_rvalue = pure tt

  unfoldable pub unwind_to_panic : Run (Translator Net) (Unit {0})
  unwind_to_panic = do
    program_panic ← gets (λ s. s.program_panic)
    with_frame (Terminator.unwind program_panic)
    pure tt

  unfoldable pub unreachable_to_end : Run (Translator Net) (Unit {0})
  unreachable_to_end = do
    program_end ← gets (λ s. s.program_end)
    with_frame (Terminator.unreachable program_end)

  -- `Terminate` is deliberately translated as `Continue`
  unfoldable pub drop_transitions :
      (target : BasicBlock)
      → UnwindAction
      → Run (Translator Net) (TransitionRef × Option TransitionRef)
  drop_transitions target (cleanup block) = with_frame (Terminator.drop target (some block))
  drop_transitions target UnwindAction.unreachable = do
    unreachable_to_end
    with_frame (Terminator.drop target none)
  drop_transitions target _ = with_frame (Terminator.drop target none)

  unfoldable pub drop_at_cleanup : Place → Option TransitionRef → Run (Translator Net) (Unit {0})
  drop_at_cleanup place none = pure tt
  drop_at_cleanup place (some cleanup_transition) =
      with_context (handle_mutex_guard_drop place cleanup_transition)

  unfoldable pub visit_drop :
      Place → (target : BasicBlock) → UnwindAction → Run (Translator Net) (Unit {0})
  unfolding unreachable_to_end drop_transitions drop_at_cleanup
  visit_drop place target unwind = do
    (transition, cleanup_transition) ← drop_transitions target unwind
    with_context (handle_mutex_guard_drop place transition)
    drop_at_cleanup place cleanup_transition

  unfoldable pub visit_assert :
      (target : BasicBlock) → UnwindAction → Run (Translator Net) (Unit {0})
  visit_assert target (cleanup block) = with_frame (Terminator.assert target (some block))
  visit_assert target UnwindAction.unreachable = do
    with_frame (Terminator.assert target none)
    unreachable_to_end
  visit_assert target _ = with_frame (Terminator.assert target none)

  module _ (recurse : Run (Translator Net) (Unit {0})) where
    unfoldable pub visit_terminator : TerminatorKind → Run (Translator Net) (Unit {0})
    unfolding unwind_to_panic unreachable_to_end visit_drop visit_assert
    visit_terminator (TerminatorKind.goto target) = with_frame (Terminator.goto target)
    visit_terminator (TerminatorKind.switch_int targets) =
        with_frame (Terminator.switch_int targets)
    visit_terminator TerminatorKind.unwind_resume = unwind_to_panic
    visit_terminator TerminatorKind.unwind_terminate = unwind_to_panic
    visit_terminator TerminatorKind.return_ = with_frame Terminator.return_statement
    visit_terminator TerminatorKind.unreachable = unreachable_to_end
    visit_terminator (TerminatorKind.drop place target unwind) = visit_drop place target unwind
    visit_terminator (TerminatorKind.call func args destination target unwind) =
        call_function recurse func args destination target unwind
    visit_terminator (TerminatorKind.assert target unwind) = visit_assert target unwind
    visit_terminator TerminatorKind.yield_ = fail unsupported_terminator
    visit_terminator TerminatorKind.coroutine_drop = fail unsupported_terminator
    visit_terminator TerminatorKind.false_edge = fail unsupported_terminator
    visit_terminator TerminatorKind.false_unwind = fail unsupported_terminator
    visit_terminator TerminatorKind.inline_asm = fail unsupported_terminator
    visit_terminator TerminatorKind.tail_call = fail unsupported_terminator

    unfoldable pub visit : Visit → Run (Translator Net) (Unit {0})
    unfolding visit_basic_block_data visit_assign visit_terminator
    visit (basic_block_data block) = visit_basic_block_data block
    visit (assign place rvalue) = visit_assign place rvalue
    visit (terminator kind) = visit_terminator kind

    -- `visit_body`: the overridden methods, in the order of the compiler's traversal
    unfoldable pub visit_all : List Visit → Run (Translator Net) (Unit {0})
    unfolding visit
    visit_all [] = pure tt
    visit_all (v ∷ vs) = do visit v; visit_all vs
