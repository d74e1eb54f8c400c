-- ===== src/Safety/Visitor.antt =====
-- `Translator.Visitor`: each element of a body leads to a well-formed state.
use granite.Common.{Bool, All, Option, none, some, List, [], ◌∷◌, refl}
use granite.Common.Outcome.{Run}
use granite.Common.Outcome.Safe.{Safe}
use granite.Common.Outcome.Fueled.{Fueled, panics, of_Safe}
use granite.PetriNet.{TransitionRef, PetriNet}
use granite.PetriNet.View.{Laws}
use granite.PetriNet.Grows.{TransitionIn}
use granite.Mir.{
  DefId, Place, BasicBlock, Operand, copy, move, constant, Rvalue, use_of, ref, aggregate,
  other_rvalue, UnwindAction, continue, terminate, cleanup, TerminatorKind, Visit, basic_block_data,
  assign, terminator,
}
use granite.MirFunction.Terminator
use granite.Translator.{Translator, with_frame}
use granite.Translator.Visitor.{
  visit_basic_block_data, link_assigned, link_aggregate, visit_assign, unwind_to_panic,
  unreachable_to_end, drop_transitions, drop_at_cleanup, visit_drop, visit_assert, visit_terminator,
  visit, visit_all,
}
use granite.Safety.World.{OptionIn, OptionIn-Grows}
use granite.Safety.Frame.{activate_block-Safe}
use granite.Safety.Frame.Terminator.{
  goto-Safe, switch_int-Safe, unwind-Safe, unreachable-Safe, return_statement-Safe, drop-Safe,
  assert-Safe,
}
use granite.Safety.Step.{on_memory-Safe}
use granite.Safety.Special.{drop_guard-Safe}
use granite.Safety.Tracking.{handle_aggregate_assignment-Safe, link_if_sync_variable-Safe}
use granite.Safety.Allowed.{VisitAllowed}
use granite.Safety.Calls.{call_function_lem}
use granite.Safety.State.{
  Outline, enter, proceed, Inv, Moves, Nothing, next, stay, read_top-Safe, with_frame-Safe,
  with_context-Safe,
}

module _ {Net : Type 0} ⦃api : PetriNet Net⦄ (L : Laws Net) (here : DefId) (n : Outline) where
  open L use {view}

  -- from any well-formed state to one, at the same depth
  abbrev Keeps : Run (Translator Net) (Unit {0}) → Type 0
  Keeps m =
      (s : Translator Net)
      → Inv L (enter here n) s
      → Safe (Moves L (enter here n) s (Nothing L)) (m s)

  link_assigned-Keeps : (p q : Place) → Keeps (link_assigned p q)
  unfolding link_assigned
  link_assigned-Keeps p q s h =
      next L (read_top-Safe L here n s h (Nothing L) _ λ f hf. Safe.returns tt) λ (caller, s₁) m₁.
        with_context-Safe L here n s₁ m₁.inv (Nothing L) _ λ c hc g r. on_memory-Safe L c hc (
          link_if_sync_variable-Safe c.store.objects caller.def_id s.tcx p q c.store.memory
            hc.memory)

  link_aggregate-Keeps : (p : Place) (operands : List Operand) → Keeps (link_aggregate p operands)
  unfolding link_aggregate
  link_aggregate-Keeps p operands s h =
      next L (read_top-Safe L here n s h (Nothing L) _ λ f hf. Safe.returns tt) λ (caller, s₁) m₁.
        with_context-Safe L here n s₁ m₁.inv (Nothing L) _ λ c hc g r. on_memory-Safe L c hc (
          handle_aggregate_assignment-Safe c.store.objects caller.def_id s.tcx p operands
            c.store.memory hc.memory)

  visit_assign-Keeps : (p : Place) (r : Rvalue) → Keeps (visit_assign p r)
  unfolding visit_assign
  visit_assign-Keeps p (use_of (copy q)) = link_assigned-Keeps p q
  visit_assign-Keeps p (use_of (move q)) = link_assigned-Keeps p q
  visit_assign-Keeps p (use_of (constant c)) = λ s h. stay L tt h tt
  visit_assign-Keeps p (ref q) = link_assigned-Keeps p q
  visit_assign-Keeps p (aggregate operands) = link_aggregate-Keeps p operands
  visit_assign-Keeps p other_rvalue = λ s h. stay L tt h tt

  unwind_to_panic-Keeps : Keeps unwind_to_panic
  unfolding unwind_to_panic
  unwind_to_panic-Keeps s h =
      next L
        (with_frame-Safe L here n s h (Nothing L) _ λ c hc g.
          unwind-Safe L s.objects here s.program_panic c hc
            (g.places s.program_panic h.program_panic))
        λ (_, s₁) m₁. stay L tt m₁.inv tt

  unreachable_to_end-Keeps : Keeps unreachable_to_end
  unfolding unreachable_to_end
  unreachable_to_end-Keeps s h = with_frame-Safe L here n s h (Nothing L) _ λ c hc g.
      unreachable-Safe L s.objects here s.program_end c hc (g.places s.program_end h.program_end)

  drop_transitions-Safe :
      (target : BasicBlock) (u : UnwindAction) (s : Translator Net)
      → Inv L (enter here n) s
      → Safe
          (Moves L (enter here n) s λ (t, c) v o. TransitionIn v t × OptionIn v c)
          (drop_transitions target u s)
  unfolding drop_transitions
  drop_transitions-Safe target (cleanup b) s h =
      with_frame-Safe L here n s h _ _ λ c hc g. drop-Safe L s.objects here target (some b) c hc
  drop_transitions-Safe target UnwindAction.unreachable s h =
      next L (unreachable_to_end-Keeps s h) λ (_, s₁) m₁.
        with_frame-Safe L here n s₁ m₁.inv _ _
          λ c hc g. drop-Safe L s₁.objects here target none c hc
  drop_transitions-Safe target continue s h =
      with_frame-Safe L here n s h _ _ λ c hc g. drop-Safe L s.objects here target none c hc
  drop_transitions-Safe target terminate s h =
      with_frame-Safe L here n s h _ _ λ c hc g. drop-Safe L s.objects here target none c hc

  drop_at_cleanup-Safe :
      (p : Place) (t : Option TransitionRef) (s : Translator Net)
      → Inv L (enter here n) s
      → OptionIn (view s.net) t
      → Safe (Moves L (enter here n) s (Nothing L)) (drop_at_cleanup p t s)
  unfolding drop_at_cleanup
  drop_at_cleanup-Safe p none s h ht = stay L tt h tt
  drop_at_cleanup-Safe p (some t) s h ht = drop_guard-Safe L here n p t s h ht

  visit_drop-Keeps :
      (p : Place) (target : BasicBlock) (u : UnwindAction) → Keeps (visit_drop p target u)
  unfolding visit_drop
  visit_drop-Keeps p target u s h = next L (drop_transitions-Safe target u s h) λ ((t, c), s₁) m₁.
      next L (drop_guard-Safe L here n p t s₁ m₁.inv m₁.result.0)
        λ (_, s₂) m₂. drop_at_cleanup-Safe p c s₂ m₂.inv (OptionIn-Grows m₂.grows c m₁.result.1)

  assert-Keeps :
      (target : BasicBlock) (b : Option BasicBlock)
      → Keeps (with_frame (Terminator.assert target b))
  assert-Keeps target b s h =
      with_frame-Safe L here n s h (Nothing L) _
        λ c hc g. assert-Safe L s.objects here target b c hc

  visit_assert-Keeps : (target : BasicBlock) (u : UnwindAction) → Keeps (visit_assert target u)
  unfolding visit_assert
  visit_assert-Keeps target (cleanup b) s h = assert-Keeps target (some b) s h
  visit_assert-Keeps target UnwindAction.unreachable s h =
      next L (assert-Keeps target none s h) λ (_, s₁) m₁. unreachable_to_end-Keeps s₁ m₁.inv
  visit_assert-Keeps target continue s h = assert-Keeps target none s h
  visit_assert-Keeps target terminate s h = assert-Keeps target none s h

  module _ {b : Bool} (may_call : DefId → Type 0) (recurse : Run (Translator Net) (Unit {0}))
      (recurse-Fueled : (d : DefId) (s : Translator Net)
        → may_call d
        → Inv L (enter d (enter here n)) s
        → Fueled b (Moves L (enter here n) s (Nothing L)) (recurse s)) where
    -- the same for what may enter the body of another function
    abbrev Ends : Run (Translator Net) (Unit {0}) → Type 0
    Ends m =
        (s : Translator Net)
        → Inv L (enter here n) s
        → Fueled b (Moves L (enter here n) s (Nothing L)) (m s)

    visit_terminator-Ends :
        (k : TerminatorKind)
        → VisitAllowed n.program here may_call n.may_spawn (terminator k)
        → Ends (visit_terminator recurse k)
    unfolding visit_terminator
    visit_terminator-Ends (TerminatorKind.goto target) allowed s h = of_Safe (
        with_frame-Safe L here n s h (Nothing L) _ λ c hc g. goto-Safe L s.objects here target c hc)
    visit_terminator-Ends (TerminatorKind.switch_int targets) allowed s h = of_Safe (
        with_frame-Safe L here n s h (Nothing L) _
          λ c hc g. switch_int-Safe L s.objects here targets c hc)
    visit_terminator-Ends TerminatorKind.unwind_resume allowed s h =
        of_Safe (unwind_to_panic-Keeps s h)
    visit_terminator-Ends TerminatorKind.unwind_terminate allowed s h =
        of_Safe (unwind_to_panic-Keeps s h)
    visit_terminator-Ends TerminatorKind.return_ allowed s h = of_Safe (
        with_frame-Safe L here n s h (Nothing L) _
          λ c hc g. return_statement-Safe L s.objects here c hc)
    visit_terminator-Ends TerminatorKind.unreachable allowed s h =
        of_Safe (unreachable_to_end-Keeps s h)
    visit_terminator-Ends (TerminatorKind.drop p target u) allowed s h =
        of_Safe (visit_drop-Keeps p target u s h)
    visit_terminator-Ends (TerminatorKind.call func args d target u) allowed s h =
        call_function_lem L here n may_call recurse recurse-Fueled func args d target u s allowed h
    visit_terminator-Ends (TerminatorKind.assert target u) allowed s h =
        of_Safe (visit_assert-Keeps target u s h)
    visit_terminator-Ends TerminatorKind.yield_ allowed s h = panics refl
    visit_terminator-Ends TerminatorKind.coroutine_drop allowed s h = panics refl
    visit_terminator-Ends TerminatorKind.false_edge allowed s h = panics refl
    visit_terminator-Ends TerminatorKind.false_unwind allowed s h = panics refl
    visit_terminator-Ends TerminatorKind.inline_asm allowed s h = panics refl
    visit_terminator-Ends TerminatorKind.tail_call allowed s h = panics refl

    visit-Ends :
        (v : Visit) → VisitAllowed n.program here may_call n.may_spawn v → Ends (visit recurse v)
    unfolding visit visit_basic_block_data
    visit-Ends (basic_block_data block) allowed s h = of_Safe (
        with_frame-Safe L here n s h (Nothing L) _
          λ c hc g. activate_block-Safe L s.objects here block c hc)
    visit-Ends (assign p r) allowed s h = of_Safe (visit_assign-Keeps p r s h)
    visit-Ends (terminator k) allowed s h = visit_terminator-Ends k allowed s h

    pub visit_all-Ends :
        (vs : List Visit) (s : Translator Net)
        → All (VisitAllowed n.program here may_call n.may_spawn) vs
        → Inv L (enter here n) s
        → Fueled b (Moves L (enter here n) s (Nothing L)) (visit_all recurse vs s)
    unfolding visit_all
    visit_all-Ends [] s allowed h = of_Safe (stay L tt h tt)
    visit_all-Ends (v ∷ vs) s allowed h =
        proceed L (visit-Ends v allowed.0 s h) λ (_, s₁) m₁. visit_all-Ends vs s₁ allowed.1 m₁.inv
