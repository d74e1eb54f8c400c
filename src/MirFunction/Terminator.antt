-- ===== src/MirFunction/Terminator.antt =====
-- src/translator/mir_function/terminator.rs
use granite.Common.{ℕ, Option, none, some, List, [], ◌∷◌}
use granite.Common.Outcome.{Run, pure, ◌>>=◌, ◌>>◌}
use granite.Naming.Function.{return_transition_label}
use granite.PetriNet.{PlaceRef, TransitionRef, PetriNet, connect_places}
use granite.MirFunction.{
  Frame, frame_net, read_function, get_active_block, prepare_start_place_for_return_statement,
  get_pair_active_block_target_block,
}
use granite.MirFunction.BasicBlock

module _ {Net : Type 0} ⦃api : PetriNet Net⦄ where
  unfoldable pub goto : (target : ℕ) → Run (Frame Net) (Unit {0})
  goto target = do
    (active_block, target_block) ← get_pair_active_block_target_block target
    frame_net (BasicBlock.goto active_block target_block)

  unfoldable pub switch_int : (targets : List ℕ) → Run (Frame Net) (Unit {0})
  switch_int [] = pure tt
  switch_int (basic_block ∷ targets) = do
    (active_block, target_block) ← get_pair_active_block_target_block basic_block
    frame_net (BasicBlock.switch_int active_block target_block basic_block)
    switch_int targets

  unfoldable pub unwind : (unwind_place : PlaceRef) → Run (Frame Net) TransitionRef
  unwind unwind_place = do
    active_block ← read_function get_active_block
    frame_net (BasicBlock.unwind active_block unwind_place)

  unfoldable pub drop_to_cleanup : Option ℕ → Run (Frame Net) (Option TransitionRef)
  drop_to_cleanup none = pure none
  drop_to_cleanup (some cleanup) = do
    (active_block, cleanup_block) ← get_pair_active_block_target_block cleanup
    transition ← frame_net (BasicBlock.drop_cleanup active_block cleanup_block)
    pure (some transition)

  unfoldable pub drop :
      (target : ℕ) (cleanup : Option ℕ) → Run (Frame Net) (TransitionRef × Option TransitionRef)
  unfolding drop_to_cleanup
  drop target cleanup = do
    (active_block, target_block) ← get_pair_active_block_target_block target
    drop_transition ← frame_net (BasicBlock.drop active_block target_block)
    cleanup_transition ← drop_to_cleanup cleanup
    pure (drop_transition, cleanup_transition)

  unfoldable pub assert_to_cleanup : Option ℕ → Run (Frame Net) (Unit {0})
  assert_to_cleanup none = pure tt
  assert_to_cleanup (some cleanup) = do
    (active_block, cleanup_block) ← get_pair_active_block_target_block cleanup
    frame_net (BasicBlock.assert_cleanup active_block cleanup_block)

  unfoldable pub assert : (target : ℕ) (cleanup : Option ℕ) → Run (Frame Net) (Unit {0})
  unfolding assert_to_cleanup
  assert target cleanup = do
    (active_block, target_block) ← get_pair_active_block_target_block target
    frame_net (BasicBlock.assert active_block target_block)
    assert_to_cleanup cleanup

  unfoldable pub return_statement : Run (Frame Net) (Unit {0})
  return_statement c =
      (do
        start_place ← read_function prepare_start_place_for_return_statement
        frame_net (
            connect_places start_place c.function.end_place
              (return_transition_label c.function.name))
        pure tt)
        c

  unfoldable pub unreachable : (end_place : PlaceRef) → Run (Frame Net) (Unit {0})
  unreachable end_place = do
    active_block ← read_function get_active_block
    frame_net (BasicBlock.unreachable active_block end_place)
