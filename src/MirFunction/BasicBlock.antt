-- ===== src/MirFunction/BasicBlock.antt =====
-- src/translator/mir_function/basic_block.rs
use granite.Common.{ℕ, String, Option, none, some}
use granite.Common.Outcome.{Run, pure, ◌>>=◌, ◌>>◌}
use granite.Naming.BasicBlock.{
  place_label, goto_transition_label, switch_int_transition_label, unwind_transition_label,
  drop_transition_label, drop_cleanup_transition_label, assert_transition_label,
  assert_cleanup_transition_label, unreachable_transition_label,
}
use granite.PetriNet.{PlaceRef, TransitionRef, PetriNet, add_place, connect_places}

pub record BasicBlock : Type 0 where
  pub function_name : String
  pub index : ℕ
  pub place : PlaceRef

module _ {Net : Type 0} ⦃api : PetriNet Net⦄ where
  unfoldable pub block_place : String → ℕ → Option PlaceRef → Run Net PlaceRef
  block_place function_name index none = add_place (place_label function_name index)
  block_place function_name index (some place) = pure place

  unfoldable pub new : String → ℕ → Option PlaceRef → Run Net BasicBlock
  unfolding block_place
  new function_name index place = do
    place ← block_place function_name index place
    pure (record { function_name = function_name; index = index; place = place })

  unfoldable pub goto : BasicBlock → (target : BasicBlock) → Run Net (Unit {0})
  goto b target = do
    connect_places b.place target.place (goto_transition_label b.function_name b.index)
    pure tt

  unfoldable pub switch_int : BasicBlock → (target : BasicBlock) → ℕ → Run Net (Unit {0})
  switch_int b target target_index = do
    connect_places b.place target.place
        (switch_int_transition_label b.function_name b.index target_index)
    pure tt

  unfoldable pub unwind : BasicBlock → (unwind_place : PlaceRef) → Run Net TransitionRef
  unwind b unwind_place =
      connect_places b.place unwind_place (unwind_transition_label b.function_name b.index)

  unfoldable pub drop : BasicBlock → (target : BasicBlock) → Run Net TransitionRef
  drop b target =
      connect_places b.place target.place (drop_transition_label b.function_name b.index)

  unfoldable pub drop_cleanup : BasicBlock → (cleanup : BasicBlock) → Run Net TransitionRef
  drop_cleanup b cleanup =
      connect_places b.place cleanup.place (drop_cleanup_transition_label b.function_name b.index)

  unfoldable pub assert : BasicBlock → (target : BasicBlock) → Run Net (Unit {0})
  assert b target = do
    connect_places b.place target.place (assert_transition_label b.function_name b.index)
    pure tt

  unfoldable pub assert_cleanup : BasicBlock → (cleanup : BasicBlock) → Run Net (Unit {0})
  assert_cleanup b cleanup = do
    connect_places b.place cleanup.place (assert_cleanup_transition_label b.function_name b.index)
    pure tt

  unfoldable pub unreachable : BasicBlock → (end_place : PlaceRef) → Run Net (Unit {0})
  unreachable b end_place = do
    connect_places b.place end_place (unreachable_transition_label b.function_name b.index)
    pure tt
