-- ===== src/Naming/BasicBlock.antt =====
-- src/naming/basic_block.rs
use Prim.Native.String.{◌++◌}
use granite.Common.{ℕ, String}
use granite.Text.Decimal.{decimal}
use granite.Naming.Sanitize.{sanitize}

module _ (function_name : String) where
  unfoldable pub place_label : ℕ → String
  place_label index = sanitize function_name ++ ("_BB" ++ decimal index)

  pub goto_transition_label : ℕ → String
  goto_transition_label index = sanitize function_name ++ ("_GOTO_" ++ decimal index)

  pub switch_int_transition_label : ℕ → ℕ → String
  switch_int_transition_label from_index to_index =
      sanitize function_name
      ++ ("_SWITCH_INT_FROM_BB" ++ (decimal from_index ++ ("_TO_BB" ++ decimal to_index)))

  pub unwind_transition_label : ℕ → String
  unwind_transition_label index = sanitize function_name ++ ("_UNWIND_" ++ decimal index)

  pub drop_transition_label : ℕ → String
  drop_transition_label index = sanitize function_name ++ ("_DROP_" ++ decimal index)

  pub drop_cleanup_transition_label : ℕ → String
  drop_cleanup_transition_label index = sanitize function_name ++ ("_DROP_UNWIND_" ++ decimal index)

  pub assert_transition_label : ℕ → String
  assert_transition_label index = sanitize function_name ++ ("_ASSERT_" ++ decimal index)

  pub assert_cleanup_transition_label : ℕ → String
  assert_cleanup_transition_label index =
      sanitize function_name ++ ("_ASSERT_CLEANUP_" ++ decimal index)

  pub unreachable_transition_label : ℕ → String
  unreachable_transition_label index = sanitize function_name ++ ("_UNREACHABLE_" ++ decimal index)
