-- ===== src/Naming/Function.antt =====
-- src/naming/function.rs
use Prim.Native.String.{◌++◌}
use granite.Common.{ℕ, String}
use granite.Text.Decimal.{decimal}
use granite.Naming.Sanitize.{sanitize}

module _ (function_name : String) where
  pub indexed_mir_function_name : ℕ → String
  indexed_mir_function_name index = sanitize function_name ++ ("_" ++ decimal index)

  pub indexed_mir_function_cleanup_label : ℕ → String
  indexed_mir_function_cleanup_label index =
      sanitize function_name ++ ("_" ++ (decimal index ++ "_CALL_UNWIND"))

  pub return_transition_label : String
  return_transition_label = sanitize function_name ++ "_RETURN"

  pub foreign_call_transition_labels : ℕ → String × String
  foreign_call_transition_labels index = (
    sanitize function_name ++ ("_" ++ (decimal index ++ "_CALL")),
    sanitize function_name ++ ("_" ++ (decimal index ++ "_CALL_UNWIND")),
  )

  pub diverging_call_transition_label : String
  diverging_call_transition_label = sanitize function_name ++ "_DIVERGING_CALL"

  pub panic_transition_label : String
  panic_transition_label = sanitize function_name ++ "_PANIC"
