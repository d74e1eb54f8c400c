-- ===== src/Naming/Labels.antt =====
-- Labels that differ where their numbers differ.
use Prim.Native.String.{◌++◌}
use text.Mathlib.TextLemmas.{append_cancel_left}
use granite.Common.{ℕ, String, ◌≡◌}
use granite.Text.Decimal.{decimal, decimal-injective}
use granite.Naming.Sanitize.{sanitize}
use granite.Naming.BasicBlock.{place_label}

-- a number behind a fixed text
numbered-injective :
    (prefix middle : String) (i j : ℕ)
    → (prefix ++ (middle ++ decimal i)) ≡ (prefix ++ (middle ++ decimal j))
    → i ≡ j
numbered-injective prefix middle i j e =
    decimal-injective i j (append_cancel_left middle _ _ (append_cancel_left prefix _ _ e))

-- Two basic blocks of a function have the same place label only if they have the same number.
pub place_label-injective :
    (function_name : String) (i j : ℕ)
    → place_label function_name i ≡ place_label function_name j
    → i ≡ j
unfolding place_label
place_label-injective function_name i j e = numbered-injective (sanitize function_name) "_BB" i j e
