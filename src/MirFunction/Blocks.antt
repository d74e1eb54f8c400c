-- ===== src/MirFunction/Blocks.antt =====
-- `HashMap<rustc_middle::mir::BasicBlock, BasicBlock>`: an association list.
use granite.Common.{ℕ, Bool, true, false, Option, none, some, List, [], ◌∷◌, ◌==◌, if◌then◌else◌}
use granite.MirFunction.BasicBlock.{BasicBlock}

abbrev pub BlockMap : Type 0
BlockMap = List (ℕ × BasicBlock)

unfoldable pub get : ℕ → BlockMap → Option BasicBlock
get number [] = none
get number ((other, block) ∷ rest) = if other == number then some block else get number rest

unfoldable pub insert : ℕ → BasicBlock → BlockMap → BlockMap
insert number block [] = (number, block) ∷ []
insert number block ((other, old) ∷ rest) =
    if other == number then (number, block) ∷ rest else (other, old) ∷ insert number block rest

abbrev is_some : Option BasicBlock → Bool
is_some none = false
is_some (some b) = true

unfoldable pub contains_key : ℕ → BlockMap → Bool
unfolding get
contains_key k m = is_some (get k m)

unfoldable pub is_empty : BlockMap → Bool
is_empty [] = true
is_empty (b ∷ bs) = false
